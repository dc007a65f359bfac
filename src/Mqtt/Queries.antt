-- ===== src/Mqtt/Queries.antt =====
-- A whole table query: tableQueryRequestBlocking and TablequeryResultMqttHandler of
-- node-net-manager/mqtt/Tablequery.go as goroutines that interleave. A goroutine goes from one lock,
-- publication or wait to the next. Whether an interest is registered, how long an answer takes and
-- what it says are open.
pub mod Invariant
pub mod Changes
pub mod Steps
pub mod Channels
pub mod Filled
pub mod Answers
use oakestra_net.Base.{
  ℕ, Bool, Option, true, false, not, ◌&&◌, none, some, List, [], ◌∷◌, ◌++◌, Bytes, if◌then◌else◌,
  ◌≡◌, ◌==◌,
}
use oakestra_net.Mqtt.{TableQueryResponse, QueryCache, start_query, notify, query_keys}

pub record TableQueryRequest : Type 0 where
  pub sname : Bytes
  pub sip : Bytes

pub data QueryError : Type 0 where
  interest_registered already_happening mqtt_timeout : QueryError

-- Where a call of `tableQueryRequestBlocking` is: before `MqttIsInterestRegistered`, before the lock,
-- before `PublishToBroker`, in its `select`, or done. The number is its response channel.
pub data QueryPhase : Type 0 where
  entered allowed : QueryPhase
  publishing waiting : ℕ → QueryPhase
  answered : TableQueryResponse → QueryPhase
  failed : QueryError → QueryPhase

pub record Query : Type 0 where
  pub sip : Bytes
  pub sname : Bytes
  pub force : Bool
  pub phase : QueryPhase

-- A call of the handler, with the keys that are left of its loop.
pub record Delivery : Type 0 where
  pub response : TableQueryResponse
  pub keys : List Bytes

pub record Queries : Type 0 where
  pub cache : QueryCache
  pub queries : List Query
  pub deliveries : List Delivery
  pub published : List TableQueryRequest

abbrev pub reqname : Query → Bytes
reqname c = c.sip ++ c.sname

-- `force_optional`.
abbrev pub is_forced : List Bool → Bool
is_forced [] = false
is_forced (force ∷ rest) = force

-- `TableQueryByIpRequestBlocking` and `TableQueryByJobNameRequestBlocking`.
abbrev pub table_query_by_ip : Bytes → List Bool → Query
table_query_by_ip sip forces = record {
  sip = sip;
  sname = [];
  force = is_forced forces;
  phase = entered;
}

abbrev pub table_query_by_job_name : Bytes → List Bool → Query
table_query_by_job_name jobname forces = record {
  sip = [];
  sname = jobname;
  force = is_forced forces;
  phase = entered;
}

-- The `select`: a timeout, or the first response of the channel, if there is one.
unfoldable pub await : Bool → ℕ → List TableQueryResponse → QueryCache → QueryCache × QueryPhase
await true i responses q = (q, failed mqtt_timeout)
await false i [] q = (q, waiting i)
await false i (r ∷ rs) q =
    (record q { responses = λ j. if j == i then rs else q.responses j }, answered r)

-- The query after the lock.
abbrev pub locked : QueryCache × Option ℕ → QueryCache × QueryPhase × List TableQueryRequest
locked (q, none) = (q, failed already_happening, [])
locked (q, some i) = (q, publishing i, [])

-- One step of `tableQueryRequestBlocking`, with the requests that it publishes.
unfoldable pub query_step :
    Bool → Bool → Query → QueryPhase → QueryCache → QueryCache × QueryPhase × List TableQueryRequest
unfolding await
query_step registered expired c entered q =
    (q, if registered && not c.force then failed interest_registered else allowed, [])
query_step registered expired c allowed q = locked (start_query q false c.force c.sip c.sname)
query_step registered expired c (publishing i) q =
    (q, waiting i, record { sname = c.sname; sip = c.sip } ∷ [])
query_step registered expired c (waiting i) q =
    let (q', p) = await expired i (q.responses i) q in (q', p, [])
query_step registered expired c (answered r) q = (q, answered r, [])
query_step registered expired c (failed e) q = (q, failed e, [])

-- One round of the loop of the handler.
unfoldable pub deliver : Delivery → List Bytes → QueryCache → QueryCache × Delivery
deliver d [] q = (q, d)
deliver d (key ∷ keys) q = (notify d.response key q, record { response = d.response; keys = keys })

-- `GetTableQueryRequestCacheInstance`.
abbrev pub new_query_cache : QueryCache
new_query_cache = record { siprequests = λ k. none; responses = λ j. []; made = 0 }

abbrev pub new_queries : Queries
new_queries = record { cache = new_query_cache; queries = []; deliveries = []; published = [] }

pub data Step : Queries → Queries → Type 0 where
  asked_ip :
      (sip : Bytes) (forces : List Bool) (s : Queries)
      → Step s (record s { queries = s.queries ++ table_query_by_ip sip forces ∷ [] })
  asked_job :
      (jobname : Bytes) (forces : List Bool) (s : Queries)
      → Step s (record s { queries = s.queries ++ table_query_by_job_name jobname forces ∷ [] })
  moved :
      (registered expired : Bool) (before rest : List Query) (c : Query) (s : Queries)
      → s.queries ≡ before ++ c ∷ rest
      → Step s (record {
        cache = (query_step registered expired c c.phase s.cache).0;
        queries =
            before
            ++ record c { phase = (query_step registered expired c c.phase s.cache).1 } ∷ rest;
        deliveries = s.deliveries;
        published = s.published ++ (query_step registered expired c c.phase s.cache).2;
      })
  received :
      (r : TableQueryResponse) (s : Queries)
      → Step s (record s {
        deliveries = s.deliveries ++ record { response = r; keys = query_keys r } ∷ [];
      })
  delivered :
      (before rest : List Delivery) (d : Delivery) (s : Queries)
      → s.deliveries ≡ before ++ d ∷ rest
      → Step s (record s {
        cache = (deliver d d.keys s.cache).0;
        deliveries = before ++ (deliver d d.keys s.cache).1 ∷ rest;
      })

pub data Reaches : Queries → Queries → Type 0 where
  here : (s : Queries) → Reaches s s
  later : (s t u : Queries) → Reaches s t → Step t u → Reaches s u
