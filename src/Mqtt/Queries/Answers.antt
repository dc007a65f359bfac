-- ===== src/Mqtt/Queries/Answers.antt =====
-- Which answer a table query returns, node-net-manager/mqtt/Tablequery.go.
use oakestra_net.Base.{
  ℕ, ◌≡◌, ◌≤◌, refl, true, some, List, [], ◌∷◌, ◌++◌, All, All-append, All_mono, All_replace,
  All_middle, any, Bytes, subst, ◌=ᵇ◌, =ᵇ_refl, length, Bool-cases, inl, inr, if◌then◌else◌,
}
use oakestra_net.Mqtt.{TableQueryResponse, QueryCache, table_query_result, query_keys}
use oakestra_net.Mqtt.Queries.{
  QueryPhase, entered, allowed, publishing, waiting, answered, failed, reqname, query_step, deliver,
  Delivery, Queries, new_queries, Step, asked_ip, asked_job, moved, received, delivered, Reaches,
  here, later,
}
use oakestra_net.Mqtt.Queries.Invariant.{Names, IsValid, Fits, Extends, Fits-Extends}
use oakestra_net.Mqtt.Queries.Steps.{new_query_cache-IsValid, notify-Extends, query_step-Fits}
use oakestra_net.Mqtt.Queries.Channels.{
  Apart, Apart-snoc, Apart-replace, FitsQuery, query_step-Takes,
}
use oakestra_net.Mqtt.Queries.Filled.{notify_all-responses}

-- The keys that are left are keys of the response.
abbrev Told : Delivery → Type 0
Told d = (k : Bytes) → any (λ key. key =ᵇ k) d.keys ≡ true → Names k d.response

record Holds (s : Queries) : Type 0 where
  cache : IsValid s.cache
  fits : All (FitsQuery s.cache) s.queries
  apart : Apart s.queries
  told : All Told s.deliveries

new_queries-Holds : Holds new_queries
new_queries-Holds = record { cache = new_query_cache-IsValid; fits = tt; apart = tt; told = tt }

deliver-Extends :
    (d : Delivery) (keys : List Bytes) (q : QueryCache)
    → IsValid q
    → ((k : Bytes) → any (λ key. key =ᵇ k) keys ≡ true → Names k d.response)
    → Extends q (deliver d keys q).0
unfolding deliver
deliver-Extends d [] q v t = record { valid = v; served = λ n i s. s }
deliver-Extends d (key ∷ keys) q v t =
    notify-Extends d.response key q v (t key (rw (=ᵇ_refl key) refl))

deliver-Told :
    (r : TableQueryResponse) (keys : List Bytes) (q : QueryCache)
    → Told (record { response = r; keys = keys })
    → Told (deliver (record { response = r; keys = keys }) keys q).1
unfolding deliver
deliver-Told r [] q t = t
deliver-Told r (key ∷ keys) q t =
    λ k h. t k (elim (Bool-cases (key =ᵇ k)) [ inl b ↦ rw (b) refl | inr b ↦ rw (b) h ])

Step-Holds : (s t : Queries) → Step s t → Holds s → Holds t
Step-Holds _ _ (asked_ip sip forces s) h = record {
  cache = h.cache;
  fits = All-append (FitsQuery s.cache) s.queries (_ ∷ []) h.fits (tt, tt);
  apart = Apart-snoc s.queries _ refl h.apart;
  told = h.told;
}
Step-Holds _ _ (asked_job jobname forces s) h = record {
  cache = h.cache;
  fits = All-append (FitsQuery s.cache) s.queries (_ ∷ []) h.fits (tt, tt);
  apart = Apart-snoc s.queries _ refl h.apart;
  told = h.told;
}
Step-Holds _ _ (moved registered expired before rest c s e) h =
    let fits : All (FitsQuery s.cache) (before ++ c ∷ rest) =
      subst (λ cs. All (FitsQuery s.cache) cs) e h.fits in
    let apart : Apart (before ++ c ∷ rest) = subst (λ cs. Apart cs) e h.apart in
    let (x, f) =
      query_step-Fits registered expired c c.phase s.cache h.cache
        (All_middle (FitsQuery s.cache) before rest c fits) in
    let q' = (query_step registered expired c c.phase s.cache).0 in
    let c' = record c { phase = (query_step registered expired c c.phase s.cache).1 } in
    record {
      cache = x.valid;
      fits =
          All_replace (FitsQuery s.cache) (FitsQuery q') before rest c c'
            (λ d g. Fits-Extends s.cache q' (reqname d) d.phase x g) fits (λ g. f);
      apart =
          Apart-replace s.cache c c' (query_step-Takes registered expired c c.phase s.cache) before
            rest fits apart;
      told = h.told;
    }
Step-Holds _ _ (received r s) h = record {
  cache = h.cache;
  fits = h.fits;
  apart = h.apart;
  told = All-append Told s.deliveries (_ ∷ []) h.told (λ k n. n, tt);
}
Step-Holds _ _ (delivered before rest d s e) h =
    let told : All Told (before ++ d ∷ rest) = subst (λ ds. All Told ds) e h.told in
    let t : Told d = All_middle Told before rest d told in
    let x = deliver-Extends d d.keys s.cache h.cache t in
    record {
      cache = x.valid;
      fits =
          All_mono (FitsQuery s.cache) (FitsQuery (deliver d d.keys s.cache).0) s.queries
            (λ c g. Fits-Extends s.cache _ (reqname c) c.phase x g) h.fits;
      apart = h.apart;
      told =
          All_replace Told Told before rest d (deliver d d.keys s.cache).1 (λ a g. g) told
            (deliver-Told d.response d.keys s.cache);
    }

Reaches-Holds : (s t : Queries) → Reaches s t → Holds s → Holds t
Reaches-Holds _ _ (here s) h = h
Reaches-Holds _ _ (later s t u r e) h = Step-Holds t u e (Reaches-Holds s t r h)

-- The response that a query returned names what it asked for.
abbrev pub IsRight : Bytes → QueryPhase → Type 0
IsRight n (answered r) = Names n r
IsRight n entered = Unit
IsRight n allowed = Unit
IsRight n (publishing i) = Unit
IsRight n (waiting i) = Unit
IsRight n (failed e) = Unit

pub record AreServed (s : Queries) : Type 0 where
  pub right : All (λ c. IsRight (reqname c) c.phase) s.queries
  pub apart : Apart s.queries
  pub room : (i : ℕ) → length (s.cache.responses i) ≤ 1
  pub reached :
      (r : TableQueryResponse) (k : Bytes) (i : ℕ)
      → s.cache.siprequests k ≡ some i
      → (table_query_result r s.cache).responses i
        ≡ (if any (λ key. key =ᵇ k) (query_keys r) then r ∷ [] else [])

Fits-IsRight : (q : QueryCache) (n : Bytes) (p : QueryPhase) → Fits q n p → IsRight n p
Fits-IsRight q n (answered r) f = f
Fits-IsRight q n entered f = tt
Fits-IsRight q n allowed f = tt
Fits-IsRight q n (publishing i) f = tt
Fits-IsRight q n (waiting i) f = tt
Fits-IsRight q n (failed e) f = tt

-- Whatever the interleaving of queries and answers, from no query on: each query that returns an answer
-- returns one that has the name that was asked for among its keys; no two queries wait on one channel;
-- no channel, each of which has room for ten, ever holds more than one response, so that the handler of
-- an answer never blocks; and an answer leaves in the channel of a registered name one response if the
-- name is among its keys, and none otherwise.
pub Reaches-AreServed : (s : Queries) → Reaches new_queries s → AreServed s
Reaches-AreServed s r =
    let h = Reaches-Holds new_queries s r new_queries-Holds in
    let v = h.cache in
    record {
      right =
          All_mono (FitsQuery s.cache) _ s.queries
            (λ c f. Fits-IsRight s.cache (reqname c) c.phase f) h.fits;
      apart = h.apart;
      room = v.room;
      reached = λ r k i e.
          notify_all-responses r i k (query_keys r) s.cache e (v.empty k i e)
            (λ k' e'. v.own k' k i e' e);
    }
