-- ===== src/Mqtt/Queries/Steps.antt =====
-- A step of a query, or of the handler of an answer, keeps the cache valid,
-- node-net-manager/mqtt/Tablequery.go.
use oakestra_net.Base.{
  ℕ, ◌≡◌, inl, inr, refl, ap, subst, Bool, true, false, Bool-cases, Option-cases, none, some, [],
  ◌∷◌, ◌++◌, All, Bytes, arith, not, ◌&&◌, List-cases,
}
use oakestra_net.Mqtt.{TableQueryResponse, QueryCache, start_query, notify}
use oakestra_net.Mqtt.Queries.{
  QueryPhase, entered, allowed, publishing, waiting, answered, failed, Query, reqname, await,
  query_step, locked, new_query_cache, already_happening,
}
use oakestra_net.Mqtt.Queries.Invariant.{Names, IsValid, Fits, Extends, Extends-refl}
use oakestra_net.Mqtt.Queries.Changes.{
  opened, filled-Extends, opened-Extends, opened-Serves, taken-Extends,
}

pub new_query_cache-IsValid : IsValid new_query_cache
new_query_cache-IsValid = record {
  made = λ k i h. cc;
  empty = λ k i h. refl;
  own = λ k k' i h h'. cc;
  room = λ i. omega arith;
}

pub notify-Extends :
    (r : TableQueryResponse) (key : Bytes) (q : QueryCache)
    → IsValid q
    → Names key r
    → Extends q (notify r key q)
unfolding notify
notify-Extends r key q v n = elim (Option-cases (q.siprequests key)) [
  | inl e ↦ rw (e, notify) (Extends-refl q v)
  | inr (i, e) ↦ rw (e, notify) (filled-Extends q v r key i e n)
]

pub query_step_allowed :
    (registered expired : Bool) (c : Query) (q : QueryCache)
    → q.siprequests (reqname c) ≡ none
    → query_step registered expired c allowed q ≡ (opened q (reqname c), publishing q.made, [])
unfolding query_step
query_step_allowed registered expired c q e = ap locked opens
  where
    opens : start_query q false c.force c.sip c.sname ≡ (opened q (reqname c), some q.made)
    opens = unfold start_query in rw (e, start_query) refl

pub query_step_refused :
    (registered expired : Bool) (c : Query) (q : QueryCache) (i : ℕ)
    → q.siprequests (reqname c) ≡ some i
    → query_step registered expired c allowed q ≡ (q, failed already_happening, [])
unfolding query_step
query_step_refused registered expired c q i e = ap locked refuses
  where
    refuses : start_query q false c.force c.sip c.sname ≡ (q, none)
    refuses = unfold start_query in rw (e, start_query) refl

-- A step of a query keeps the cache valid, and leaves the query with what its phase needs.
pub query_step-Fits :
    (registered expired : Bool) (c : Query) (p : QueryPhase) (q : QueryCache)
    → IsValid q
    → Fits q (reqname c) p
    → Extends q (query_step registered expired c p q).0
      × Fits
          (query_step registered expired c p q).0
          (reqname c)
          (query_step registered expired c p q).1
unfolding query_step await
query_step-Fits registered expired c entered q v f = (
  Extends-refl q v,
  elim (Bool-cases (registered && not c.force)) [ inl b ↦ rw (b) tt | inr b ↦ rw (b) tt ],
)
query_step-Fits registered expired c allowed q v f =
    elim (Option-cases (q.siprequests (c.sip ++ c.sname))) [
      | inl e ↦
          rw (query_step_allowed registered expired c q e)
            (opened-Extends q v (reqname c), opened-Serves q v (reqname c))
      | inr (i, e) ↦ rw (query_step_refused registered expired c q i e) (Extends-refl q v, tt)
    ]
query_step-Fits registered expired c (publishing i) q v f = (Extends-refl q v, f)
query_step-Fits registered true c (waiting i) q v f = (Extends-refl q v, tt)
query_step-Fits registered false c (waiting i) q v f = elim (List-cases (q.responses i)) [
  | inl e ↦ rw (e) (Extends-refl q v, f)
  | inr (r, rs, e) ↦
      let a : All (Names (reqname c)) (r ∷ rs) = subst (λ x. All (Names (reqname c)) x) e f.said in
      rw (e) (taken-Extends q v i r rs e, a.0)
]
query_step-Fits registered expired c (answered r) q v f = (Extends-refl q v, f)
query_step-Fits registered expired c (failed x) q v f = (Extends-refl q v, tt)
