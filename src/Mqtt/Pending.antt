-- ===== src/Mqtt/Pending.antt =====
-- The requests that wait for an answer.
use oakestra_net.Base.{
  ℕ, ◌≡◌, inl, inr, refl, sym, ap, ◌∙◌, All, Option, Bool, true, false, not, ◌&&◌, Bool-cases,
  Option-cases, none, some, List, [], ◌∷◌, ◌++◌, Bytes, ◌=ᵇ◌, =ᵇ_refl, =ᵇ_sound, subst, any, arith,
}
use oakestra_net.Mqtt.Queries.{
  Query, QueryPhase, entered, allowed, publishing, waiting, answered, failed, await, locked,
  query_step,
}
use oakestra_net.Mqtt.Queries.Filled.{notify_other}
use oakestra_net.Mqtt.{
  TableQueryResponse, QueryCache, start_query, notify, notify_all, table_query_result, query_keys,
}

notify_free :
    (r : TableQueryResponse) (key k : Bytes) (q : QueryCache)
    → (q.siprequests k ≡ none)
    → (notify r key q).siprequests k ≡ none
unfolding notify
notify_free r key k q h = elim (Option-cases (q.siprequests key)) [
  | inl e ↦ rw (e, notify) h
  | inr (i, e) ↦ rw (e, notify) (ground (arith, h))
]

notify_key :
    (r : TableQueryResponse) (key : Bytes) (q : QueryCache)
    → (notify r key q).siprequests key ≡ none
unfolding notify
notify_key r key q = elim (Option-cases (q.siprequests key)) [
  | inl e ↦ rw (e, notify) e
  | inr (i, e) ↦ rw (e, notify, =ᵇ_refl key) refl
]

notify_all_free :
    (r : TableQueryResponse) (keys : List Bytes) (k : Bytes) (q : QueryCache)
    → q.siprequests k ≡ none
    → (notify_all r keys q).siprequests k ≡ none
unfolding notify_all
notify_all_free r [] k q h = h
notify_all_free r (key ∷ keys) k q h =
    notify_all_free r keys k (notify r key q) (notify_free r key k q h)

notify_all_key :
    (r : TableQueryResponse) (keys : List Bytes) (k : Bytes) (q : QueryCache)
    → any (λ key. key =ᵇ k) keys ≡ true
    → (notify_all r keys q).siprequests k ≡ none
unfolding notify_all
notify_all_key r [] k q h = cc
notify_all_key r (key ∷ keys) k q h = elim (Bool-cases (key =ᵇ k)) [
  | inl t ↦
      let free : (notify r key q).siprequests k ≡ none =
        subst (λ x. (notify r key q).siprequests x ≡ none) (=ᵇ_sound key k t)
          (notify_key r key q) in
      notify_all_free r keys k (notify r key q) free
  | inr f ↦ notify_all_key r keys k (notify r key q) (rw (f) at h)
]

started :
    (q : QueryCache) (registered force : Bool) (sip sname : Bytes) (i : ℕ)
    → (start_query q registered force sip sname).1 ≡ some i
    → (start_query q registered force sip sname).0.siprequests (sip ++ sname) ≡ some i
unfolding start_query
started q registered force sip sname i h = elim (Bool-cases (registered && not force)) [
  | inl t ↦ let k : none ≡ some i = rw (t, start_query) at h in cc
  | inr f ↦ elim (Option-cases (q.siprequests (sip ++ sname))) [
    | inr (j, e) ↦ let k : none ≡ some i = rw (e) at (rw (f, start_query) at h) in cc
    | inl e ↦
        let k : some q.made ≡ some i = rw (e) at (rw (f, start_query) at h) in
        rw (f, start_query) (rw (e) (rw (=ᵇ_refl (sip ++ sname)) k))
  ]
]

refused :
    (q : QueryCache) (again forced : Bool) (sip sname : Bytes) (i : ℕ)
    → q.siprequests (sip ++ sname) ≡ some i
    → start_query q again forced sip sname ≡ (q, none)
unfolding start_query
refused q again forced sip sname i e = elim (Bool-cases (again && not forced)) [
  | inl t ↦ rw (t, start_query) refl
  | inr f ↦ rw (f, start_query) (rw (e) refl)
]

accepted :
    (q : QueryCache) (forced : Bool) (sip sname : Bytes)
    → q.siprequests (sip ++ sname) ≡ none
    → (j : ℕ) × ((start_query q false forced sip sname).1 ≡ some j)
unfolding start_query
accepted q forced sip sname e = (q.made, rw (e, start_query) refl)

-- What may happen to the requests: a step of any query, its timeout and its reading of an answer
-- included, and one round of the handler of an answer, for one of the answer's keys.
pub data Call : Type 0 where
  step_call : Bool → Bool → Query → QueryPhase → Call
  round_call : TableQueryResponse → Bytes → Call

abbrev pub perform : Call → QueryCache → QueryCache
perform (step_call registered expired c p) q = (query_step registered expired c p q).0
perform (round_call r key) q = notify r key q

abbrev pub performs : List Call → QueryCache → QueryCache
performs [] q = q
performs (c ∷ cs) q = performs cs (perform c q)

-- The call is no round for the name.
abbrev pub spares : Bytes → Call → Bool
spares name (step_call registered expired c p) = true
spares name (round_call r key) = not (name =ᵇ key)

start_keeps :
    (q : QueryCache) (forced : Bool) (sip sname k : Bytes) (i : ℕ)
    → q.siprequests k ≡ some i
    → (start_query q false forced sip sname).0.siprequests k ≡ some i
unfolding start_query
start_keeps q forced sip sname k i h = elim (Option-cases (q.siprequests (sip ++ sname))) [
  | inr (j, e) ↦ rw (e, start_query) h
  | inl e ↦ elim (Bool-cases (k =ᵇ sip ++ sname)) [
    | inr f ↦ rw (e, start_query) (rw (f) h)
    | inl t ↦
        let e' : q.siprequests k ≡ none =
          subst (λ x. q.siprequests x ≡ none) (sym (=ᵇ_sound k (sip ++ sname) t)) e in
        cc
  ]
]

locked_cache : (o : QueryCache × Option ℕ) → (locked o).0 ≡ o.0
locked_cache (q, none) = refl
locked_cache (q, some i) = refl

await_keeps :
    (expired : Bool) (i : ℕ) (rs : List TableQueryResponse) (q : QueryCache) (k : Bytes)
    → (await expired i rs q).0.siprequests k ≡ q.siprequests k
unfolding await
await_keeps true i rs q k = refl
await_keeps false i [] q k = refl
await_keeps false i (r ∷ rs) q k = refl

perform_keeps :
    (c : Call) (q : QueryCache) (k : Bytes) (i : ℕ)
    → spares k c ≡ true
    → q.siprequests k ≡ some i
    → (perform c q).siprequests k ≡ some i
unfolding query_step
perform_keeps (step_call registered expired c entered) q k i s h = h
perform_keeps (step_call registered expired c allowed) q k i s h =
    ap (λ x. x.siprequests k) (locked_cache (start_query q false c.force c.sip c.sname))
    ∙ start_keeps q c.force c.sip c.sname k i h
perform_keeps (step_call registered expired c (publishing j)) q k i s h = h
perform_keeps (step_call registered expired c (waiting j)) q k i s h =
    await_keeps expired j (q.responses j) q k ∙ h
perform_keeps (step_call registered expired c (answered r)) q k i s h = h
perform_keeps (step_call registered expired c (failed e)) q k i s h = h
perform_keeps (round_call r key) q k i s h = notify_other r i key k q (ground (arith, s)) h

performs_keeps :
    (cs : List Call) (q : QueryCache) (k : Bytes) (i : ℕ)
    → All (λ c. spares k c ≡ true) cs
    → q.siprequests k ≡ some i
    → (performs cs q).siprequests k ≡ some i
performs_keeps [] q k i s h = h
performs_keeps (c ∷ cs) q k i (s, ss) h =
    performs_keeps cs (perform c q) k i ss (perform_keeps c q k i s h)

-- Once a query has its channel, every further query of the same name returns the error, forced or not,
-- whatever steps this and other queries take in between, the timeout of this one included, and
-- whatever rounds the handler makes for other names. As soon as an answer has the name among its
-- keys, a query of the name without a registered interest gets a channel again.
pub start_query_waits :
    (q : QueryCache) (registered force : Bool) (sip sname : Bytes) (i : ℕ) (cs : List Call)
    (again forced : Bool) (r : TableQueryResponse)
    → (start_query q registered force sip sname).1 ≡ some i
    → All (λ c. spares (sip ++ sname) c ≡ true) cs
    → any (λ key. key =ᵇ sip ++ sname) (query_keys r) ≡ true
    → (start_query (performs cs (start_query q registered force sip sname).0) again forced sip sname
        ≡ (performs cs (start_query q registered force sip sname).0, none))
      × ((j : ℕ) × ((start_query
              (table_query_result r (performs cs (start_query q registered force sip sname).0))
              false
              forced
              sip
              sname).1
            ≡ some j))
start_query_waits q registered force sip sname i cs again forced r h spared k =
    let q' = performs cs (start_query q registered force sip sname).0 in
    let kept =
      performs_keeps cs (start_query q registered force sip sname).0 (sip ++ sname) i spared
        (started q registered force sip sname i h) in
    (
      refused q' again forced sip sname i kept,
      accepted (table_query_result r q') forced sip sname
          (notify_all_key r (query_keys r) (sip ++ sname) q' k),
    )
