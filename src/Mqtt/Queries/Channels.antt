-- ===== src/Mqtt/Queries/Channels.antt =====
-- The channels on which table queries wait, node-net-manager/mqtt/Tablequery.go.
use oakestra_net.Base.{
  ℕ, ◌≡◌, ◌≢◌, ◌<◌, inl, inr, ◌⊎◌, Bool, true, false, Bool-cases, Option-cases, Option, none, some,
  List, [], ◌∷◌, ◌++◌, All, All-append, All_replace, Bytes, arith, List-cases, not, ◌&&◌,
}
use oakestra_net.Mqtt.{QueryCache}
use oakestra_net.Mqtt.Queries.{
  QueryPhase, entered, allowed, publishing, waiting, answered, failed, Query, reqname, await,
  query_step,
}
use oakestra_net.Mqtt.Queries.Invariant.{Fits}
use oakestra_net.Mqtt.Queries.Steps.{query_step_allowed, query_step_refused}

-- The channel on which a query waits or is about to.
abbrev pub channel_of : QueryPhase → Option ℕ
channel_of entered = none
channel_of allowed = none
channel_of (publishing i) = some i
channel_of (waiting i) = some i
channel_of (answered r) = none
channel_of (failed e) = none

abbrev pub Differ : Query → Query → Type 0
Differ c d = (i : ℕ) → channel_of c.phase ≡ some i → channel_of d.phase ≢ some i

-- No two queries wait on one channel.
abbrev pub Apart : List Query → Type 0
Apart [] = Unit
Apart (c ∷ cs) = All (Differ c) cs × Apart cs

-- What the queries of a state need of the cache.
abbrev pub FitsQuery : QueryCache → Query → Type 0
FitsQuery q c = Fits q (reqname c) c.phase

channel_made :
    (q : QueryCache) (n : Bytes) (p : QueryPhase) (i : ℕ)
    → Fits q n p
    → channel_of p ≡ some i
    → i < q.made
channel_made q n entered i f h = cc
channel_made q n allowed i f h = cc
channel_made q n (publishing j) i f h =
    let e : j ≡ i = cc in let l : j < q.made = f.made in omega arith
channel_made q n (waiting j) i f h =
    let e : j ≡ i = cc in let l : j < q.made = f.made in omega arith
channel_made q n (answered r) i f h = cc
channel_made q n (failed e) i f h = cc

-- A query takes the channel that it had, or a new one.
abbrev pub Takes : ℕ → QueryPhase → QueryPhase → Type 0
Takes n p p' = (i : ℕ) → channel_of p' ≡ some i → (channel_of p ≡ some i) ⊎ (i ≡ n)

pub query_step-Takes :
    (registered expired : Bool) (c : Query) (p : QueryPhase) (q : QueryCache)
    → Takes q.made p (query_step registered expired c p q).1
unfolding query_step await
query_step-Takes registered expired c entered q i h =
    elim (Bool-cases (registered && not c.force)) [
      | inl b ↦ let h' : none ≡ some i = rw (b) at h in cc
      | inr b ↦ let h' : none ≡ some i = rw (b) at h in cc
    ]
query_step-Takes registered expired c allowed q i h =
    elim (Option-cases (q.siprequests (c.sip ++ c.sname))) [
      | inl e ↦
          let h' : some q.made ≡ some i = rw (query_step_allowed registered expired c q e) at h in
          inr (cc)
      | inr (j, e) ↦
          let h' : none ≡ some i = rw (query_step_refused registered expired c q j e) at h in cc
    ]
query_step-Takes registered expired c (publishing j) q i h = inl h
query_step-Takes registered true c (waiting j) q i h = cc
query_step-Takes registered false c (waiting j) q i h = elim (List-cases (q.responses j)) [
  | inl e ↦ inl (rw (e) at h)
  | inr (r, rs, e) ↦ let h' : none ≡ some i = rw (e) at h in cc
]
query_step-Takes registered expired c (answered r) q i h = inl h
query_step-Takes registered expired c (failed e) q i h = inl h

module _ (q : QueryCache) (c c' : Query) (t : Takes q.made c.phase c'.phase) where
  Differ-left : (d : Query) → FitsQuery q d → Differ c d → Differ c' d
  Differ-left d f n i h g = elim (t i h) [
    | inl e ↦ n i e g
    | inr e ↦ let l : i < q.made = channel_made q (reqname d) d.phase i f g in absurd (omega arith)
  ]

  Differ-right : (d : Query) → FitsQuery q d → Differ d c → Differ d c'
  Differ-right d f n i g h = elim (t i h) [
    | inl e ↦ n i g e
    | inr e ↦ let l : i < q.made = channel_made q (reqname d) d.phase i f g in absurd (omega arith)
  ]

  all_left : (ds : List Query) → All (FitsQuery q) ds → All (Differ c) ds → All (Differ c') ds
  all_left [] f n = tt
  all_left (d ∷ ds) f n = (Differ-left d f.0 n.0, all_left ds f.1 n.1)

  pub Apart-replace :
      (before rest : List Query)
      → All (FitsQuery q) (before ++ c ∷ rest)
      → Apart (before ++ c ∷ rest)
      → Apart (before ++ c' ∷ rest)
  Apart-replace [] rest f a = (all_left rest f.1 a.0, a.1)
  Apart-replace (b ∷ before) rest f a = (
    All_replace (Differ b) (Differ b) before rest c c' (λ d n. n) a.0 (Differ-right b f.0),
    Apart-replace before rest f.1 a.1,
  )

pub Apart-snoc :
    (cs : List Query) (c : Query) → channel_of c.phase ≡ none → Apart cs → Apart (cs ++ c ∷ [])
Apart-snoc [] c e a = (tt, tt)
Apart-snoc (d ∷ cs) c e a =
    (All-append (Differ d) cs (c ∷ []) a.0 (λ i h g. cc, tt), Apart-snoc cs c e a.1)
