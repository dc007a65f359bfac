-- ===== src/Mqtt/Queries/Invariant.antt =====
-- What holds of the cache of pending queries, node-net-manager/mqtt/Tablequery.go, whatever the
-- interleaving.
use oakestra_net.Base.{ℕ, ◌≡◌, ◌≤◌, ◌<◌, true, some, [], All, any, Bytes, ◌=ᵇ◌, length}
use oakestra_net.Mqtt.{TableQueryResponse, QueryCache, query_keys}
use oakestra_net.Mqtt.Queries.{QueryPhase, entered, allowed, publishing, waiting, answered, failed}

-- A name is among the keys of a response.
abbrev pub Names : Bytes → TableQueryResponse → Type 0
Names n r = any (λ key. key =ᵇ n) (query_keys r) ≡ true

-- A registered name has a channel of its own, which is empty.
pub record IsValid (q : QueryCache) : Type 0 where
  pub made : (k : Bytes) (i : ℕ) → q.siprequests k ≡ some i → i < q.made
  pub empty : (k : Bytes) (i : ℕ) → q.siprequests k ≡ some i → q.responses i ≡ []
  pub own : (k k' : Bytes) (i : ℕ) → q.siprequests k ≡ some i → q.siprequests k' ≡ some i → k ≡ k'
  pub room : (i : ℕ) → length (q.responses i) ≤ 1

-- A channel on which a query of a name waits.
pub record Serves (q : QueryCache) (n : Bytes) (i : ℕ) : Type 0 where
  pub made : i < q.made
  pub only : (k : Bytes) → q.siprequests k ≡ some i → k ≡ n
  pub said : All (Names n) (q.responses i)

abbrev pub Fits : QueryCache → Bytes → QueryPhase → Type 0
Fits q n entered = Unit
Fits q n allowed = Unit
Fits q n (publishing i) = Serves q n i
Fits q n (waiting i) = Serves q n i
Fits q n (answered r) = Names n r
Fits q n (failed e) = Unit

-- What every step of another goroutine does to a cache.
pub record Extends (q q' : QueryCache) : Type 0 where
  pub valid : IsValid q'
  pub served : (n : Bytes) (i : ℕ) → Serves q n i → Serves q' n i

pub Extends-refl : (q : QueryCache) → IsValid q → Extends q q
Extends-refl q v = record { valid = v; served = λ n i s. s }

pub Fits-Extends :
    (q q' : QueryCache) (n : Bytes) (p : QueryPhase) → Extends q q' → Fits q n p → Fits q' n p
Fits-Extends q q' n entered e f = f
Fits-Extends q q' n allowed e f = f
Fits-Extends q q' n (publishing i) e f = e.served n i f
Fits-Extends q q' n (waiting i) e f = e.served n i f
Fits-Extends q q' n (answered r) e f = f
Fits-Extends q q' n (failed x) e f = f
