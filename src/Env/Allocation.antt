-- ===== src/Env/Allocation.antt =====
-- The addresses in use of both versions: what taking one and giving one back do to them.
use mathlib.Core.List.{Nodup}
use mathlib.Core.List.Nodup
use mathlib.Core.List.Perm
use oakestra_net.Base.{
  ℕ, suc, ◌+◌, ◌≤◌, ◌<◌, ◌^◌, ◌≡◌, ◌≢◌, refl, ap, ◌∙◌, true, false, Option, none, some, List, ◌∷◌,
  arith, returns,
}
use oakestra_net.Net.{Ip, nil, addr, is_nil, to4, to16}
use oakestra_net.Network.{next_ipv4, next_ipv6}
use oakestra_net.Network.Value.{
  value, ip4, ip6, value-ip4, value-ip6, next_ipv4-ip4, next_ipv6-ip6, to4-ip4, to4-ip6, to16-ip6,
}
use oakestra_net.Env.{
  Environment, AddressPool, generate_address, generate_ipv6_address, free_container_address,
}
use oakestra_net.Env.Addresses.{IsPool, IsTaken, take_address-IsPool, give_back-IsPool, IsPool-test}

-- The addresses from a first one on.
abbrev pub at4 : ℕ → ℕ → Ip
at4 b i = ip4 (b + i)

abbrev pub at6 : ℕ → ℕ → Ip
at6 b i = ip6 (b + i)

-- The addresses in use, of both versions, and the free ones are accounted for in both pools.
pub record IsAllocated {V : Type 0} (b4 b6 : ℕ) (env : Environment V) (used4 used6 : List Ip)
    : Type 0 where
  pub v4 : IsPool (at4 b4) 62 env.pool used4
  pub v6 : IsPool (at6 b6) 255 env.pool_v6 used6

not_nil : (a : Ip) → a ≢ nil → is_nil a ≡ false
not_nil nil h = absurd (h refl)
not_nil (addr bs) h = refl

pub booked-IsAllocated :
    {V : Type 0} {b4 b6 : ℕ} (env : Environment V) (used4 used6 : List Ip)
    → IsAllocated b4 b6 env used4 used6
    → IsAllocated b4 b6 (record env { next_veth_number = env.next_veth_number + 1 }) used4 used6
booked-IsAllocated env used4 used6 v = record { v4 = v.v4; v6 = v.v6 }

-- The result of an allocation.
abbrev pub Given4 : {V : Type 0} → ℕ → ℕ → Environment V → List Ip → List Ip → Option Ip → Type 0
Given4 b4 b6 env used4 used6 none = IsAllocated b4 b6 env used4 used6
Given4 b4 b6 env used4 used6 (some ip) =
    IsAllocated b4 b6 env (ip ∷ used4) used6 × Nodup (ip ∷ used4)

abbrev pub Given6 : {V : Type 0} → ℕ → ℕ → Environment V → List Ip → List Ip → Option Ip → Type 0
Given6 b4 b6 env used4 used6 none = IsAllocated b4 b6 env used4 used6
Given6 b4 b6 env used4 used6 (some ip) =
    IsAllocated b4 b6 env used4 (ip ∷ used6) × Nodup (ip ∷ used6)

module _ (b4 b6 : ℕ) (room4 : b4 + 62 < 2 ^ 32) (global6 : 2 ^ 120 ≤ b6)
    (room6 : b6 + 255 < 2 ^ 128) where
  distinct4 : (i j : ℕ) → i < j → j < 62 → at4 b4 i ≢ at4 b4 j
  distinct4 i j h k e =
      omega (arith, ap value e, value-ip4 (b4 + i) (omega arith), value-ip4 (b4 + j) (omega arith))

  distinct6 : (i j : ℕ) → i < j → j < 255 → at6 b6 i ≢ at6 b6 j
  distinct6 i j h k e =
      omega (arith, ap value e, value-ip6 (b6 + i) (omega arith), value-ip6 (b6 + j) (omega arith))

  step4 : (i : ℕ) → suc i < 62 → next_ipv4 (at4 b4 i) 1 ≡ returns (at4 b4 (suc i))
  step4 i h = next_ipv4-ip4 (b4 + i) (omega arith) ∙ ap (λ n. returns (ip4 n)) (omega arith)

  step6 : (i : ℕ) → suc i < 255 → next_ipv6 (at6 b6 i) 1 ≡ returns (at6 b6 (suc i))
  step6 i h = next_ipv6-ip6 (b6 + i) (omega arith) ∙ ap (λ n. returns (ip6 n)) (omega arith)

  pub free4 :
      {V : Type 0} (env : Environment V) (ip : Ip) (used4 used6 : List Ip)
      → IsAllocated b4 b6 env (ip ∷ used4) used6
      → IsAllocated b4 b6 (free_container_address env ip) used4 used6
  unfolding free_container_address
  free4 env ip used4 used6 v =
      let is4 : is_nil (to4 ip) ≡ false =
        IsPool-test (at4 b4) 62 next_ipv4 distinct4 step4 (λ a. is_nil (to4 a)) false
          (λ i h. not_nil _ (to4-ip4 (b4 + i))) env.pool ip used4 v.v4 in
      rw (is4) (record {
        v4 =
            give_back-IsPool (at4 b4) 62 next_ipv4 distinct4 step4 env.pool (ip ∷ used4) used4 ip
              v.v4 (Perm.refl _);
        v6 = v.v6;
      })

  pub free6 :
      {V : Type 0} (env : Environment V) (ip : Ip) (used4 used6 : List Ip)
      → IsAllocated b4 b6 env used4 (ip ∷ used6)
      → IsAllocated b4 b6 (free_container_address env ip) used4 used6
  unfolding free_container_address
  free6 env ip used4 used6 v =
      let is6 : is_nil (to4 ip) ≡ true =
        IsPool-test (at6 b6) 255 next_ipv6 distinct6 step6 (λ a. is_nil (to4 a)) true
          (λ i h. ap is_nil (to4-ip6 (b6 + i) (omega arith) (omega arith))) env.pool_v6 ip used6
          v.v6 in
      let long : is_nil (to16 ip) ≡ false =
        IsPool-test (at6 b6) 255 next_ipv6 distinct6 step6 (λ a. is_nil (to16 a)) false
          (λ i h. ap is_nil (to16-ip6 (b6 + i))) env.pool_v6 ip used6 v.v6 in
      rw (is6, long)
        (record {
          v4 = v.v4;
          v6 =
              give_back-IsPool (at6 b6) 255 next_ipv6 distinct6 step6 env.pool_v6 (ip ∷ used6) used6
                ip v.v6 (Perm.refl _);
        })

  pub generate4 :
      {V : Type 0} (env : Environment V) (used4 used6 : List Ip)
      → IsAllocated b4 b6 env used4 used6
      → (env' : Environment V) × (o : Option Ip) × (generate_address env ≡ returns (env', o))
        × Given4 b4 b6 env' used4 used6 o
  unfolding generate_address
  generate4 env used4 used6 v =
      let (p, o, e, t) =
        take_address-IsPool (at4 b4) 62 next_ipv4 distinct4 step4 env.pool used4 v.v4 in
      (record env { pool = p }, o, rw (e) refl, given4 p o t)
    where
      given4 :
          (p : AddressPool) (o : Option Ip)
          → IsTaken (at4 b4) 62 env.pool used4 p o
          → Given4 b4 b6 (record env { pool = p }) used4 used6 o
      given4 p none (same, empty, full) = rw (same) v
      given4 p (some ip) (k, d) =
          (record { v4 = k; v6 = v.v6 }, Nodup.of_append_left p.addr_cache d)

  pub generate6 :
      {V : Type 0} (env : Environment V) (used4 used6 : List Ip)
      → IsAllocated b4 b6 env used4 used6
      → (env' : Environment V) × (o : Option Ip) × (generate_ipv6_address env ≡ returns (env', o))
        × Given6 b4 b6 env' used4 used6 o
  unfolding generate_ipv6_address
  generate6 env used4 used6 v =
      let (p, o, e, t) =
        take_address-IsPool (at6 b6) 255 next_ipv6 distinct6 step6 env.pool_v6 used6 v.v6 in
      (record env { pool_v6 = p }, o, rw (e) refl, given6 p o t)
    where
      given6 :
          (p : AddressPool) (o : Option Ip)
          → IsTaken (at6 b6) 255 env.pool_v6 used6 p o
          → Given6 b4 b6 (record env { pool_v6 = p }) used4 used6 o
      given6 p none (same, empty, full) = rw (same) v
      given6 p (some ip) (k, d) =
          (record { v4 = v.v4; v6 = k }, Nodup.of_append_left p.addr_cache d)
