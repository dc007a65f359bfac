-- ===== src/Env/Deployed/Kept.antt =====
-- What leaves the deployed services of node-net-manager/env/EnvironmentManager.go as they are.
use oakestra_net.Base.{
  ◌≡◌, refl, sym, ap, ◌∙◌, inl, inr, not, Bool-cases, Option, none, some, List, [], ◌∷◌, Bytes,
  ◌=ᵇ◌, =ᵇ_sound, any, filter_idem, filter_comm, Outcome, returns, panic, ◌>>=◌,
}
use oakestra_net.Net.{Ip}
use oakestra_net.Env.{
  AddressPool, Environment, Service, generate_address, generate_ipv6_address,
  free_container_address, take_address,
}
use oakestra_net.Env.Deployment.{get_service, delete_service, allocate}
use oakestra_net.Env.Deployment.Detachment.{free-services}
use oakestra_net.Network.{next_ipv4, next_ipv6}
use oakestra_net.Env.Deployed.{current, is_named, is_service_deployed}

pub delete-current :
    {V : Type 0} (k : Bytes) (m : List (Bytes × Service V))
    → current (delete_service k m) ≡ delete_service k (current m)
delete-current k [] = refl
delete-current k ((j, s) ∷ m) = elim (Bool-cases (j =ᵇ k)) [
  | inl e ↦
      let same : j ≡ k = =ᵇ_sound j k e in
      rw (e) (
        delete-current k m
        ∙ sym (filter_idem (λ (x, t). not (x =ᵇ k)) (current m))
        ∙ ap (λ x. delete_service k (delete_service x (current m))) (sym same))
  | inr e ↦ rw (e) (
      ap (λ r. (j, s) ∷ delete_service j r) (delete-current k m)
      ∙ ap (λ r. (j, s) ∷ r)
          (filter_comm (λ (x, t). not (x =ᵇ j)) (λ (x, t). not (x =ᵇ k)) (current m)))
]

pub delete_absent :
    {V : Type 0} (k : Bytes) (m : List (Bytes × Service V))
    → get_service k m ≡ none
    → delete_service k m ≡ m
delete_absent k [] h = refl
delete_absent k ((j, s) ∷ m) h = elim (Bool-cases (j =ᵇ k)) [
  | inl e ↦ let h' : some s ≡ none = rw (e, get_service) at h in cc
  | inr e ↦ rw (e) (ap (λ r. (j, s) ∷ r) (delete_absent k m (rw (e, get_service) at h)))
]

-- The services that are deployed stay the same.
abbrev pub SameServices : {V : Type 0} → Environment V → Environment V → Type 0
SameServices env env' = env'.deployed_services ≡ env.deployed_services

abbrev pub Allocates : {V A : Type 0} → Environment V → Outcome (Environment V × A) → Type 0
Allocates env (returns (env', a)) = SameServices env env'
Allocates env panic = Unit

generate_address-Allocates :
    {V : Type 0} (env : Environment V) → Allocates env (generate_address env)
unfolding generate_address
generate_address-Allocates env = pooled (take_address 62 next_ipv4 env.pool)
  where
    pooled :
        (o : Outcome (AddressPool × Option Ip))
        → Allocates env (o >>= λ (p, ip). returns (record env { pool = p }, ip))
    pooled (returns (p, ip)) = refl
    pooled panic = tt

generate_ipv6_address-Allocates :
    {V : Type 0} (env : Environment V) → Allocates env (generate_ipv6_address env)
unfolding generate_ipv6_address
generate_ipv6_address-Allocates env = pooled (take_address 255 next_ipv6 env.pool_v6)
  where
    pooled :
        (o : Outcome (AddressPool × Option Ip))
        → Allocates env (o >>= λ (p, ip). returns (record env { pool_v6 = p }, ip))
    pooled (returns (p, ip)) = refl
    pooled panic = tt

pub allocate-Allocates : {V : Type 0} (env : Environment V) → Allocates env (allocate env)
unfolding allocate
allocate-Allocates {V} env = first (generate_address env) (generate_address-Allocates env)
  where
    both :
        (env1 : Environment V) (a : Ip) (o : Outcome (Environment V × Option Ip))
        → SameServices env env1
        → Allocates env1 o
        → Allocates {A = Option (Ip × Ip)} env (
            o >>= λ (env2, ipv6). elim ipv6 [
              | none ↦ returns (free_container_address env2 a, none)
              | some b ↦ returns (env2, some (a, b))
            ])
    both env1 a panic e f = tt
    both env1 a (returns (env2, none)) e f = free-services env2 a ∙ f ∙ e
    both env1 a (returns (env2, some b)) e f = f ∙ e

    first :
        (o : Outcome (Environment V × Option Ip))
        → Allocates env o
        → Allocates {A = Option (Ip × Ip)} env (
            o >>= λ (env1, ip). elim ip [
              | none ↦ returns (env1, none)
              | some a ↦ generate_ipv6_address env1 >>= λ (env2, ipv6). elim ipv6 [
                | none ↦ returns (free_container_address env2 a, none)
                | some b ↦ returns (env2, some (a, b))
              ]
            ])
    first panic f = tt
    first (returns (env1, none)) f = f
    first (returns (env1, some a)) f =
        both env1 a (generate_ipv6_address env1) f (generate_ipv6_address-Allocates env1)

pub same_services :
    {V : Type 0} (env env' : Environment V)
    → SameServices env env'
    → (job : Bytes) → is_service_deployed job env' ≡ is_service_deployed job env
same_services env env' e job = ap (λ m. any (is_named job) (current m)) e
