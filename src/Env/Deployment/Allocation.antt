-- ===== src/Env/Deployment/Allocation.antt =====
-- Which addresses are in use after a container's network was set up, or the set-up failed.
use mathlib.Core.List.{Nodup}
use oakestra_net.Base.{
  ℕ, ◌+◌, ◌≤◌, ◌<◌, ◌^◌, ◌≡◌, ◌⊎◌, true, false, inl, inr, refl, Bool-cases, Option, none, some,
  List, ◌∷◌, Bytes, Outcome, returns, panic, ◌>>=◌,
}
use oakestra_net.Base.Int.{ℤ}
use oakestra_net.Net.{Ip}
use oakestra_net.Env.{Environment, generate_address, generate_ipv6_address, free_container_address}
use oakestra_net.Env.Deployment.{
  System, deploy_network, allocate, configure, record_service, undo, try_all, link_steps,
  rule_steps, attach, lacks_pair,
}
use oakestra_net.Env.Allocation.{
  IsAllocated, booked-IsAllocated, Given4, Given6, free4, free6, generate4, generate6,
}

-- What a deployment leaves: after an error the same addresses are in use as before; otherwise two
-- more, which no container had.
unfoldable pub Leaves :
    {W V : Type 0} → ℕ → ℕ → List Ip → List Ip → W × Environment V × Option (Ip × Ip) → Type 0
Leaves b4 b6 used4 used6 (w, env, none) = IsAllocated b4 b6 env used4 used6
Leaves b4 b6 used4 used6 (w, env, some (a, b)) =
    IsAllocated b4 b6 env (a ∷ used4) (b ∷ used6) × Nodup (a ∷ used4) × Nodup (b ∷ used6)

-- The call returns, without a panic, and leaves that.
abbrev pub LeavesAll :
    {W V : Type 0}
    → ℕ
    → ℕ
    → List Ip
    → List Ip
    → Outcome (W × Environment V × Option (Ip × Ip))
    → Type 0
LeavesAll b4 b6 used4 used6 panic = ⊥
LeavesAll b4 b6 used4 used6 (returns r) = Leaves b4 b6 used4 used6 r

module _ (b4 b6 : ℕ) (room4 : b4 + 62 < 2 ^ 32) (global6 : 2 ^ 120 ≤ b6)
    (room6 : b6 + 255 < 2 ^ 128) where
  allocate-Leaves :
      {W V : Type 0} (w : W) (env : Environment V) (used4 used6 : List Ip)
      → IsAllocated b4 b6 env used4 used6
      → (env' : Environment V) × (o : Option (Ip × Ip)) × (allocate env ≡ returns (env', o))
        × Leaves b4 b6 used4 used6 (w, env', o)
  unfolding allocate Leaves
  allocate-Leaves {V = V} w env used4 used6 v =
      let (env1, o, e, k) = generate4 b4 b6 room4 global6 room6 env used4 used6 v in
      with4 env1 o e k
    where
      with6 :
          (env1 : Environment V) (a : Ip)
          → generate_address env ≡ returns (env1, some a)
          → Nodup (a ∷ used4)
          → (env2 : Environment V) (o : Option Ip) → generate_ipv6_address env1 ≡ returns (env2, o)
          → Given6 b4 b6 env2 (a ∷ used4) used6 o
          → (env' : Environment V) × (p : Option (Ip × Ip)) × (allocate env ≡ returns (env', p))
            × Leaves b4 b6 used4 used6 (w, env', p)
      with6 env1 a e d env2 none e' k = (
        free_container_address env2 a,
        none,
        rw (e) (rw (e') refl),
        free4 b4 b6 room4 global6 room6 env2 a used4 used6 k,
      )
      with6 env1 a e d env2 (some b) e' (k, d') =
          (env2, some (a, b), rw (e) (rw (e') refl), (k, d, d'))

      with4 :
          (env1 : Environment V) (o : Option Ip)
          → generate_address env ≡ returns (env1, o)
          → Given4 b4 b6 env1 used4 used6 o
          → (env' : Environment V) × (p : Option (Ip × Ip)) × (allocate env ≡ returns (env', p))
            × Leaves b4 b6 used4 used6 (w, env', p)
      with4 env1 none e k = (env1, none, rw (e) refl, k)
      with4 env1 (some a) e (k, d) =
          let (env2, o, e', k') = generate6 b4 b6 room4 global6 room6 env1 (a ∷ used4) used6 k in
          with6 env1 a e d env2 o e' k'

  module _ (y : System) where
    undo-Leaves :
        (w : y.World) (env : Environment y.Veth) (veth : y.Veth) (a b : Ip) (used4 used6 : List Ip)
        → IsAllocated b4 b6 env (a ∷ used4) (b ∷ used6)
        → Leaves b4 b6 used4 used6 (undo y w env veth a b)
    unfolding Leaves
    undo-Leaves w env veth a b used4 used6 v =
        free6 b4 b6 room4 global6 room6 (free_container_address env a) b used4 used6
          (free4 b4 b6 room4 global6 room6 env a used4 (b ∷ used6) v)

    recorded-Leaves :
        (w : y.World) (env : Environment y.Veth) (sname : Bytes) (instance' : ℤ) (ports : Bytes)
        (veth : y.Veth) (a b : Ip) (used4 used6 : List Ip)
        → IsAllocated b4 b6 env (a ∷ used4) (b ∷ used6)
        → Nodup (a ∷ used4)
        → Nodup (b ∷ used6)
        → Leaves b4 b6 used4 used6
            (w, record_service y env sname instance' ports veth a b, some (a, b))
    unfolding Leaves
    recorded-Leaves w env sname instance' ports veth a b used4 used6 v d4 d6 =
        (record { v4 = v.v4; v6 = v.v6 }, d4, d6)

    configure-Leaves :
        (w : y.World) (env : Environment y.Veth) (pid : ℤ) (sname : Bytes) (instance' : ℤ)
        (ports : Bytes) (veth : y.Veth) (a b : Ip) (used4 used6 : List Ip)
        → IsAllocated b4 b6 env (a ∷ used4) (b ∷ used6)
        → Nodup (a ∷ used4)
        → Nodup (b ∷ used6)
        → Leaves b4 b6 used4 used6 (configure y w env pid sname instance' ports veth a b)
    unfolding configure
    configure-Leaves w env pid sname instance' ports veth a b used4 used6 v d4 d6 =
        let r = try_all (link_steps y pid veth a b) w in
        elim (Bool-cases r.1) [
          | inl e ↦ rw (e, configure) (undo-Leaves r.0 env veth a b used4 used6 v)
          | inr e ↦ elim (Bool-cases (try_all (rule_steps y ports veth a b) r.0).1) [
            | inl e' ↦
                rw (e, configure)
                  (rw (e') (
                    undo-Leaves _ _ veth a b used4 used6
                      (booked-IsAllocated env (a ∷ used4) (b ∷ used6) v)))
            | inr e' ↦
                rw (e, configure)
                  (rw (e') (
                    recorded-Leaves _ _ sname instance' ports veth a b used4 used6
                      (booked-IsAllocated env (a ∷ used4) (b ∷ used6) v) d4 d6))
          ]
        ]

    pub deploy_network-LeavesAll :
        (w : y.World) (env : Environment y.Veth) (pid : ℤ) (sname : Bytes) (instance' : ℤ)
        (ports : Bytes) (used4 used6 : List Ip)
        → lacks_pair y w env sname ≡ false
        → IsAllocated b4 b6 env used4 used6
        → LeavesAll b4 b6 used4 used6 (deploy_network y w env pid sname instance' ports)
    unfolding deploy_network Leaves
    deploy_network-LeavesAll w env pid sname instance' ports used4 used6 e v =
        let (w1, veth, failed) = y.create_veths_pair w env.next_veth_number sname in
        let r = attach y pid veth w1 in
        elim (Bool-cases r.1) [
          | inl e' ↦ rw (e, deploy_network) (rw (e') v)
          | inr e' ↦
              rw (e, deploy_network)
                (rw (e') (allocated r.0 veth (allocate-Leaves r.0 env used4 used6 v)))
        ]
      where
        allocated :
            (w' : y.World) (veth : y.Veth)
            → ((env' : Environment y.Veth) × (o : Option (Ip × Ip)) × (allocate env
                  ≡ returns (env', o))
                × Leaves b4 b6 used4 used6 (w', env', o))
            → LeavesAll b4 b6 used4 used6 (
                allocate env >>= λ (env', addresses). elim addresses [
                  | none ↦ returns (y.link_del veth w', env', none)
                  | some (a, b) ↦ returns (configure y w' env' pid sname instance' ports veth a b)
                ])
        allocated w' veth (env', none, e, k) = rw (e) k
        allocated w' veth (env', some (a, b), e, (k, d4, d6)) =
            rw (e) (configure-Leaves w' env' pid sname instance' ports veth a b used4 used6 k d4 d6)

    -- Two sequences of addresses are given: for IPv4 from `b4` on, with 62 of them below 2 ^ 32, and
    -- for IPv6 from `b6` on, with 255 of them between 2 ^ 120 and 2 ^ 128. In an environment whose pools
    -- account for the addresses in use, `DeployNetwork` panics exactly if the veth pair cannot be made. If
    -- it returns an error, the same addresses are in use as before, so that those it took are given back.
    -- If it returns two addresses, they are in use as well, and no container had either of them.
    pub deploy_network-Leaves :
        (w : y.World) (env : Environment y.Veth) (pid : ℤ) (sname : Bytes) (instance' : ℤ)
        (ports : Bytes) (used4 used6 : List Ip)
        → IsAllocated b4 b6 env used4 used6
        → ((lacks_pair y w env sname ≡ true)
            × (deploy_network y w env pid sname instance' ports ≡ panic))
          ⊎ ((lacks_pair y w env sname ≡ false)
              × LeavesAll b4 b6 used4 used6 (deploy_network y w env pid sname instance' ports))
    unfolding deploy_network
    deploy_network-Leaves w env pid sname instance' ports used4 used6 v =
        elim (Bool-cases (lacks_pair y w env sname)) [
          | inl e ↦ inl (e, rw (e, deploy_network) refl)
          | inr e ↦
              inr (e, deploy_network-LeavesAll w env pid sname instance' ports used4 used6 e v)
        ]
