-- ===== src/Env/Unikernel/Allocation.antt =====
-- Which addresses are in use after a unikernel's network was set up, or the set-up failed.
use mathlib.Core.List.{Nodup}
use oakestra_net.Base.{
  ℕ, ◌+◌, ◌≤◌, ◌<◌, ◌^◌, ◌≡◌, ◌⊎◌, refl, true, false, inl, inr, Bool-cases, Option-cases, Option,
  none, some, List, ◌∷◌, Bytes, Outcome, returns, panic,
}
use oakestra_net.Base.Int.{ℤ}
use oakestra_net.Net.{Ip}
use oakestra_net.Env.{Environment}
use oakestra_net.Env.Allocation.{IsAllocated, Given4, free4, generate4, booked-IsAllocated}
use oakestra_net.Env.Deployment.{System, try_all, lacks_pair}
use oakestra_net.Env.Unikernel.{
  NamedNamespaces, undo_unikernel, record_unikernel, namespace_steps, unikernel_rules,
  configure_unikernel, join_namespace, deploy_unikernel,
}

-- What a deployment leaves: after an error the same addresses are in use as before; otherwise one
-- more, which nothing had.
unfoldable pub LeavesOne :
    {W V : Type 0} → ℕ → ℕ → List Ip → List Ip → W × Environment V × Option Ip → Type 0
LeavesOne b4 b6 used4 used6 (w, env, none) = IsAllocated b4 b6 env used4 used6
LeavesOne b4 b6 used4 used6 (w, env, some a) =
    IsAllocated b4 b6 env (a ∷ used4) used6 × Nodup (a ∷ used4)

-- The call returns, without a panic, and leaves that.
unfoldable pub LeavesAllOne :
    {W V : Type 0} → ℕ → ℕ → List Ip → List Ip → Outcome (W × Environment V × Option Ip) → Type 0
LeavesAllOne b4 b6 used4 used6 panic = ⊥
LeavesAllOne b4 b6 used4 used6 (returns r) = LeavesOne b4 b6 used4 used6 r

module _ (b4 b6 : ℕ) (room4 : b4 + 62 < 2 ^ 32) (global6 : 2 ^ 120 ≤ b6)
    (room6 : b6 + 255 < 2 ^ 128) (y : System) (n : NamedNamespaces y) where
  undo_unikernel-LeavesOne :
      (w : y.World) (env : Environment y.Veth) (sname : Bytes) (ns : n.Ns) (veth : y.Veth) (a : Ip)
      (used4 used6 : List Ip)
      → IsAllocated b4 b6 env (a ∷ used4) used6
      → LeavesOne b4 b6 used4 used6 (undo_unikernel y n w env sname ns veth a)
  unfolding LeavesOne
  undo_unikernel-LeavesOne w env sname ns veth a used4 used6 v =
      free4 b4 b6 room4 global6 room6 env a used4 used6 v

  record_unikernel-LeavesOne :
      (w : y.World) (env : Environment y.Veth) (name sname ports : Bytes) (veth : y.Veth) (a : Ip)
      (used4 used6 : List Ip)
      → IsAllocated b4 b6 env (a ∷ used4) used6
      → Nodup (a ∷ used4)
      → LeavesOne b4 b6 used4 used6 (w, record_unikernel y n env name sname ports veth a, some a)
  unfolding LeavesOne
  record_unikernel-LeavesOne w env name sname ports veth a used4 used6 v d =
      (record { v4 = v.v4; v6 = v.v6 }, d)

  configure_unikernel-LeavesOne :
      (w : y.World) (env : Environment y.Veth) (name sname ports : Bytes) (ns : n.Ns)
      (veth : y.Veth) (a : Ip) (used4 used6 : List Ip)
      → IsAllocated b4 b6 env (a ∷ used4) used6
      → Nodup (a ∷ used4)
      → LeavesOne b4 b6 used4 used6 (configure_unikernel y n w env name sname ports ns veth a)
  unfolding configure_unikernel
  configure_unikernel-LeavesOne w env name sname ports ns veth a used4 used6 v d =
      let r = try_all (namespace_steps y n sname veth a) w in
      let booked = booked-IsAllocated env (a ∷ used4) used6 v in
      elim (Bool-cases r.1) [
        | inl e ↦
            rw (e, configure_unikernel)
              (undo_unikernel-LeavesOne r.0 env sname ns veth a used4 used6 v)
        | inr e ↦ elim (Bool-cases (try_all (unikernel_rules y n ports veth a) r.0).1) [
          | inl e' ↦
              rw (e, configure_unikernel)
                (rw (e') (undo_unikernel-LeavesOne _ _ sname ns veth a used4 used6 booked))
          | inr e' ↦
              rw (e, configure_unikernel)
                (rw (e')
                  (record_unikernel-LeavesOne _ _ name sname ports veth a used4 used6 booked d))
        ]
      ]

  join_namespace-LeavesAllOne :
      (w : y.World) (env : Environment y.Veth) (name sname ports : Bytes) (ns : n.Ns)
      (veth : y.Veth) (peer : y.Peer) (used4 used6 : List Ip)
      → IsAllocated b4 b6 env used4 used6
      → LeavesAllOne b4 b6 used4 used6 (join_namespace y n w env name sname ports ns veth peer)
  unfolding join_namespace LeavesAllOne LeavesOne
  join_namespace-LeavesAllOne w env name sname ports ns veth peer used4 used6 v =
      let (w1, failed) = n.link_set_ns_fd peer ns w in
      elim (Bool-cases failed) [
        | inl e ↦ rw (e, join_namespace) v
        | inr e ↦
            let (env', o, g, k) = generate4 b4 b6 room4 global6 room6 env used4 used6 v in
            rw (e, join_namespace) (rw (g) (given w1 env' o k))
      ]
    where
      given :
          (w1 : y.World) (env' : Environment y.Veth) (o : Option Ip)
          → Given4 b4 b6 env' used4 used6 o
          → LeavesAllOne b4 b6 used4 used6 (elim o [
            | none ↦ returns (n.delete_named sname (n.close_ns ns (y.link_del veth w1)), env', none)
            | some ip ↦ returns (configure_unikernel y n w1 env' name sname ports ns veth ip)
          ])
      given w1 env' none k = k
      given w1 env' (some ip) (k, d) =
          configure_unikernel-LeavesOne w1 env' name sname ports ns veth ip used4 used6 k d

  -- With sequences of addresses as for containers: in an environment whose pools account for the
  -- addresses in use, `DeployNetwork` of a unikernel panics exactly if the veth pair cannot be made. If it
  -- returns an error, the same addresses are in use as before. If it returns an address, that is in
  -- use as well, nothing had it, and the addresses of IPv6 are as before.
  pub deploy_unikernel-LeavesAllOne :
      (w : y.World) (env : Environment y.Veth) (name : Bytes) (number : ℤ) (ports : Bytes)
      (used4 used6 : List Ip)
      → IsAllocated b4 b6 env used4 used6
      → ((lacks_pair y w env (n.instance_name name number) ≡ true)
          × (deploy_unikernel y n w env name number ports ≡ panic))
        ⊎ ((lacks_pair y w env (n.instance_name name number) ≡ false)
            × LeavesAllOne b4 b6 used4 used6 (deploy_unikernel y n w env name number ports))
  unfolding deploy_unikernel LeavesAllOne LeavesOne
  deploy_unikernel-LeavesAllOne w env name number ports used4 used6 v =
      let sname = n.instance_name name number in
      let (w1, veth, no_pair) = y.create_veths_pair w env.next_veth_number sname in
      elim (Bool-cases no_pair) [
        | inl e ↦ inl (e, rw (e, deploy_unikernel) refl)
        | inr e ↦ inr (
          e,
          (let (w2, link) = y.link_by_name veth w1 in
              elim (Option-cases link) [
                | inl l ↦ rw (e, deploy_unikernel) (rw (l) v)
                | inr (peer, l) ↦
                    let (w3, failed) = n.netns_add sname w2 in
                    elim (Bool-cases failed) [
                      | inl e' ↦ rw (e, deploy_unikernel) (rw (l) (rw (e') v))
                      | inr e' ↦ elim (Option-cases (n.get_from_name sname w3).1) [
                        | inl f ↦ rw (e, deploy_unikernel) (rw (l) (rw (e') (rw (f) v)))
                        | inr (ns, f) ↦
                            rw (e, deploy_unikernel)
                              (rw (l) (
                                rw (e') (
                                  rw (f) (
                                    join_namespace-LeavesAllOne _ env name sname ports ns veth peer
                                      used4 used6 v))))
                      ]
                    ]
              ]),
        )
      ]
