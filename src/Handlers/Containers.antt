-- ===== src/Handlers/Containers.antt =====
-- Requests that deploy containers: what the executor answers, and the addresses that it hands out.
use mathlib.Core.List.{Nodup}
use oakestra_net.Base.{
  ℕ, ◌+◌, ◌≤◌, ◌<◌, ◌^◌, ◌≡◌, ◌⊎◌, inl, inr, refl, sym, subst, true, false, Bool-cases, Option,
  none, some, List, [], ◌∷◌, codes, length, All, ◌==◌, =ᵇ_complete, arith, Outcome, returns, panic,
}
use oakestra_net.Base.Words.{split}
use oakestra_net.Net.{Ip}
use oakestra_net.Env.{Environment}
use oakestra_net.Env.Allocation.{at4, at6, IsAllocated}
use oakestra_net.Env.Addresses.{IsPool}
use oakestra_net.Env.Deployment.{System, MakesPairs, deploy_network}
use oakestra_net.Env.Deployment.Allocation.{Leaves, LeavesAll, deploy_network-LeavesAll}
use oakestra_net.Env.Unikernel.{NamedNamespaces}
use oakestra_net.Env.Entries.Pools.{SamePools, refresh_service_table-SamePools}
use oakestra_net.Handlers.{
  DeployTask, TaskReady, Services, cluster, failed, deploy_by_runtime, notify_deployment_status,
  deployment_handler, update_internal_proxy_data_structures, task_executor, execute_all,
}

-- The addresses in use after the answers, and before them `used`.
abbrev pub granted : (TaskReady → Ip) → List Ip → List TaskReady → List Ip
granted ip used [] = used
granted ip used (r ∷ rs) = granted ip (elim r.err [ true ↦ used | false ↦ ip r ∷ used ]) rs

SamePools-IsAllocated :
    {V : Type 0} {b4 b6 : ℕ} (env env' : Environment V) (used4 used6 : List Ip)
    → SamePools env env'
    → IsAllocated b4 b6 env used4 used6
    → IsAllocated b4 b6 env' used4 used6
SamePools-IsAllocated {b4 = b4} {b6 = b6} env env' used4 used6 (e, e') v = record {
  v4 = subst (λ p. IsPool (at4 b4) 62 p used4) (sym e) v.v4;
  v6 = subst (λ p. IsPool (at6 b6) 255 p used6) (sym e') v.v6;
}

-- What an executor leaves after an answer.
unfoldable pub Answered :
    {W V : Type 0} → ℕ → ℕ → List Ip → List Ip → W × Environment V × TaskReady → Type 0
Answered b4 b6 used4 used6 (w, env, r) =
    ((r.err ≡ true) × IsAllocated b4 b6 env used4 used6)
    ⊎ ((r.err ≡ false)
        × IsAllocated b4 b6 env (r.ip ∷ used4) (r.ipv6 ∷ used6)
        × Nodup (r.ip ∷ used4)
        × Nodup (r.ipv6 ∷ used6))

Answered-granted :
    {W V : Type 0} {b4 b6 : ℕ} (w : W) (env : Environment V) (r : TaskReady) (used4 used6 : List Ip)
    → Nodup used4
    → Nodup used6
    → Answered b4 b6 used4 used6 (w, env, r)
    → IsAllocated b4 b6 env
        (granted (λ x. x.ip) used4 (r ∷ []))
        (granted (λ x. x.ipv6) used6 (r ∷ []))
      × Nodup (granted (λ x. x.ip) used4 (r ∷ []))
      × Nodup (granted (λ x. x.ipv6) used6 (r ∷ []))
unfolding Answered
Answered-granted w env r used4 used6 d4 d6 (inl (e, u)) = rw (e) (u, d4, d6)
Answered-granted w env r used4 used6 d4 d6 (inr (e, u, e4, e6)) = rw (e) (u, e4, e6)

module _ (b4 b6 : ℕ) (room4 : b4 + 62 < 2 ^ 32) (global6 : 2 ^ 120 ≤ b6)
    (room6 : b6 + 255 < 2 ^ 128) (y : System) (n : NamedNamespaces y) (v : Services y)
    (pairs : MakesPairs y) where
  deploy_by_runtime-container :
      (t : DeployTask) (w : y.World) (env : Environment y.Veth)
      → t.runtime ≡ codes "container"
      → deploy_by_runtime y n v t w env
        ≡ deploy_network y w env t.pid t.service_name t.instancenumber t.port_mappings
  unfolding deploy_by_runtime
  deploy_by_runtime-container t w env c =
      rw (=ᵇ_complete t.runtime (codes "container") c, deploy_by_runtime) refl

  deployment_handler-Answered :
      (t : DeployTask) (w : y.World) (env : Environment y.Veth) (used4 used6 : List Ip)
      → t.runtime ≡ codes "container"
      → IsAllocated b4 b6 env used4 used6
      → (r : y.World × Environment y.Veth × TaskReady) × (deployment_handler y n v t w env
          ≡ returns r)
        × Answered b4 b6 used4 used6 r
  unfolding deployment_handler Answered Leaves
  deployment_handler-Answered t w env used4 used6 c u =
      elim (Bool-cases (length (split b'.' t.service_name) == 4)) [
        | inr e ↦ ((w, env, failed), rw (e, deployment_handler) refl, inl (refl, u))
        | inl e ↦
            deployed e
              (deploy_network y w env t.pid t.service_name t.instancenumber t.port_mappings) refl
              (deploy_network-LeavesAll b4 b6 room4 global6 room6 y w env t.pid t.service_name
                t.instancenumber t.port_mappings used4 used6
                (pairs w env.next_veth_number t.service_name) u)
      ]
    where
      deployed :
          (length (split b'.' t.service_name) == 4) ≡ true
          → (o : Outcome (y.World × Environment y.Veth × Option (Ip × Ip)))
          → deploy_network y w env t.pid t.service_name t.instancenumber t.port_mappings ≡ o
          → LeavesAll b4 b6 used4 used6 o
          → (r : y.World × Environment y.Veth × TaskReady) × (deployment_handler y n v t w env
              ≡ returns r)
            × Answered b4 b6 used4 used6 r
      deployed e panic q h = absurd h
      deployed e (returns (w', env', none)) q h = (
        (w', env', failed),
        rw (e, deployment_handler) (rw (deploy_by_runtime-container t w env c) (rw (q) refl)),
        inl (refl, h),
      )
      deployed e (returns (w', env', some (a, b))) q h =
          let (k, d4, d6) = h in
          (
            (
              notify_deployment_status y n v t a b w',
              env',
              record { ip = a; ipv6 = b; err = false },
            ),
            rw (e, deployment_handler) (rw (deploy_by_runtime-container t w env c) (rw (q) refl)),
            inr (refl, k, d4, d6),
          )

  SamePools-Answered :
      (w w' : y.World) (env env' : Environment y.Veth) (r : TaskReady) (used4 used6 : List Ip)
      → SamePools env env'
      → Answered b4 b6 used4 used6 (w, env, r)
      → Answered b4 b6 used4 used6 (w', env', r)
  unfolding Answered
  SamePools-Answered w w' env env' r used4 used6 p (inl (e, u)) =
      inl (e, SamePools-IsAllocated env env' used4 used6 p u)
  SamePools-Answered w w' env env' r used4 used6 p (inr (e, u, d4, d6)) =
      inr (e, SamePools-IsAllocated env env' (r.ip ∷ used4) (r.ipv6 ∷ used6) p u, d4, d6)

  update-SamePools :
      (t : DeployTask) (w : y.World) (env : Environment y.Veth)
      → (w' : y.World) × (env' : Environment y.Veth) × (update_internal_proxy_data_structures y n v
            t w env
          ≡ returns (w', env'))
        × SamePools env env'
  unfolding update_internal_proxy_data_structures
  update-SamePools t w env = elim (Bool-cases (y.is_interest_registered w t.service_name)) [
    | inl e ↦ (w, env, rw (e, update_internal_proxy_data_structures) refl, (refl, refl))
    | inr e ↦
        let (w', env', q, p) =
          refresh_service_table-SamePools (cluster y n v) w env t.service_name in
        (
          v.register_interest t.service_name w',
          env',
          rw (e, update_internal_proxy_data_structures) (rw (q) refl),
          p,
        )
  ]

  pub task_executor-Answered :
      (t : DeployTask) (w : y.World) (env : Environment y.Veth) (used4 used6 : List Ip)
      → t.runtime ≡ codes "container"
      → IsAllocated b4 b6 env used4 used6
      → (w' : y.World) × (env' : Environment y.Veth) × (r : TaskReady) × (task_executor y n v t w
            env
          ≡ returns (w', env', r))
        × Answered b4 b6 used4 used6 (w', env', r)
  unfolding task_executor
  task_executor-Answered t w env used4 used6 c u =
      let ((w1, env1, r), q, a) = deployment_handler-Answered t w env used4 used6 c u in
      let (w2, env2, q', p) = update-SamePools t w1 env1 in
      (w2, env2, r, rw (q) (rw (q') refl), SamePools-Answered w1 w2 env1 env2 r used4 used6 p a)

  -- The queue of tasks of containers, on a system where every veth pair can be made: the executor
  -- returns an answer for each task, without a panic and whatever else the system and the cluster
  -- answer. The addresses of the answers without an error are in
  -- use afterwards beside those that were before, those of the answers with an error are not, and
  -- no address of either version was handed out twice.
  pub execute_all-IsAllocated :
      (ts : List DeployTask) (w : y.World) (env : Environment y.Veth) (used4 used6 : List Ip)
      → All (λ t. t.runtime ≡ codes "container") ts
      → IsAllocated b4 b6 env used4 used6
      → Nodup used4
      → Nodup used6
      → (w' : y.World) × (env' : Environment y.Veth) × (rs : List TaskReady) × (execute_all y n v ts
            w env
          ≡ returns (w', env', rs))
        × (length rs ≡ length ts)
        × IsAllocated b4 b6 env' (granted (λ r. r.ip) used4 rs) (granted (λ r. r.ipv6) used6 rs)
        × Nodup (granted (λ r. r.ip) used4 rs)
        × Nodup (granted (λ r. r.ipv6) used6 rs)
  unfolding execute_all
  execute_all-IsAllocated [] w env used4 used6 c u d4 d6 = (w, env, [], refl, refl, u, d4, d6)
  execute_all-IsAllocated (t ∷ ts) w env used4 used6 (c, cs) u d4 d6 =
      let (w1, env1, r, q, a) = task_executor-Answered t w env used4 used6 c u in
      let (k, e4, e6) = Answered-granted w1 env1 r used4 used6 d4 d6 a in
      let (w2, env2, rs, q', l, u', f4, f6) =
        execute_all-IsAllocated ts w1 env1 (granted (λ r. r.ip) used4 (r ∷ []))
          (granted (λ r. r.ipv6) used6 (r ∷ [])) cs k e4 e6 in
      (w2, env2, r ∷ rs, rw (q) (rw (q') refl), omega (arith, l), u', f4, f6)
