-- ===== src/Handlers/Requests.antt =====
-- The answer to a request that deploys a container, ContainerManager.go.
use mathlib.Core.List.{Nodup}
use oakestra_net.Base.{
  ℕ, ◌+◌, ◌≤◌, ◌<◌, ◌^◌, ◌≡◌, ◌⊎◌, inl, inr, refl, Bool-cases, none, some, List, [], ◌∷◌, Bytes,
  codes, ◌=ᵇ◌, Outcome, returns, panic,
}
use oakestra_net.Net.{Ip}
use oakestra_net.Env.{Environment}
use oakestra_net.Env.Allocation.{IsAllocated}
use oakestra_net.Env.Deployment.{System, MakesPairs}
use oakestra_net.Env.Unikernel.{NamedNamespaces}
use oakestra_net.Handlers.{DeployTask, TaskReady, Response, Manager, Services}
use oakestra_net.Handlers.Endpoints.{answer, task_for, container_deploy}
use oakestra_net.Handlers.Containers.{Answered, task_executor-Answered}

-- A status of an error and no body, with the same addresses in use; or 200 and the texts of two
-- addresses that nothing had and that are in use now.
unfoldable pub Replied :
    {W V : Type 0}
    → ℕ
    → ℕ
    → List Ip
    → List Ip
    → (Ip → Bytes)
    → Outcome (W × Environment V × Response)
    → Type 0
Replied b4 b6 used4 used6 text panic = ⊥
Replied b4 b6 used4 used6 text (returns (w, env, r)) =
    (((r.status ≡ 400) ⊎ (r.status ≡ 500)) × (r.body ≡ none) × IsAllocated b4 b6 env used4 used6)
    ⊎ ((a : Ip) × (b : Ip) × (name : Bytes) × (r ≡ record {
      status = 200;
      body = some (record { service_name = name; ns_address = text a; ns_addressv6 = text b });
    })
        × IsAllocated b4 b6 env (a ∷ used4) (b ∷ used6)
        × Nodup (a ∷ used4)
        × Nodup (b ∷ used6))

module _ (b4 b6 : ℕ) (room4 : b4 + 62 < 2 ^ 32) (global6 : 2 ^ 120 ≤ b6)
    (room6 : b6 + 255 < 2 ^ 128) (y : System) (n : NamedNamespaces y) (v : Services y)
    (pairs : MakesPairs y) where
  answer-Replied :
      (t : DeployTask) (w : y.World) (env : Environment y.Veth) (r : TaskReady)
      (used4 used6 : List Ip)
      → Answered b4 b6 used4 used6 (w, env, r)
      → Replied b4 b6 used4 used6 v.ip_string (returns (w, env, answer y n v t r))
  unfolding Answered Replied
  answer-Replied t w env r used4 used6 (inl (e, u)) = rw (e) (inl (inr refl, refl, u))
  answer-Replied t w env r used4 used6 (inr (e, u, d4, d6)) =
      rw (e) (inr (r.ip, r.ipv6, t.service_name, refl, u, d4, d6))

  -- A request to deploy a container, on a node whose pools account for the addresses in use and on a
  -- system where every veth pair can be made, is answered, without a panic, whatever the request, the
  -- cluster and the other answers of the system are. Either the status is 400 or
  -- 500, there is no body, and the same addresses are in use as before; or the status is 200, and the
  -- body has the texts of an address of each version that nothing had and that is in use now.
  pub container_deploy-Replied :
      (m : Manager) (req_body : Bytes) (w : y.World) (env : Environment y.Veth)
      (used4 used6 : List Ip)
      → IsAllocated b4 b6 env used4 used6
      → Replied b4 b6 used4 used6 v.ip_string (container_deploy y n v m req_body w env)
  unfolding container_deploy Replied
  container_deploy-Replied m req_body w env used4 used6 u = elim (Bool-cases (m.worker_id =ᵇ [])) [
    | inl e ↦ rw (e, container_deploy) (inl (inl refl, refl, u))
    | inr e ↦ elim (Bool-cases (v.unmarshal_task req_body).1) [
      | inl e' ↦ rw (e, container_deploy) (rw (e') (inl (inl refl, refl, u)))
      | inr e' ↦
          let t = task_for (codes "container") m (v.unmarshal_task req_body).0 in
          let (w', env', r, q, a) =
            task_executor-Answered b4 b6 room4 global6 room6 y n v pairs t w env used4 used6 refl
              u in
          rw (e, container_deploy) (rw (e') (rw (q) (answer-Replied t w' env' r used4 used6 a)))
    ]
  ]
