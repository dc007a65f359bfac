-- ===== src/Handlers/Endpoints.antt =====
-- node-net-manager/handlers/ContainerManager.go and UnikernelManager.go: the requests that deploy and
-- undeploy.
use oakestra_net.Base.{
  ℕ, Bool, true, false, none, some, [], Bytes, codes, ◌=ᵇ◌, Outcome, returns, ◌>>=◌,
}
use oakestra_net.Env.{Environment}
use oakestra_net.Env.Deployment.{System, detach_container}
use oakestra_net.Env.Unikernel.{NamedNamespaces, delete_unikernel_namespace}
use oakestra_net.Handlers.{DeployTask, TaskReady, Response, Manager, Services, task_executor}

abbrev pub only_status : ℕ → Response
only_status code = record { status = code; body = none }

abbrev pub task_for : Bytes → Manager → DeployTask → DeployTask
task_for runtime m t = record t {
  runtime = runtime;
  public_addr = m.node_public_address;
  public_port = m.node_public_port;
}

-- The status of a response on which 400 was written before, if it was.
abbrev pub after_error : Bool → Response → Response
after_error true r = record r { status = 400 }
after_error false r = r

module _ (y : System) (n : NamedNamespaces y) (v : Services y) where
  open y use {World, Veth}
  open v use {unmarshal_task, unmarshal_undeploy, ip_string}

  -- The end of the two handlers of a deployment. The status is 200 once the body is written.
  abbrev pub answer : DeployTask → TaskReady → Response
  answer t r = elim r.err [
    | true ↦ only_status 500
    | false ↦ record {
      status = 200;
      body = some (record {
        service_name = t.service_name;
        ns_address = ip_string r.ip;
        ns_addressv6 = ip_string r.ipv6;
      });
    }
  ]

  unfoldable pub container_deploy :
      Manager → Bytes → World → Environment Veth → Outcome (World × Environment Veth × Response)
  unfolding task_executor
  container_deploy m req_body w env = elim (m.worker_id =ᵇ []) [
    | true ↦ returns (w, env, only_status 400)
    | false ↦
        let (request, err) = unmarshal_task req_body in
        let t = task_for (codes "container") m request in
        elim err [
          | true ↦ returns (w, env, only_status 400)
          | false ↦ task_executor y n v t w env >>= λ (w', env', ready).
              returns (w', env', answer t ready)
        ]
  ]

  unfoldable pub container_undeploy :
      Manager → Bytes → World → Environment Veth → Outcome (World × Environment Veth × Response)
  container_undeploy m req_body w env = elim (m.worker_id =ᵇ []) [
    | true ↦ returns (w, env, only_status 400)
    | false ↦
        let (request, err) = unmarshal_undeploy req_body in
        elim err [
          | true ↦ returns (w, env, only_status 400)
          | false ↦
              detach_container y w env request.servicename request.instancenumber >>= λ (w', env').
              returns (w', env', only_status 200)
        ]
  ]

  -- After an error of the decoder the handler writes 400 and goes on with what was decoded.
  unfoldable pub create_unikernel_namespace :
      Manager → Bytes → World → Environment Veth → Outcome (World × Environment Veth × Response)
  unfolding task_executor
  create_unikernel_namespace m req_body w env = elim (m.worker_id =ᵇ []) [
    | true ↦ returns (w, env, only_status 400)
    | false ↦
        let (request, err) = unmarshal_task req_body in
        let t = task_for (codes "unikernel") m request in
        task_executor y n v t w env >>= λ (w', env', ready).
        returns (w', env', after_error err (answer t ready))
  ]

  unfoldable pub undeploy_unikernel :
      Manager → Bytes → World → Environment Veth → Outcome (World × Environment Veth × Response)
  undeploy_unikernel m req_body w env = elim (m.worker_id =ᵇ []) [
    | true ↦ returns (w, env, only_status 400)
    | false ↦
        let (request, err) = unmarshal_undeploy req_body in
        delete_unikernel_namespace y n w env request.servicename request.instancenumber
        >>= λ (w', env'). returns (w', env', after_error err (only_status 200))
  ]
