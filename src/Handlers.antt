-- ===== src/Handlers.antt =====
-- node-net-manager/handlers/deployment.go: the queue of deployment tasks and its executor. The
-- deployments are those of Env. The JSON decoder, the answers of the cluster and the registration of
-- interests are the parameter `Services`.
pub mod Endpoints
pub mod Dispatcher
pub mod Containers
pub mod Requests
use oakestra_net.Base.{
  ℕ, Bool, true, false, Option, none, some, List, [], ◌∷◌, Bytes, codes, length, ◌==◌, ◌=ᵇ◌,
  if◌then◌else◌, Outcome, returns, panic, ◌>>=◌,
}
use oakestra_net.Base.Int.{ℤ}
use oakestra_net.Base.Words.{split}
use oakestra_net.Net.{Ip, nil}
use oakestra_net.Table.{TableEntry}
use oakestra_net.Env.{Environment}
use oakestra_net.Env.Deployment.{System, deploy_network, detach_container}
use oakestra_net.Env.Unikernel.{NamedNamespaces, deploy_unikernel, delete_unikernel_namespace}
use oakestra_net.Env.Entries.{Cluster, refresh_service_table}

-- `ContainerDeployTask` without the parts that only pass the answer back.
pub record DeployTask : Type 0 where
  pub pid : ℤ
  pub service_name : Bytes
  pub instancenumber : ℤ
  pub port_mappings : Bytes
  pub runtime : Bytes
  pub public_addr : Bytes
  pub public_port : Bytes

-- `TaskReady`; `err` is whether there is an error.
pub record TaskReady : Type 0 where
  pub ip : Ip
  pub ipv6 : Ip
  pub err : Bool

pub record UndeployRequest : Type 0 where
  pub servicename : Bytes
  pub instancenumber : ℤ

pub record DeployResponse : Type 0 where
  pub service_name : Bytes
  pub ns_address : Bytes
  pub ns_addressv6 : Bytes

-- The status that is written first, and the body.
pub record Response : Type 0 where
  pub status : ℕ
  pub body : Option DeployResponse

-- `netConfiguration` with the identity of the node.
pub record Manager : Type 0 where
  pub worker_id : Bytes
  pub node_public_address : Bytes
  pub node_public_port : Bytes

-- `mqttDeployNotification` as `NotifyDeploymentStatus` fills it.
pub record DeployNotification : Type 0 where
  pub appname : Bytes
  pub notified_status : Bytes
  pub notified_instance : ℤ
  pub nsip : Bytes
  pub nsipv6 : Bytes
  pub hostip : Bytes
  pub hostport : Bytes

pub record Services (y : System) : Type 1 where
  -- `json.Unmarshal`, which fills in what it can, and whether there was an error.
  pub unmarshal_task : Bytes → DeployTask × Bool
  pub unmarshal_undeploy : Bytes → UndeployRequest × Bool
  -- `PublishToBroker` of a notification, which returns nil in every case.
  pub publish_deployed : DeployNotification → y.World → y.World
  -- `NetConfig.NodePublicAddress` and `NodePublicPort`.
  pub public_address : Bytes
  pub public_port : Bytes
  pub table_query_by_ip : Ip → y.World → y.World × Option (List TableEntry)
  pub table_query_by_job_name : Bytes → y.World → y.World × Option (List TableEntry)
  pub register_interest : Bytes → y.World → y.World
  pub emit_table_query : Bytes → y.World → y.World
  pub ip_string : Ip → Bytes

abbrev pub failed : TaskReady
failed = record { ip = nil; ipv6 = nil; err = true }

module _ (y : System) (n : NamedNamespaces y) (v : Services y) where
  open y use {World, Veth, is_interest_registered}
  open v use {
    unmarshal_task, unmarshal_undeploy, publish_deployed, public_address, public_port,
    register_interest, ip_string,
  }

  abbrev pub cluster : Cluster
  cluster = record {
    World = World;
    table_query_by_ip = v.table_query_by_ip;
    table_query_by_job_name = v.table_query_by_job_name;
    register_interest = register_interest;
    emit_table_query = v.emit_table_query;
    ip_string = ip_string;
  }

  -- `GetNetDeployment` and `DeployNetwork` of what it returns; another runtime has none, and a call of
  -- it is a panic. A unikernel has no IPv6 address.
  unfoldable pub deploy_by_runtime :
      DeployTask → World → Environment Veth → Outcome (World × Environment Veth × Option (Ip × Ip))
  deploy_by_runtime t w env = elim (t.runtime =ᵇ codes "container") [
    | true ↦ deploy_network y w env t.pid t.service_name t.instancenumber t.port_mappings
    | false ↦ elim (t.runtime =ᵇ codes "unikernel") [
      | true ↦
          deploy_unikernel y n w env t.service_name t.instancenumber t.port_mappings
          >>= λ (w', env', ip). elim ip [
            | none ↦ returns (w', env', none)
            | some a ↦ returns (w', env', some (a, nil))
          ]
      | false ↦ panic
    ]
  ]

  -- `NotifyDeploymentStatus` for a task; its error is always nil.
  abbrev pub notify_deployment_status : DeployTask → Ip → Ip → World → World
  notify_deployment_status t ip ipv6 w =
      publish_deployed
        (record {
          appname = t.service_name;
          notified_status = codes "DEPLOYED";
          notified_instance = t.instancenumber;
          nsip = ip_string ip;
          nsipv6 = ip_string ipv6;
          hostip = public_address;
          hostport = public_port;
        })
        w

  unfoldable pub deployment_handler :
      DeployTask → World → Environment Veth → Outcome (World × Environment Veth × TaskReady)
  unfolding deploy_by_runtime
  deployment_handler t w env = elim (length (split b'.' t.service_name) == 4) [
    | false ↦ returns (w, env, failed)
    | true ↦ deploy_by_runtime t w env >>= λ (w', env', addresses). elim addresses [
      | none ↦ returns (w', env', failed)
      | some (a, b) ↦
          returns
            (notify_deployment_status t a b w', env', record { ip = a; ipv6 = b; err = false })
    ]
  ]

  unfoldable pub update_internal_proxy_data_structures :
      DeployTask → World → Environment Veth → Outcome (World × Environment Veth)
  update_internal_proxy_data_structures t w env = elim (is_interest_registered w t.service_name) [
    | true ↦ returns (w, env)
    | false ↦ refresh_service_table cluster w env t.service_name >>= λ (w', env').
        returns (register_interest t.service_name w', env')
  ]

  -- One round of `taskExecutor`. The answer goes out before the tables are updated.
  unfoldable pub task_executor :
      DeployTask → World → Environment Veth → Outcome (World × Environment Veth × TaskReady)
  unfolding deployment_handler update_internal_proxy_data_structures
  task_executor t w env = deployment_handler t w env >>= λ (w', env', ready).
      update_internal_proxy_data_structures t w' env' >>= λ (w'', env'').
      returns (w'', env'', ready)

  -- The executor on the tasks of the queue, in their order.
  unfoldable pub execute_all :
      List DeployTask
      → World
      → Environment Veth
      → Outcome (World × Environment Veth × List TaskReady)
  unfolding task_executor
  execute_all [] w env = returns (w, env, [])
  execute_all (t ∷ ts) w env = task_executor t w env >>= λ (w', env', ready).
      execute_all ts w' env' >>= λ (w'', env'', answers). returns (w'', env'', ready ∷ answers)
