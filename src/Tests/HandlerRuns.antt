-- ===== src/Tests/HandlerRuns.antt =====
-- Requests that deploy containers on a node where everything succeeds.
use mathlib.Core.List.{Nodup}
use mathlib.Core.List.Pairwise
use oakestra_net.Base.{ℕ, ◌+◌, ◌≡◌, refl, false, none, List, [], ◌∷◌, codes, length, arith, returns}
use oakestra_net.Base.Int.{pos}
use oakestra_net.Net.{octets}
use oakestra_net.Env.{Environment}
use oakestra_net.Env.Allocation.{IsAllocated}
use oakestra_net.Handlers.{DeployTask, TaskReady, Manager, Services, execute_all}
use oakestra_net.Handlers.Endpoints.{container_deploy}
use oakestra_net.Handlers.Containers.{granted, execute_all-IsAllocated}
use oakestra_net.Handlers.Requests.{Replied, container_deploy-Replied}
use oakestra_net.Tests.NodeRuns.{first4, first6, node, node-IsAllocated, machine}
use oakestra_net.Tests.DeployRuns.{namespaces}

abbrev task : DeployTask
task = record {
  pid = pos 4711;
  service_name = codes "a.b.c.d";
  instancenumber = pos 0;
  port_mappings = codes "80:80";
  runtime = codes "container";
  public_addr = [];
  public_port = [];
}

abbrev services : Services machine
services = record {
  unmarshal_task = λ b. (task, false);
  unmarshal_undeploy =
      λ b. (record { servicename = codes "a.b.c.d"; instancenumber = pos 0 }, false);
  publish_deployed = λ d w. w + 1;
  public_address = codes "192.168.0.3";
  public_port = codes "50103";
  table_query_by_ip = λ a w. (w + 1, none);
  table_query_by_job_name = λ j w. (w + 1, none);
  register_interest = λ j w. w + 1;
  emit_table_query = λ j w. w + 1;
  ip_string = octets;
}

abbrev manager : Manager
manager = record {
  worker_id = codes "w1";
  node_public_address = codes "192.168.0.3";
  node_public_port = codes "50103";
}

execute_all-IsAllocated_example :
    (w' : ℕ) × (env' : Environment ℕ) × (rs : List TaskReady) × (execute_all machine namespaces
        services
        (task ∷ record task { service_name = codes "a.b" } ∷ task ∷ [])
        0
        node
      ≡ returns (w', env', rs))
    × (length rs ≡ 3)
    × IsAllocated first4 first6 env' (granted (λ r. r.ip) [] rs) (granted (λ r. r.ipv6) [] rs)
    × Nodup (granted (λ r. r.ip) [] rs)
    × Nodup (granted (λ r. r.ipv6) [] rs)
execute_all-IsAllocated_example =
    execute_all-IsAllocated first4 first6 (omega arith) (omega arith) (omega arith) machine
      namespaces services (λ w n s. refl)
      (task ∷ record task { service_name = codes "a.b" } ∷ task ∷ []) 0 node [] []
      (refl, (refl, (refl, tt))) node-IsAllocated Pairwise.nil Pairwise.nil

container_deploy-Replied_example :
    Replied first4 first6 [] [] octets
      (container_deploy machine namespaces services manager (codes "{}") 0 node)
container_deploy-Replied_example =
    container_deploy-Replied first4 first6 (omega arith) (omega arith) (omega arith) machine
      namespaces services (λ w n s. refl) manager (codes "{}") 0 node [] [] node-IsAllocated
