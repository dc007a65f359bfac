-- ===== src/Handlers/Dispatcher.antt =====
-- node-net-manager/handlers/ManagerDispatcher.go and the registrations of ContainerManager.go and
-- UnikernelManager.go: which handler serves which path, and the configuration that it has.
use oakestra_net.Base.{Option, none, some, List, [], ◌∷◌, ◌++◌, Bytes, codes, ◌=ᵇ◌, if◌then◌else◌}
use oakestra_net.Handlers.{Manager}

-- The two managers in `AvailableRuntimes`, by their names there.
pub data Runtime : Type 0 where
  container unikernel : Runtime

abbrev pub runtime_name : Runtime → Bytes
runtime_name container = codes "container"
runtime_name unikernel = codes "unikernel"

-- The handlers of requests, all for the method POST.
pub data Endpoint : Type 0 where
  container_deploys container_undeploys unikernel_deploys unikernel_undeploys : Endpoint

-- `netConfiguration`.
pub record ManagerConfiguration : Type 0 where
  pub public_address : Bytes
  pub public_port : Bytes

-- The configuration of each manager that was registered, and the routes in the order of their
-- registration.
pub record Managers : Type 0 where
  pub container_configuration : Option ManagerConfiguration
  pub unikernel_configuration : Option ManagerConfiguration
  pub routes : List (Bytes × Endpoint)

abbrev pub no_managers : Managers
no_managers = record { container_configuration = none; unikernel_configuration = none; routes = [] }

-- `GetNetManager`.
abbrev pub get_net_manager : Bytes → Option Runtime
get_net_manager handler =
    if handler =ᵇ runtime_name container
    then some container
    else if handler =ᵇ runtime_name unikernel
    then some unikernel
    else none

-- `Register` of each manager. The public address is copied.
abbrev pub register_container : ManagerConfiguration → Managers → Managers
register_container c m = record m {
  container_configuration = some c;
  routes =
      m.routes
      ++ (codes "/container/deploy", container_deploys)
        ∷ (codes "/container/undeploy", container_undeploys)
        ∷ (codes "/docker/undeploy", container_undeploys)
        ∷ [];
}

abbrev pub register_unikernel : ManagerConfiguration → Managers → Managers
register_unikernel c m = record m {
  unikernel_configuration = some c;
  routes =
      m.routes
      ++ (codes "/unikernel/deploy", unikernel_deploys)
        ∷ (codes "/unikernel/undeploy", unikernel_undeploys)
        ∷ [];
}

abbrev pub register_manager : Runtime → ManagerConfiguration → Managers → Managers
register_manager container c m = register_container c m
register_manager unikernel c m = register_unikernel c m

-- `RegisterAllManagers`, for the order in which the map of managers is walked.
unfoldable pub register_all_managers : List Runtime → ManagerConfiguration → Managers → Managers
register_all_managers [] c m = m
register_all_managers (r ∷ rs) c m = register_all_managers rs c (register_manager r c m)

-- What a handler reads of its manager: the identity of the node through a pointer, and the
-- configuration as it was at the registration.
abbrev pub manager_with : Bytes → ManagerConfiguration → Manager
manager_with worker_id c = record {
  worker_id = worker_id;
  node_public_address = c.public_address;
  node_public_port = c.public_port;
}
