-- ===== src/Env/Deployed.antt =====
-- IsServiceDeployed of node-net-manager/env/EnvironmentManager.go.
pub mod Kept
pub mod Changes
use oakestra_net.Base.{
  ◌≡◌, refl, sym, ap, ◌∙◌, inl, inr, Bool, true, not, Bool-cases, Option-cases, Option, none, some,
  List, [], ◌∷◌, Bytes, ◌=ᵇ◌, =ᵇ_sound, =ᵇ_refl, any, filter_idem, filter_comm, Outcome, returns,
  panic, ◌>>=◌,
}
use oakestra_net.Base.Int.{ℤ}
use oakestra_net.Net.{Ip}
use oakestra_net.Env.{
  AddressPool, Environment, Service, generate_address, generate_ipv6_address,
  free_container_address, take_address, book_veth_number,
}
use oakestra_net.Env.Deployment.{
  System, get_service, delete_service, allocate, configure, try_all, link_steps, rule_steps, attach,
  deploy_network, detach_container,
}
use oakestra_net.Env.Deployment.Detachment.{free-services}
use oakestra_net.Network.{next_ipv4, next_ipv6}
use oakestra_net.Table.Remove.{remove_by_nsip_returns, remove_by_job_name_lem}

-- The entries of the map of deployed services: of two writes to a key, the later one.
abbrev pub current : {V : Type 0} → List (Bytes × Service V) → List (Bytes × Service V)
current [] = []
current ((k, s) ∷ m) = (k, s) ∷ delete_service k (current m)

abbrev pub is_named : {V : Type 0} → Bytes → Bytes × Service V → Bool
is_named job_name (k, s) = s.sname =ᵇ job_name

abbrev pub is_service_deployed : {V : Type 0} → Bytes → Environment V → Bool
is_service_deployed job_name env = any (is_named job_name) (current env.deployed_services)
