-- ===== src/Env/Setup/Pools.antt =====
-- The pools of a new environment.
use mathlib.Core.List.Perm
use oakestra_net.Base.{
  ℕ, ◌+◌, ◌<◌, ◌^◌, ◌≡◌, refl, ap, false, some, [], Bytes, ◌=ᵇ◌, arith, returns,
}
use oakestra_net.Network.Value.{ip4, ip6, next_ipv4-ip4, next_ipv6-ip6}
use oakestra_net.Table.{new_table_manager}
use oakestra_net.Env.{Environment, new_custom}
use oakestra_net.Env.Allocation.{IsAllocated}
use oakestra_net.Env.Kernel.{Configuration}
use oakestra_net.Env.Setup.{
  SubnetworkResponse, Host, request_subnetwork_mqtt_blocking, new_environment, configuration_for,
  new_environment_cluster_configured,
}

-- The environment with the first addresses after a bridge.
abbrev pub first_environment : (V : Type 0) → ℕ → ℕ → Environment V
first_environment V b4 b6 = record {
  next_veth_number = 0;
  translation_table = new_table_manager;
  deployed_services = [];
  pool = record { next_container_ip = ip4 b4; tot_next_addr = 1; addr_cache = [] };
  pool_v6 = record { next_container_ip = ip6 b6; tot_next_addr = 1; addr_cache = [] };
}

new_custom-ip4 :
    (V : Type 0) (v u : ℕ)
    → v < 2 ^ 32
    → u + 1 < 2 ^ 128
    → new_custom (ip4 v) (ip6 u) ≡ returns (first_environment V (v + 1) (u + 1))
unfolding new_custom
new_custom-ip4 V v u h k = rw (next_ipv4-ip4 v h) (rw (next_ipv6-ip6 u k) refl)

first_environment-IsAllocated :
    (V : Type 0) (b4 b6 : ℕ) → IsAllocated b4 b6 (first_environment V b4 b6) [] []
first_environment-IsAllocated V b4 b6 = record {
  v4 = record {
    made = 0;
    tot = refl;
    bounded = omega arith;
    next = ap ip4 (omega arith);
    kept = Perm.nil;
  };
  v6 = record {
    made = 0;
    tot = refl;
    bounded = omega arith;
    next = ap ip6 (omega arith);
    kept = Perm.nil;
  };
}

-- A host where the cluster answers with the two addresses, texts of addresses are read back, and the
-- devices and the rules are set up.
pub record Answers (h : Host) (v u : ℕ) : Type 0 where
  pub response : SubnetworkResponse
  pub given : (w : h.World) → (h.request_subnet w).1 ≡ some response
  pub is_v4 : h.parse_ip response.address ≡ ip4 v
  pub is_v6 : h.parse_ip response.address_v6 ≡ ip6 u
  pub not_empty : (response.address =ᵇ []) ≡ false
  pub reads_v4 : (n : ℕ) → n < 2 ^ 32 → h.parse_ip (h.ip_string (ip4 n)) ≡ ip4 n
  pub reads_v6 : (n : ℕ) → n < 2 ^ 128 → h.parse_ip (h.ip_string (ip6 n)) ≡ ip6 n
  pub iface : Bytes
  pub has_iface : (w : h.World) → h.local_iface w ≡ returns iface
  pub bridges : (c : Configuration) (w : h.World) → (h.create_host_bridge c w).1 ≡ false
  pub sets :
      (b : Bytes) (w : h.World)
      → (w' : h.World) × (h.disable_reverse_path_filtering b w ≡ returns w')
  pub forwards :
      (b p : Bytes) (w : h.World) → (w' : h.World) × (h.enable_forwarding b p w ≡ returns w')
  pub masks :
      (a m a6 m6 i : Bytes) (w : h.World)
      → (w' : h.World) × (h.enable_masquerading a m a6 m6 i w ≡ returns w')

module _ (h : Host) (v u : ℕ) (k : Answers h v u) where
  new_environment_returns :
      {V : Type 0} (proxyname : Bytes) (c : Configuration) (env : Environment V) (w : h.World)
      → new_custom (h.parse_ip c.host_bridge_ip) (h.parse_ip c.host_bridge_ipv6) ≡ returns env
      → (w' : h.World) × (new_environment h proxyname c [] w ≡ returns (w', env))
  unfolding new_environment ◌=ᵇ◌
  new_environment_returns proxyname c env w e =
      let (w2, e2) = k.sets c.host_bridge_name (h.create_host_bridge c w).0 in
      let (w3, e3) = k.forwards c.host_bridge_name proxyname w2 in
      let (w4, e4) =
        k.masks c.host_bridge_ip c.host_bridge_mask c.host_bridge_ipv6 c.host_bridge_ipv6_prefix
          k.iface w3 in
      (w4, rw (e) (rw (k.has_iface w) (rw (k.bridges c w) (rw (e2) (rw (e3) (rw (e4) refl))))))

  request_subnetwork_returns :
      (w : h.World)
      → request_subnetwork_mqtt_blocking h w ≡ ((h.request_subnet w).0, some k.response)
  unfolding request_subnetwork_mqtt_blocking
  request_subnetwork_returns w =
      rw (k.given w, request_subnetwork_mqtt_blocking) (rw (k.not_empty) refl)

  -- Where the cluster assigns a subnetwork of both versions and the host can be set up,
  -- `NewEnvironmentClusterConfigured` returns an environment whose pools account for no address in use,
  -- which is where the deployments start: the containers get the addresses of each version from the
  -- second one after that of the subnetwork on.
  pub new_environment_cluster_configured-IsAllocated :
      (V : Type 0) (proxyname : Bytes) (w : h.World)
      → v + 1 < 2 ^ 32
      → u + 1 + 1 < 2 ^ 128
      → (w' : h.World) × (env : Environment V) × (new_environment_cluster_configured h proxyname w
          ≡ returns (w', env))
        × IsAllocated (v + 1 + 1) (u + 1 + 1) env [] []
  unfolding new_environment_cluster_configured
  new_environment_cluster_configured-IsAllocated V proxyname w room4 room6 =
      let c = configuration_for h (ip4 (v + 1)) (ip6 (u + 1)) in
      let made : new_custom (h.parse_ip c.host_bridge_ip) (h.parse_ip c.host_bridge_ipv6)
          ≡ returns (first_environment V (v + 1 + 1) (u + 1 + 1)) =
        rw (k.reads_v4 (v + 1) room4) (
          rw (k.reads_v6 (u + 1) (omega (arith, room6)))
            (new_custom-ip4 V (v + 1) (u + 1) room4 room6)) in
      let (w', e) =
        new_environment_returns proxyname c (first_environment V (v + 1 + 1) (u + 1 + 1))
          (request_subnetwork_mqtt_blocking h w).0 made in
      (
        w',
        first_environment V (v + 1 + 1) (u + 1 + 1),
        rw (ap (λ r. r.1) (request_subnetwork_returns w), new_environment_cluster_configured)
            ((rw (k.is_v4, k.is_v6)
              (rw (next_ipv4-ip4 v (omega (arith, room4)))
                (rw (next_ipv6-ip6 u (omega (arith, room6))) e)))),
        first_environment-IsAllocated V (v + 1 + 1) (u + 1 + 1),
      )
