-- ===== src/Env/Setup.antt =====
-- node-net-manager/env/EnvironmentManager.go and node-net-manager/mqtt/NetworkManagementHandlers.go: how
-- the environment of a node is made, from the subnetwork that the cluster assigns. A fatal log line ends
-- the process and is `panic` here.
pub mod Pools
use oakestra_net.Base.{
  ℕ, Bool, true, false, not, ◌||◌, Option, none, some, List, [], ◌∷◌, ◌++◌, Bytes, codes, ◌=ᵇ◌,
  if◌then◌else◌, Outcome, returns, panic, ◌>>=◌,
}
use oakestra_net.Base.Int.{ℤ, pos, negsuc}
use oakestra_net.Net.{Ip}
use oakestra_net.Network.{next_ipv4, next_ipv6}
use oakestra_net.Env.{Environment, new_custom}
use oakestra_net.Env.Kernel.{Configuration}

-- `mqttSubnetworkResponse`.
pub record SubnetworkResponse : Type 0 where
  pub address : Bytes
  pub address_v6 : Bytes

-- What a node does to set up its devices, each `true` or `panic` for an error.
pub record Host : Type 1 where
  pub World : Type 0
  pub parse_ip : Bytes → Ip
  pub ip_string : Ip → Bytes
  -- The subnetwork request, and what its channel gives within 10 seconds.
  pub request_subnet : World → World × Option SubnetworkResponse
  -- `strconv.Atoi(os.Getenv("TUN_MTU_SIZE"))`.
  pub tun_mtu_size : Option ℤ
  -- The name that `GetLocalIPandIface` returns.
  pub local_iface : World → Outcome Bytes
  pub create_host_bridge : Configuration → World → World × Bool
  -- The functions of network/Nat.go: the settings of a bridge, the rules for a bridge and a proxy, and
  -- the rules for the network of a bridge and an interface.
  pub disable_reverse_path_filtering : Bytes → World → Outcome World
  pub enable_forwarding : Bytes → Bytes → World → Outcome World
  pub enable_masquerading : Bytes → Bytes → Bytes → Bytes → Bytes → World → Outcome World

-- `subnetworkAssignmentMqttHandler`: what goes into the channel, for the decoded message, `none` for one
-- that is not valid.
abbrev pub subnetwork_assignment : Option SubnetworkResponse → SubnetworkResponse
subnetwork_assignment none = record { address = []; address_v6 = [] }
subnetwork_assignment (some r) = r

module _ (h : Host) where
  open h use {
    World, parse_ip, ip_string, request_subnet, tun_mtu_size, local_iface, create_host_bridge,
    disable_reverse_path_filtering, enable_forwarding, enable_masquerading,
  }

  -- `RequestSubnetworkMqttBlocking`, `none` for an error: a timeout, or neither address given.
  unfoldable pub request_subnetwork_mqtt_blocking : World → World × Option SubnetworkResponse
  request_subnetwork_mqtt_blocking w =
      let (w', answer) = request_subnet w in
      elim answer [
        | none ↦ (w', none)
        | some r ↦
            if not (r.address =ᵇ []) || not (r.address_v6 =ᵇ []) then (w', some r) else (w', none)
      ]

  -- `NewCustom` for an interface that is configured, or for none.
  unfoldable pub new_environment :
      {V : Type 0} → Bytes → Configuration → Bytes → World → Outcome (World × Environment V)
  new_environment proxyname c connected w =
      new_custom (parse_ip c.host_bridge_ip) (parse_ip c.host_bridge_ipv6) >>= λ env.
      (if connected =ᵇ [] then local_iface w else returns connected) >>= λ ifce.
      let (w1, failed) = create_host_bridge c w in
      elim failed [
        | true ↦ panic
        | false ↦ disable_reverse_path_filtering c.host_bridge_name w1 >>= λ w2.
            enable_forwarding c.host_bridge_name proxyname w2 >>= λ w3.
            enable_masquerading c.host_bridge_ip c.host_bridge_mask c.host_bridge_ipv6
              c.host_bridge_ipv6_prefix ifce w3
            >>= λ w4. returns (w4, env)
      ]

  -- The MTU of the environment variable, or 1450.
  abbrev pub mtu_of : Option ℤ → ℕ
  mtu_of none = 1450
  mtu_of (some (negsuc n)) = 1450
  mtu_of (some (pos n)) = n

  abbrev pub configuration_for : Ip → Ip → Configuration
  configuration_for bridge bridge_v6 = record {
    host_bridge_name = codes "goProxyBridge";
    host_bridge_ip = ip_string bridge;
    host_bridge_mask = codes "/26";
    host_bridge_ipv6 = ip_string bridge_v6;
    host_bridge_ipv6_prefix = codes "/120";
    mtusize = mtu_of tun_mtu_size;
  }

  -- `NewEnvironmentClusterConfigured`.
  unfoldable pub new_environment_cluster_configured :
      {V : Type 0} → Bytes → World → Outcome (World × Environment V)
  unfolding new_environment request_subnetwork_mqtt_blocking
  new_environment_cluster_configured proxyname w =
      let (w', response) = request_subnetwork_mqtt_blocking w in
      elim response [
        | none ↦ panic
        | some r ↦ next_ipv4 (parse_ip r.address) 1 >>= λ bridge.
            next_ipv6 (parse_ip r.address_v6) 1 >>= λ bridge_v6.
            new_environment proxyname (configuration_for bridge bridge_v6) [] w'
      ]
