-- ===== src/Env/Kernel/Machine.antt =====
-- The calls of the kernel as the `System` that the deployment takes: the functions of
-- EnvironmentManager.go and of network/Nat.go behind one interface.
use oakestra_net.Base.{Bool, Option, none, some, [], ◌++◌, Bytes}
use oakestra_net.Base.Int.{ℤ}
use oakestra_net.Network.Ports.{
  PortOperation, Rule, PacketFilter, open_ports, close_ports, manage_container_ports,
}
use oakestra_net.Env.Deployment.{System}
use oakestra_net.Env.Kernel.{
  Configuration, VethPair, Netlink, add_peer_link_network, disable_dad, set_container_routes,
  set_ipv6_container_routes, set_veth_firewall_rules, create_veths_pair,
}

-- `vethIfce.Name` and `vethIfce.PeerName`; the callers have a pair where they read them.
abbrev pub name_of : Option VethPair → Bytes
name_of none = []
name_of (some v) = v.name

abbrev pub peer_name_of : Option VethPair → Bytes
peer_name_of none = []
peer_name_of (some v) = v.peer_name

module _ (k : Netlink) (c : Configuration) (atoi : Bytes → Option ℤ)
    (change_v4 change_v6 : PortOperation → Rule → k.World → k.World × Bool)
    (service_key : Bytes → ℤ → Bytes) (is_interest_registered : k.World → Bytes → Bool) where
  abbrev pub packet_filter : PacketFilter
  packet_filter = record {
    World = k.World;
    atoi = atoi;
    ip_string = k.ip_string;
    change_v4 = change_v4;
    change_v6 = change_v6;
  }

  abbrev pub kernel_system : System
  kernel_system = record {
    World = k.World;
    Veth = Option VethPair;
    create_veths_pair = create_veths_pair k c;
    link_del = k.link_del;
    Peer = k.Link;
    link_by_name = λ v w. k.link_by_name (peer_name_of v) w;
    link_set_ns_pid = k.link_set_ns_pid;
    address_text = λ ip. k.ip_string ip ++ c.host_bridge_mask;
    address_text_v6 = λ ip. k.ip_string ip ++ c.host_bridge_ipv6_prefix;
    add_peer_link_network = λ pid text v w. add_peer_link_network k pid text (peer_name_of v) w;
    disable_dad = λ pid v w. disable_dad k pid (peer_name_of v) w;
    set_container_routes = λ pid v w. set_container_routes k c pid (peer_name_of v) w;
    set_ipv6_container_routes = λ pid v w. set_ipv6_container_routes k c pid (peer_name_of v) w;
    set_veth_firewall_rules = λ v w. set_veth_firewall_rules k c (name_of v) w;
    open_ports = λ ip text w. manage_container_ports packet_filter ip text open_ports w;
    close_ports = λ ip text w. (manage_container_ports packet_filter ip text close_ports w).0;
    service_key = service_key;
    is_interest_registered = is_interest_registered;
  }
