-- ===== src/Env/Kernel.antt =====
-- node-net-manager/env/EnvironmentManager.go: what the environment does with the links, namespaces
-- and routes of the kernel, down to the calls of netlink, netns and os/exec, which are the parameter
-- `Netlink`. A result `true` stands for an error.
pub mod Namespaces
pub mod Bridge
pub mod Machine
use oakestra_net.Base.{
  ℕ, ◌+◌, Bool, true, false, Option, none, some, List, [], ◌∷◌, ◌++◌, Bytes, ◌=ᵇ◌, codes,
}
use oakestra_net.Base.Int.{ℤ}
use oakestra_net.Net.{Ip}
use oakestra_net.Network.Ports.{PacketFilter, open_ports, close_ports, manage_container_ports}
use oakestra_net.Env.Deployment.{System, try_all}

-- `Configuration`, as far as these functions read it; the addresses are text.
pub record Configuration : Type 0 where
  pub host_bridge_name : Bytes
  pub host_bridge_ip : Bytes
  pub host_bridge_mask : Bytes
  pub host_bridge_ipv6 : Bytes
  pub host_bridge_ipv6_prefix : Bytes
  pub mtusize : ℕ

-- `netlink.Veth` with the fields that are set.
pub record VethPair : Type 0 where
  pub name : Bytes
  pub mtu : ℕ
  pub peer_name : Bytes

pub record Netlink : Type 1 where
  pub World : Type 0
  pub Link : Type 0
  pub Ns : Type 0
  pub Addr : Type 0
  pub link_by_name : Bytes → World → World × Option Link
  pub link_add : VethPair → World → World × Bool
  pub link_set_master : VethPair → Link → World → World × Bool
  pub set_pair_up : VethPair → World → World × Bool
  pub link_set_up : Link → World → World × Bool
  -- `LinkDel` of a pair, which may be nil, and of the link with a name.
  pub link_del : Option VethPair → World → World
  pub link_del_named : Bytes → World → World
  pub link_set_ns_pid : Link → ℤ → World → World × Bool
  pub parse_addr : Bytes → Option Addr
  pub addr_add : Link → Addr → World → World × Bool
  -- `RouteAdd` by a link to a destination through a gateway, all parsed first.
  pub route_add : Link → Bytes → Bytes → World → World × Bool
  pub netns_get : World → World × Option Ns
  pub get_from_pid : ℤ → World → World × Option Ns
  pub get_from_name : Bytes → World → World × Option Ns
  pub netns_set : Ns → World → World × Bool
  pub close_ns : Ns → World → World
  -- `exec.Command(...).Run()`, and `Output()` where only the error is looked at.
  pub run_command : List Bytes → World → World × Bool
  -- `net.Interfaces()`: the names, `none` for an error.
  pub interfaces : World → Option (List Bytes)
  -- `network.NameUniqueHash(sname, 4)`, which depends on the time.
  pub unique_hash : Bytes → World → Bytes
  -- `strconv.Itoa` and `ip.String()`.
  pub itoa : ℕ → Bytes
  pub ip_string : Ip → Bytes

module _ (k : Netlink) where
  open k use {
    World, Link, Ns, link_by_name, link_add, link_set_master, set_pair_up, link_set_up, link_del,
    link_del_named, link_set_ns_pid, parse_addr, addr_add, route_add, netns_get, get_from_pid,
    get_from_name, netns_set, close_ns, run_command, interfaces, unique_hash, itoa, ip_string,
  }

  -- `execInsideNs` and `execInsideNsByName`, for what finds the namespace. The deferred calls run in
  -- the opposite order on every way out; the handle of the found namespace is not closed.
  unfoldable pub exec_inside :
      (World → World × Option Ns) → (World → World × Bool) → World → World × Bool
  exec_inside find_ns function w =
      let (w1, std) = netns_get w in
      elim std [
        | none ↦ (w1, true)
        | some s ↦
            let (w2, found) = find_ns w1 in
            elim found [
              | none ↦ (close_ns s w2, true)
              | some ns ↦
                  let (w3, failed) = netns_set ns w2 in
                  elim failed [
                    | true ↦ (close_ns s (netns_set s w3).0, true)
                    | false ↦ let (w4, err) = function w3 in (close_ns s (netns_set s w4).0, err)
                  ]
            ]
      ]

  abbrev pub exec_inside_ns : ℤ → (World → World × Bool) → World → World × Bool
  exec_inside_ns pid function w = exec_inside (get_from_pid pid) function w

  abbrev pub exec_inside_ns_by_name : Bytes → (World → World × Bool) → World → World × Bool
  exec_inside_ns_by_name name function w = exec_inside (get_from_name name) function w

  -- A call on the link with a name, which is an error where there is none.
  abbrev pub with_link : Bytes → (Link → World → World × Bool) → World → World × Bool
  with_link name call w =
      let (w', link) = link_by_name name w in elim link [ none ↦ (w', true) | some l ↦ call l w' ]

  -- The function that `addPeerLinkNetwork` and `addPeerLinkNetworkByNsName` run in the namespace.
  abbrev pub set_address : k.Addr → Bytes → World → World × Bool
  set_address address name w =
      with_link name (λ l. try_all (addr_add l address ∷ link_set_up l ∷ [])) w

  unfoldable pub add_peer_link_network : ℤ → Bytes → Bytes → World → World × Bool
  unfolding exec_inside
  add_peer_link_network nspid text name w = elim (parse_addr text) [
    | none ↦ (w, true)
    | some address ↦ exec_inside_ns nspid (set_address address name) w
  ]

  unfoldable pub add_peer_link_network_by_ns_name : Bytes → Bytes → Bytes → World → World × Bool
  unfolding exec_inside
  add_peer_link_network_by_ns_name ns_name text name w = elim (parse_addr text) [
    | none ↦ (w, true)
    | some address ↦ exec_inside_ns_by_name ns_name (set_address address name) w
  ]

  -- The function that `disableDAD` runs in the namespace.
  abbrev pub dad_commands : Bytes → World → World × Bool
  dad_commands name w =
      try_all
        (run_command (codes "sysctl" ∷ codes "-w" ∷ codes "net.ipv6.conf.default.accept_dad=0" ∷ [])
          ∷ run_command (
              codes "sysctl"
              ∷ codes "-w"
              ∷ (codes "net.ipv6.conf." ++ name ++ codes ".accept_dad=0")
              ∷ [])
          ∷ [])
        w

  unfoldable pub disable_dad : ℤ → Bytes → World → World × Bool
  unfolding exec_inside
  disable_dad pid name w = exec_inside_ns pid (dad_commands name) w

  -- The function that sets a route in the namespace.
  abbrev pub add_route : Bytes → Bytes → Bytes → World → World × Bool
  add_route destination gateway peer w = with_link peer (λ l. route_add l destination gateway) w

  module _ (c : Configuration) where
    unfoldable pub set_container_routes : ℤ → Bytes → World → World × Bool
    unfolding exec_inside
    set_container_routes pid peer w =
        exec_inside_ns pid (add_route (codes "0.0.0.0/0") c.host_bridge_ip peer) w

    unfoldable pub set_ipv6_container_routes : ℤ → Bytes → World → World × Bool
    unfolding exec_inside
    set_ipv6_container_routes pid peer w =
        exec_inside_ns pid (add_route (codes "::/0") c.host_bridge_ipv6 peer) w

    unfoldable pub set_veth_firewall_rules : Bytes → World → World × Bool
    set_veth_firewall_rules name w =
        try_all
          (run_command (
              codes "iptables"
              ∷ codes "-A"
              ∷ codes "FORWARD"
              ∷ codes "-o"
              ∷ c.host_bridge_name
              ∷ codes "-i"
              ∷ name
              ∷ codes "-j"
              ∷ codes "ACCEPT"
              ∷ [])
            ∷ run_command (
                codes "iptables"
                ∷ codes "-A"
                ∷ codes "FORWARD"
                ∷ codes "-i"
                ∷ c.host_bridge_name
                ∷ codes "-o"
                ∷ name
                ∷ codes "-j"
                ∷ codes "ACCEPT"
                ∷ [])
            ∷ [])
          w

    -- The pair of `createVethsPairAndAttachToBridge`.
    abbrev pub new_pair : World → ℕ → Bytes → VethPair
    new_pair w number sname =
        let hashed_name = unique_hash sname w in
        record {
          name = codes "veth" ++ codes "00" ++ itoa number ++ hashed_name;
          mtu = c.mtusize;
          peer_name = codes "veth" ++ codes "01" ++ itoa number ++ hashed_name;
        }

    -- The pair is nil on every error, also on those after it was added.
    unfoldable pub create_veths_pair : World → ℕ → Bytes → World × Option VethPair × Bool
    create_veths_pair w number sname =
        let (w1, bridge) = link_by_name c.host_bridge_name w in
        elim bridge [
          | none ↦ (w1, none, true)
          | some b ↦
              let veth = new_pair w1 number sname in
              let (w2, failed) =
                try_all (link_add veth ∷ link_set_master veth b ∷ set_pair_up veth ∷ []) w1 in
              elim failed [ true ↦ (w2, none, true) | false ↦ (w2, some veth, false) ]
        ]
