-- ===== src/Env/Unikernel.antt =====
-- node-net-manager/env/UnikernelNetDeployment.go: the network of a unikernel, in a namespace of its
-- own with a bridge and a tap device. The calls of the kernel that a container does not need are the
-- parameter `NamedNamespaces`.
pub mod Allocation
use oakestra_net.Base.{
  ℕ, ◌+◌, Bool, true, false, Option, none, some, List, [], ◌∷◌, Bytes, Outcome, returns, panic,
  ◌>>=◌,
}
use oakestra_net.Base.Int.{ℤ}
use oakestra_net.Net.{Ip, nil}
use oakestra_net.Table.{remove_by_nsip}
use oakestra_net.Env.{
  Environment, Service, generate_address, free_container_address, book_veth_number,
}
use oakestra_net.Env.Deployment.{System, try_all, get_service, delete_service}

pub record NamedNamespaces (y : System) : Type 1 where
  pub Ns : Type 0
  -- `fmt.Sprintf("%s.instance.%d", sname, instance)`.
  pub instance_name : Bytes → ℤ → Bytes
  -- `ip netns add`.
  pub netns_add : Bytes → y.World → y.World × Bool
  -- `netns.GetFromName`, and `Close` of what it returned.
  pub get_from_name : Bytes → y.World → y.World × Option Ns
  pub close_ns : Ns → y.World → y.World
  -- `netns.DeleteNamed`, whose error is logged or dropped.
  pub delete_named : Bytes → y.World → y.World
  pub link_set_ns_fd : y.Peer → Ns → y.World → y.World × Bool
  pub add_peer_link_network_by_ns_name : Bytes → Bytes → y.Veth → y.World → y.World × Bool
  -- `execInsideNsByName`.
  pub exec_inside_ns_by_name : Bytes → (y.World → y.World × Bool) → y.World → y.World × Bool
  -- The calls inside the namespace: the bridge, its address, the tap, and the tap's master.
  pub add_bridge : y.World → y.World × Bool
  pub set_bridge_address : y.World → y.World × Bool
  pub add_tap : y.World → y.World × Bool
  pub attach_tap : y.World → y.World × Bool
  pub bridge_up : y.World → y.World × Bool
  pub tap_up : y.World → y.World × Bool
  -- The default route by the host's bridge, its destination parsed first.
  pub set_default_route : y.Veth → y.World → y.World × Bool
  -- The two rules of `iptables` that lead packets to the unikernel and from it.
  pub set_source_nat : y.Veth → Ip → y.World → y.World × Bool
  pub set_destination_nat : y.Veth → y.World → y.World × Bool

module _ (y : System) (n : NamedNamespaces y) where
  open y use {
    World, Veth, create_veths_pair, link_del, link_by_name, address_text, set_veth_firewall_rules,
    open_ports, close_ports,
  }
  open n use {
    instance_name, netns_add, get_from_name, close_ns, delete_named, link_set_ns_fd,
    add_peer_link_network_by_ns_name, exec_inside_ns_by_name, add_bridge, set_bridge_address,
    add_tap, attach_tap, bridge_up, tap_up, set_default_route, set_source_nat, set_destination_nat,
  }

  -- The function that runs inside the namespace. Where the tap cannot be attached it returns `err`,
  -- which is nil there, so the calls after it are left out and the result is a success.
  unfoldable pub set_up_inside : Veth → Ip → World → World × Bool
  set_up_inside veth ip w =
      let (w1, failed) = try_all (add_bridge ∷ set_bridge_address ∷ add_tap ∷ []) w in
      elim failed [
        | true ↦ (w1, true)
        | false ↦
            let (w2, not_attached) = attach_tap w1 in
            elim not_attached [
              | true ↦ (w2, false)
              | false ↦
                  try_all
                    (bridge_up
                      ∷ tap_up
                      ∷ set_default_route veth
                      ∷ set_source_nat veth ip
                      ∷ set_destination_nat veth
                      ∷ [])
                    w2
            ]
      ]

  -- The function `cleanup` once there is a namespace.
  abbrev pub cleanup : Bytes → n.Ns → Veth → World → World
  cleanup sname ns veth w = delete_named sname (close_ns ns (link_del veth w))

  -- The error path with an address.
  abbrev pub undo_unikernel :
      World → Environment Veth → Bytes → n.Ns → Veth → Ip → World × Environment Veth × Option Ip
  undo_unikernel w env sname ns veth ip =
      (cleanup sname ns veth w, free_container_address env ip, none)

  abbrev pub record_unikernel :
      Environment Veth → Bytes → Bytes → Bytes → Veth → Ip → Environment Veth
  record_unikernel env name sname portmapping veth ip = record env {
    deployed_services =
        (
          sname,
          record { ip = ip; ipv6 = nil; sname = name; portmapping = portmapping; veth = veth },
        )
        ∷ env.deployed_services;
  }

  -- The calls of `DeployNetwork` on the namespace, and those after `BookVethNumber`.
  abbrev pub namespace_steps : Bytes → Veth → Ip → List (World → World × Bool)
  namespace_steps sname veth ip =
      add_peer_link_network_by_ns_name sname (address_text ip) veth
      ∷ exec_inside_ns_by_name sname (set_up_inside veth ip)
      ∷ []

  abbrev pub unikernel_rules : Bytes → Veth → Ip → List (World → World × Bool)
  unikernel_rules portmapping veth ip =
      set_veth_firewall_rules veth ∷ open_ports ip portmapping ∷ []

  -- `DeployNetwork` from the point where the address is known.
  unfoldable pub configure_unikernel :
      World
      → Environment Veth
      → Bytes
      → Bytes
      → Bytes
      → n.Ns
      → Veth
      → Ip
      → World × Environment Veth × Option Ip
  unfolding set_up_inside
  configure_unikernel w env name sname portmapping ns veth ip =
      let (w1, failed) = try_all (namespace_steps sname veth ip) w in
      elim failed [
        | true ↦ undo_unikernel w1 env sname ns veth ip
        | false ↦
            let booked = book_veth_number env in
            let (w2, failed') = try_all (unikernel_rules portmapping veth ip) w1 in
            elim failed' [
              | true ↦ undo_unikernel w2 booked sname ns veth ip
              | false ↦ (w2, record_unikernel booked name sname portmapping veth ip, some ip)
            ]
      ]

  -- `DeployNetwork` from the point where there is a namespace.
  unfoldable pub join_namespace :
      World
      → Environment Veth
      → Bytes
      → Bytes
      → Bytes
      → n.Ns
      → Veth
      → y.Peer
      → Outcome (World × Environment Veth × Option Ip)
  unfolding configure_unikernel
  join_namespace w env name sname portmapping ns veth peer =
      let (w1, failed) = link_set_ns_fd peer ns w in
      elim failed [
        | true ↦ returns (cleanup sname ns veth w1, env, none)
        | false ↦ generate_address env >>= λ (env', address). elim address [
          | none ↦ returns (cleanup sname ns veth w1, env', none)
          | some ip ↦ returns (configure_unikernel w1 env' name sname portmapping ns veth ip)
        ]
      ]

  -- `DeployNetwork`: the address of the unikernel, or `none` for an error. The address for IPv6 is
  -- always nil. If the new namespace is not found, nothing is taken back. Where there is no pair,
  -- `cleanup` passes the nil pair to `LinkDel`, which reads its attributes and panics.
  unfoldable pub deploy_unikernel :
      World → Environment Veth → Bytes → ℤ → Bytes → Outcome (World × Environment Veth × Option Ip)
  unfolding join_namespace
  deploy_unikernel w env name instancenumber portmapping =
      let sname = instance_name name instancenumber in
      let (w1, veth, no_pair) = create_veths_pair w env.next_veth_number sname in
      elim no_pair [
        | true ↦ panic
        | false ↦
            let (w2, link) = link_by_name veth w1 in
            elim link [
              | none ↦ returns (link_del veth w2, env, none)
              | some peer ↦
                  let (w3, failed) = netns_add sname w2 in
                  elim failed [
                    | true ↦ returns (link_del veth w3, env, none)
                    | false ↦
                        let (w4, found) = get_from_name sname w3 in
                        elim found [
                          | none ↦ returns (w4, env, none)
                          | some ns ↦ join_namespace w4 env name sname portmapping ns veth peer
                        ]
                  ]
            ]
      ]

  -- `DeleteUnikernelNamespace`; nothing happens for a name that is not deployed.
  unfoldable pub delete_unikernel_namespace :
      World → Environment Veth → Bytes → ℤ → Outcome (World × Environment Veth)
  delete_unikernel_namespace w env sname instancenumber =
      let name = instance_name sname instancenumber in
      elim (get_service name env.deployed_services) [
        | none ↦ returns (w, env)
        | some s ↦ remove_by_nsip env.translation_table s.ip >>= λ (table, err).
            let removed = record env {
              translation_table = table;
              deployed_services = delete_service name env.deployed_services;
            } in
            returns (
              delete_named name (link_del s.veth (close_ports s.ip s.portmapping w)),
              free_container_address removed s.ip,
            )
      ]
