-- ===== src/Tests/DeployRuns.antt =====
-- The deployments and the calls in a namespace, on a system and a kernel where everything succeeds.
use mathlib.Core.Option.{some-injective}
use mathlib.Core.List.Perm
use oakestra_net.Base.{
  ℕ, ◌+◌, ◌=ᵇ◌, ◌≡◌, refl, sym, true, false, none, some, [], ◌∷◌, Bytes, codes, arith, panic, ◌⊎◌,
}
use oakestra_net.Base.Int.{pos}
use oakestra_net.Net.{octets}
use oakestra_net.Env.{Environment}
use oakestra_net.Env.Allocation.{at4, at6, IsAllocated}
use oakestra_net.Env.Deployed.{is_service_deployed}
use oakestra_net.Env.Deployed.Changes.{Deploys, Detaches, deploy_network-detach_container}
use oakestra_net.Env.Deployment.{lacks_pair, deploy_network, detach_container}
use oakestra_net.Env.Deployment.Detachment.{IsDetached, detach_container-IsDetached}
use oakestra_net.Env.Unikernel.{NamedNamespaces, deploy_unikernel}
use oakestra_net.Env.Unikernel.Allocation.{LeavesAllOne, deploy_unikernel-LeavesAllOne}
use oakestra_net.Env.Kernel.{
  Configuration, Netlink, add_peer_link_network, add_peer_link_network_by_ns_name, disable_dad,
  set_container_routes, set_ipv6_container_routes,
}
use oakestra_net.Env.Kernel.Namespaces.{NamespaceLaws, operations-current}
use oakestra_net.Tests.Samples.{samples}
use oakestra_net.Tests.NodeRuns.{first4, first6, node, node-IsAllocated, machine}

-- A node with one service, at the first address of each pool.
abbrev busy_node : Environment ℕ
busy_node = record {
  next_veth_number = 1;
  translation_table = samples;
  deployed_services =
      (
        codes "a.b.c.d",
        record {
          ip = at4 first4 0;
          ipv6 = at6 first6 0;
          sname = codes "a.b.c.d";
          portmapping = codes "80:80";
          veth = 0;
        },
      )
      ∷ [];
  pool = record { next_container_ip = at4 first4 1; tot_next_addr = 2; addr_cache = [] };
  pool_v6 = record { next_container_ip = at6 first6 1; tot_next_addr = 2; addr_cache = [] };
}

busy_node-IsAllocated : IsAllocated first4 first6 busy_node (at4 first4 0 ∷ []) (at6 first6 0 ∷ [])
busy_node-IsAllocated = record {
  v4 = record { made = 1; tot = refl; bounded = omega arith; next = refl; kept = Perm.refl _ };
  v6 = record { made = 1; tot = refl; bounded = omega arith; next = refl; kept = Perm.refl _ };
}

detach_container-IsDetached_example :
    IsDetached first4 first6
      (codes "a.b.c.d")
      (codes "a.b.c.e")
      busy_node.deployed_services
      []
      []
      (detach_container machine 0 busy_node (codes "a.b.c.d") (pos 0))
unfolding ◌=ᵇ◌
detach_container-IsDetached_example =
    detach_container-IsDetached first4 first6 (omega arith) (omega arith) (omega arith) machine 0
      busy_node (codes "a.b.c.d") (pos 0)
      (record {
        ip = at4 first4 0;
        ipv6 = at6 first6 0;
        sname = codes "a.b.c.d";
        portmapping = codes "80:80";
        veth = 0;
      })
      (codes "a.b.c.e") [] [] refl refl busy_node-IsAllocated

is_service_deployed_run :
    (is_service_deployed (codes "a.b.c.d") busy_node ≡ true)
    × (is_service_deployed (codes "a.b.c.e") busy_node ≡ false)
unfolding ◌=ᵇ◌
is_service_deployed_run = (refl, refl)

deploy_network-detach_container_example :
    Deploys machine
      (codes "a.b.c.e")
      busy_node
      (deploy_network machine 0 busy_node (pos 7) (codes "a.b.c.e") (pos 0) (codes "80:80"))
    × Detaches machine
        (machine.service_key (codes "a.b.c.e") (pos 0))
        busy_node
        (detach_container machine 0 busy_node (codes "a.b.c.e") (pos 0))
deploy_network-detach_container_example =
    deploy_network-detach_container machine 0 busy_node (pos 7) (codes "a.b.c.e") (pos 0)
      (codes "80:80")

abbrev pub namespaces : NamedNamespaces machine
namespaces = record {
  Ns = ℕ;
  instance_name = λ s i. s;
  netns_add = λ s w. (w + 1, false);
  get_from_name = λ s w. (w + 1, some 0);
  close_ns = λ n w. w + 1;
  delete_named = λ s w. w + 1;
  link_set_ns_fd = λ p n w. (w + 1, false);
  add_peer_link_network_by_ns_name = λ s a v w. (w + 1, false);
  exec_inside_ns_by_name = λ s f w. f (w + 1);
  add_bridge = λ w. (w + 1, false);
  set_bridge_address = λ w. (w + 1, false);
  add_tap = λ w. (w + 1, false);
  attach_tap = λ w. (w + 1, false);
  bridge_up = λ w. (w + 1, false);
  tap_up = λ w. (w + 1, false);
  set_default_route = λ v w. (w + 1, false);
  set_source_nat = λ v a w. (w + 1, false);
  set_destination_nat = λ v w. (w + 1, false);
}

deploy_unikernel-LeavesAllOne_example :
    ((lacks_pair machine 0 node (codes "a.b.c.d") ≡ true)
      × (deploy_unikernel machine namespaces 0 node (codes "a.b.c.d") (pos 0) (codes "80:80")
          ≡ panic))
    ⊎ ((lacks_pair machine 0 node (codes "a.b.c.d") ≡ false)
        × LeavesAllOne first4 first6 [] []
            (deploy_unikernel machine namespaces 0 node (codes "a.b.c.d") (pos 0) (codes "80:80")))
deploy_unikernel-LeavesAllOne_example =
    deploy_unikernel-LeavesAllOne first4 first6 (omega arith) (omega arith) (omega arith) machine
      namespaces 0 node (codes "a.b.c.d") (pos 0) (codes "80:80") [] [] node-IsAllocated

-- The state of this kernel is the namespace where the thread is.
abbrev kernel : Netlink
kernel = record {
  World = ℕ;
  Link = ℕ;
  Ns = ℕ;
  Addr = Bytes;
  link_by_name = λ s w. (w, some 0);
  link_add = λ p w. (w, false);
  link_set_master = λ p l w. (w, false);
  set_pair_up = λ p w. (w, false);
  link_set_up = λ l w. (w, false);
  link_del = λ p w. w;
  link_del_named = λ s w. w;
  link_set_ns_pid = λ l p w. (w, false);
  parse_addr = λ s. some s;
  addr_add = λ l a w. (w, false);
  route_add = λ l d g w. (w, true);
  netns_get = λ w. (w, some w);
  get_from_pid = λ p w. (w, some 7);
  get_from_name = λ s w. (w, none);
  netns_set = λ s w. (s, false);
  close_ns = λ s w. w;
  run_command = λ l w. (w, false);
  interfaces = λ w. some [];
  unique_hash = λ s w. s;
  itoa = λ n. [];
  ip_string = octets;
}

abbrev kernel-NamespaceLaws : NamespaceLaws kernel
kernel-NamespaceLaws = record {
  current = λ w. w;
  get_keeps = λ w. refl;
  get_current = λ w s e. sym (some-injective _ _ e);
  pid_keeps = λ p w. refl;
  name_keeps = λ s w. refl;
  close_keeps = λ s w. refl;
  set_back = λ w v s e. refl;
}

abbrev configuration : Configuration
configuration = record {
  host_bridge_name = codes "goProxyBridge";
  host_bridge_ip = codes "10.19.1.1";
  host_bridge_mask = codes "/26";
  host_bridge_ipv6 = codes "fc00::1";
  host_bridge_ipv6_prefix = codes "/120";
  mtusize = 1450;
}

operations-current_example :
    ((add_peer_link_network kernel (pos 5) (codes "10.19.1.2/26") (codes "veth1") 3).0 ≡ 3)
    × ((add_peer_link_network_by_ns_name kernel
          (codes "a")
          (codes "10.19.1.2/26")
          (codes "veth1")
          3).0
        ≡ 3)
    × ((disable_dad kernel (pos 5) (codes "veth1") 3).0 ≡ 3)
    × ((set_container_routes kernel configuration (pos 5) (codes "veth1") 3).0 ≡ 3)
    × ((set_ipv6_container_routes kernel configuration (pos 5) (codes "veth1") 3).0 ≡ 3)
operations-current_example =
    operations-current kernel kernel-NamespaceLaws configuration (pos 5) (codes "a")
      (codes "10.19.1.2/26") (codes "veth1") 3
