-- ===== src/Tests/DirectoryRuns.antt =====
-- The tunnel with the environment of a node.
use oakestra_net.Base.{ℕ, ◌<◌, ◌≡◌, refl, true, some, [], ◌∷◌, length, arith, returns}
use oakestra_net.Net.{Ip, addr, equal, mask}
use oakestra_net.Table.{search_by_service_ip, search_by_ns_ip}
use oakestra_net.ProxyCache.{ConversionEntry, new_proxy_cache}
use oakestra_net.ProxyCache.Invariant.{new_proxy_cache-IsValid}
use oakestra_net.Packets.{serialize_packet}
use oakestra_net.Env.{Environment}
use oakestra_net.Env.Entries.{get_table_entry_by_service_ip}
use oakestra_net.Env.Directory.{environment_manager, LeadsTo, outgoing_proxy-environment_manager}
use oakestra_net.Tunnel.{Proxy, outgoing_proxy, is_semantic, convert_to_instance_ip}
use oakestra_net.Tunnel.Outgoing.{sends, asked}
use oakestra_net.Tests.Samples.{go_packet, rand, sample_proxy, udp, packet, ns_ip}
use oakestra_net.Tests.NodeRuns.{node, cluster}

abbrev dialled : Ip
dialled = addr (10 ∷ 30 ∷ 0 ∷ 1 ∷ [])

abbrev node_proxy : Proxy (ℕ × Environment ℕ) ℕ
node_proxy = record {
  environment = (0, node);
  proxycache = new_proxy_cache;
  randseed = 0;
  proxy_ip_subnetwork = sample_proxy.proxy_ip_subnetwork;
  proxy_ipv6_subnetwork = sample_proxy.proxy_ipv6_subnetwork;
}

is_semantic_run : is_semantic node_proxy (packet (ns_ip 3) dialled) ≡ true
unfolding is_semantic mask equal
is_semantic_run = refl

is_local_run :
    convert_to_instance_ip go_packet
      (environment_manager ℕ cluster)
      rand
      (asked go_packet (environment_manager ℕ cluster) rand node_proxy (packet (ns_ip 3) dialled)).0
      (packet (ns_ip 3) dialled)
    ≡ some (addr (10 ∷ 30 ∷ 1 ∷ 3 ∷ []))
unfolding convert_to_instance_ip get_table_entry_by_service_ip search_by_service_ip search_by_ns_ip
    equal
is_local_run = refl

is_known_run :
    0
    < length
        (asked go_packet
          (environment_manager ℕ cluster)
          rand
          node_proxy
          (packet (ns_ip 3) dialled)).1
unfolding get_table_entry_by_service_ip search_by_service_ip equal
is_known_run = omega arith

cache_size_run : node_proxy.proxycache.cache_len ≡ 65536
unfolding new_proxy_cache
cache_size_run = refl

outgoing_proxy-environment_manager_example :
    (proxy' : Proxy (ℕ × Environment ℕ) ℕ) × (flow : ConversionEntry) × (outgoing_proxy go_packet
        (environment_manager ℕ cluster)
        rand
        node_proxy
        100
        (packet (ns_ip 3) dialled)
        (some (udp 40000 80))
      ≡ returns (
          sends go_packet (environment_manager ℕ cluster) rand proxy' (
            serialize_packet go_packet
              (packet (ns_ip 3) dialled)
              flow.dstip
              flow.src_instance_ip
              (udp 40000 80))))
    × LeadsTo go_packet rand ℕ cluster (0, node) dialled flow
outgoing_proxy-environment_manager_example =
    outgoing_proxy-environment_manager go_packet rand ℕ cluster node_proxy 100
      (packet (ns_ip 3) dialled) (udp 40000 80) (addr (10 ∷ 30 ∷ 1 ∷ 3 ∷ [])) is_semantic_run
      is_known_run is_local_run new_proxy_cache-IsValid cache_size_run (omega arith)
