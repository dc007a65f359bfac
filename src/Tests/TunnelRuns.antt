-- ===== src/Tests/TunnelRuns.antt =====
-- The tunnel at work.
use oakestra_net.Base.{ℕ, ◌<◌, ◌≡◌, refl, true, false, some, [], ◌∷◌, length, arith, find?, returns}
use oakestra_net.Base.Int.{pos}
use oakestra_net.Net.{Ip, addr, equal, ipv4, mask}
use oakestra_net.Table.{
  TableManager, search_by_service_ip, search_by_ns_ip, is_namespace_still_valid,
}
use oakestra_net.ProxyCache.{ConversionEntry, new_proxy_cache, is_flow, write_at}
use oakestra_net.ProxyCache.Invariant.{new_proxy_cache-IsValid}
use oakestra_net.Packets.{serialize_packet, get_dest_ip, get_src_ip}
use oakestra_net.Tunnel.{Proxy, outgoing_proxy, is_semantic, convert_to_instance_ip}
use oakestra_net.Tunnel.Found.{IsFound}
use oakestra_net.Tunnel.Outgoing.{sends, asked, outgoing_proxy_routes, outgoing_proxy_sticky}
use oakestra_net.Tunnel.Replies.{ingoing_proxy-outgoing_proxy}
use oakestra_net.Tests.Samples.{
  go_packet, samples, manager, rand, sample_proxy, udp, packet, ns_ip, flow_entry,
}

abbrev dialled : Ip
dialled = addr (10 ∷ 30 ∷ 0 ∷ 1 ∷ [])

is_semantic_run : is_semantic sample_proxy (packet (ns_ip 3) dialled) ≡ true
unfolding is_semantic mask equal
is_semantic_run = refl

is_local_run :
    convert_to_instance_ip go_packet manager rand
      (asked go_packet manager rand sample_proxy (packet (ns_ip 3) dialled)).0
      (packet (ns_ip 3) dialled)
    ≡ some (addr (10 ∷ 30 ∷ 1 ∷ 3 ∷ []))
unfolding convert_to_instance_ip search_by_ns_ip equal
is_local_run = refl

is_known_run : 0 < length (asked go_packet manager rand sample_proxy (packet (ns_ip 3) dialled)).1
unfolding search_by_service_ip equal
is_known_run = omega arith

pub cache_size_run : sample_proxy.proxycache.cache_len ≡ 65536
unfolding new_proxy_cache
cache_size_run = refl

outgoing_proxy_routes_example :
    (proxy' : Proxy TableManager ℕ) × (entry : ConversionEntry) × (outgoing_proxy go_packet manager
        rand sample_proxy 100
        (packet (ns_ip 3) dialled)
        (some (udp 40000 80))
      ≡ returns (
          sends go_packet manager rand proxy' (
            serialize_packet go_packet
              (packet (ns_ip 3) dialled)
              entry.dstip
              entry.src_instance_ip
              (udp 40000 80))))
    × IsFound 65536 40000
        (ns_ip 3)
        (addr (10 ∷ 30 ∷ 1 ∷ 3 ∷ []))
        dialled
        (pos 80)
        (asked go_packet manager rand sample_proxy (packet (ns_ip 3) dialled)).1
        proxy'
        entry
outgoing_proxy_routes_example =
    outgoing_proxy_routes go_packet manager rand sample_proxy 100 (packet (ns_ip 3) dialled)
      (udp 40000 80) (addr (10 ∷ 30 ∷ 1 ∷ 3 ∷ [])) is_semantic_run is_known_run is_local_run
      new_proxy_cache-IsValid cache_size_run (omega arith)

same_address_run :
    equal (get_dest_ip (packet (ns_ip 4) (ns_ip 3))) (get_src_ip (packet (ns_ip 3) dialled)) ≡ true
unfolding equal
same_address_run = refl

ingoing_proxy-outgoing_proxy_example :
    equal
      (ingoing_proxy-outgoing_proxy go_packet manager rand sample_proxy 100 101
        (packet (ns_ip 3) dialled)
        (packet (ns_ip 4) (ns_ip 3))
        (udp 40000 80)
        (udp 80 40000)
        (addr (10 ∷ 30 ∷ 1 ∷ 3 ∷ []))
        new_proxy_cache-IsValid
        cache_size_run
        (omega arith)
        (omega arith)
        is_semantic_run
        is_known_run
        is_local_run
        refl
        refl
        same_address_run).2.dst_service_ip
      dialled
    ≡ true
ingoing_proxy-outgoing_proxy_example =
    (ingoing_proxy-outgoing_proxy go_packet manager rand sample_proxy 100 101
      (packet (ns_ip 3) dialled) (packet (ns_ip 4) (ns_ip 3)) (udp 40000 80) (udp 80 40000)
      (addr (10 ∷ 30 ∷ 1 ∷ 3 ∷ [])) new_proxy_cache-IsValid cache_size_run (omega arith)
      (omega arith) is_semantic_run is_known_run is_local_run refl refl same_address_run).7

-- The flow is stored, and its destination, instance 4, lives.
abbrev busy_proxy : Proxy TableManager ℕ
busy_proxy = record sample_proxy {
  proxycache =
      write_at sample_proxy.proxycache 40000
        (record { next_entry = 1; last_used = 90; conversion_list = flow_entry ∷ [] });
}

is_semantic_busy_run : is_semantic busy_proxy (packet (ns_ip 3) dialled) ≡ true
unfolding is_semantic mask equal
is_semantic_busy_run = refl

stored_run :
    find? (is_flow (ns_ip 3) (addr (10 ∷ 30 ∷ 1 ∷ 3 ∷ [])) dialled (pos 80)) (flow_entry ∷ [])
    ≡ some flow_entry
unfolding equal
stored_run = refl

living_run :
    is_namespace_still_valid
      (ns_ip 4)
      (asked go_packet manager rand sample_proxy (packet (ns_ip 3) dialled)).1
    ≡ true
unfolding is_namespace_still_valid search_by_service_ip equal
living_run = refl

outgoing_proxy_sticky_example :
    (proxy' : Proxy TableManager ℕ) × (outgoing_proxy go_packet manager rand busy_proxy 100
        (packet (ns_ip 3) dialled)
        (some (udp 40000 80))
      ≡ returns (
          sends go_packet manager rand proxy' (
            serialize_packet go_packet
              (packet (ns_ip 3) dialled)
              (ns_ip 4)
              (ipv4 10 30 1 3)
              (udp 40000 80))))
    × (proxy'.randseed ≡ 1)
    × (proxy'.environment ≡ samples)
outgoing_proxy_sticky_example =
    outgoing_proxy_sticky go_packet manager rand busy_proxy 100 (packet (ns_ip 3) dialled)
      (udp 40000 80) (addr (10 ∷ 30 ∷ 1 ∷ 3 ∷ [])) is_semantic_busy_run is_known_run is_local_run
      flow_entry (unfold new_proxy_cache in omega arith) (omega arith) stored_run living_run

outside_run : is_semantic sample_proxy (packet (ns_ip 3) (ns_ip 4)) ≡ false
unfolding is_semantic mask equal
outside_run = refl
