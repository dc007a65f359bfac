-- ===== src/Tests/CacheRuns.antt =====
-- The proxy cache at work.
use oakestra_net.Base.{
  ◌<◌, ◌≡◌, ◌≢◌, ◌⊎◌, refl, inl, inr, false, true, ◌∷◌, ◌==◌, Bool-cases, replicate, arith, returns,
}
use oakestra_net.Base.Int.{pos}
use oakestra_net.Net.{equal, ipv4}
use oakestra_net.ProxyCache.{
  zero_conversion, ProxyCache, ConversionList, new_proxy_cache, add, retrieve_by_service_ip,
  retrieve_by_instance_ip, evict_old_entries, write_at, add_to_conversion_list, make_slots,
}
use oakestra_net.ProxyCache.Invariant.{
  IsValid, IsListValid, count_dstport, count_dstport-replicate, new_proxy_cache-IsValid,
  add-IsValid,
}
use oakestra_net.ProxyCache.Flows.{retrieve_by_service_ip-add, retrieve_by_instance_ip-add}
use oakestra_net.ProxyCache.Eviction.{IsStale, evict_old_entries_lem}
use oakestra_net.Tests.Samples.{flow_entry, ns_ip, service_ip}

small_run : 40000 < new_proxy_cache.cache_len
unfolding new_proxy_cache
small_run = omega arith

used_run : flow_entry.dstport ≢ pos 0
used_run e = ground arith

add-IsValid_example :
    (l : ConversionList) × (add_to_conversion_list new_proxy_cache.conversion_list_max_size 5
        flow_entry
        (make_slots new_proxy_cache.conversion_list_max_size (new_proxy_cache.cache 40000))
      ≡ returns l)
    × (add new_proxy_cache 5 flow_entry ≡ returns (write_at new_proxy_cache 40000 l))
    × IsValid (write_at new_proxy_cache 40000 l)
add-IsValid_example =
    add-IsValid new_proxy_cache 5 40000 flow_entry new_proxy_cache-IsValid refl small_run

-- Another source with the same two ports finds nothing.
retrieve_by_service_ip-add_example :
    (c' : ProxyCache) × (add new_proxy_cache 5 flow_entry ≡ returns c')
    × ((((equal flow_entry.srcip (ns_ip 9) ≡ true)
            × (equal flow_entry.src_instance_ip (ipv4 10 30 1 9) ≡ true)
            × (equal flow_entry.dst_service_ip service_ip ≡ true))
          × (retrieve_by_service_ip c' 7 (ns_ip 9) (ipv4 10 30 1 9) (pos 40000) service_ip (pos 80)
              ≡ returns (
                write_at c' 40000 (record (c'.cache 40000) { last_used = 7 }),
                flow_entry,
                true,
              )))
        ⊎ ((¬ (
              (equal flow_entry.srcip (ns_ip 9) ≡ true)
              × (equal flow_entry.src_instance_ip (ipv4 10 30 1 9) ≡ true)
              × (equal flow_entry.dst_service_ip service_ip ≡ true)))
            × (retrieve_by_service_ip c' 7
                  (ns_ip 9)
                  (ipv4 10 30 1 9)
                  (pos 40000)
                  service_ip
                  (pos 80)
                ≡ returns (c', zero_conversion, false))))
retrieve_by_service_ip-add_example =
    retrieve_by_service_ip-add new_proxy_cache 5 7 40000 flow_entry new_proxy_cache-IsValid refl
      small_run used_run (ns_ip 9) (ipv4 10 30 1 9) service_ip

retrieve_by_instance_ip-add_example :
    (c' : ProxyCache) × (add new_proxy_cache 5 flow_entry ≡ returns c')
    × (((equal flow_entry.srcip (ns_ip 3) ≡ true)
          × (retrieve_by_instance_ip c' 7 (ns_ip 3) (pos 40000) (pos 80)
              ≡ returns (
                write_at c' 40000 (record (c'.cache 40000) { last_used = 7 }),
                flow_entry,
                true,
              )))
        ⊎ ((equal flow_entry.srcip (ns_ip 3) ≡ false)
            × (retrieve_by_instance_ip c' 7 (ns_ip 3) (pos 40000) (pos 80)
                ≡ returns (c', zero_conversion, false))))
retrieve_by_instance_ip-add_example =
    retrieve_by_instance_ip-add new_proxy_cache 5 7 40000 flow_entry new_proxy_cache-IsValid refl
      small_run used_run (ns_ip 3)

-- A cache where the flow was last used at time 5.
abbrev used_list : ConversionList
used_list = record {
  next_entry = 1;
  last_used = 5;
  conversion_list = flow_entry ∷ replicate 9 zero_conversion;
}

abbrev used_cache : ProxyCache
used_cache = write_at new_proxy_cache 40000 used_list

used_list-IsListValid : IsListValid 10 used_list
unfolding count_dstport
used_list-IsListValid = record {
  slots = inr (refl, omega arith);
  distinct = λ d ne. ground (arith, count_dstport-replicate d 9 ne);
}

used_cache-IsValid : IsValid used_cache
unfolding new_proxy_cache
used_cache-IsValid = record {
  room = omega arith;
  lists = λ q. elim (Bool-cases (q == 40000)) [
    | inl e ↦ rw (e) used_list-IsListValid
    | inr e ↦ rw (e) (new_proxy_cache-IsValid.lists q)
  ];
}

evict_old_entries_lem_example :
    IsValid (evict_old_entries used_cache 100 60)
    × ((IsStale 100 60 (used_cache.cache 40000)
          × (retrieve_by_service_ip
                (evict_old_entries used_cache 100 60)
                101
                (ns_ip 3)
                (ipv4 10 30 1 3)
                (pos 40000)
                service_ip
                (pos 80)
              ≡ returns (evict_old_entries used_cache 100 60, zero_conversion, false))
          × (retrieve_by_instance_ip
                (evict_old_entries used_cache 100 60)
                101
                (ns_ip 3)
                (pos 40000)
                (pos 80)
              ≡ returns (evict_old_entries used_cache 100 60, zero_conversion, false)))
        ⊎ ((¬ IsStale 100 60 (used_cache.cache 40000))
            × ((evict_old_entries used_cache 100 60).cache 40000 ≡ used_cache.cache 40000)))
evict_old_entries_lem_example =
    evict_old_entries_lem used_cache 100 60 40000 101 (ns_ip 3) (ipv4 10 30 1 3) service_ip (pos 80)
      used_cache-IsValid small_run
