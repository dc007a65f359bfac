-- ===== src/Tunnel/Outgoing.antt =====
-- Outgoing packets: when they are dropped, where the others go, and that a flow stays where it is.
use oakestra_net.Base.{
  ℕ, ◌<◌, ◌≡◌, ◌⊎◌, refl, subst, inl, inr, true, false, not, ◌||◌, Option, none, some, List, length,
  find?, Bool-cases, arith, returns, if◌then◌else◌, ltb,
}
use oakestra_net.Base.Int.{pos, ◌==ℤ◌, ==ℤ_sound}
use oakestra_net.Net.{Ip}
use oakestra_net.Table.{TableEntry, is_namespace_still_valid}
use oakestra_net.ProxyCache.{ConversionEntry, is_flow, write_at, retrieve_by_service_ip}
use oakestra_net.ProxyCache.Invariant.{IsValid}
use oakestra_net.Packets.{
  GoPacket, NetworkPacket, TransportLayer, get_source_port, get_dest_port, get_dest_ip, get_src_ip,
  serialize_packet,
}
use oakestra_net.Tunnel.{
  EnvironmentManager, Rand, Proxy, below_one, find_entry, serialize, route_packet, outgoing_proxy,
  is_semantic, convert_to_instance_ip,
}
use oakestra_net.Tunnel.Found.{IsFound}
use oakestra_net.Tunnel.Flow.{find_entry-IsFound}
use oakestra_net.ProxyCache.Flows.{find?-some, is_flow_narrow}

keep_flow :
    (e : ConversionEntry) (n : ℕ) (table : List TableEntry)
    → 0 < n
    → (e.dstport ==ℤ pos n) ≡ true
    → is_namespace_still_valid e.dstip table ≡ true
    → (below_one e.dstport || not (is_namespace_still_valid e.dstip table)) ≡ false
keep_flow e n table h d a = rw (==ℤ_sound e.dstport (pos n) d) (rw a (ground arith))

module _ (g : GoPacket) (m : EnvironmentManager) (r : Rand) where
  open g use {Packet}
  open m use {Env, get_table_entry_by_service_ip}
  open r use {Rng}

  -- A translated packet and the proxy after it.
  abbrev pub sends :
      Proxy Env Rng → NetworkPacket × Option Packet → Proxy Env Rng × NetworkPacket × Option Packet
  sends proxy (ip, packet) = (proxy, ip, packet)

  -- What `GetTableEntryByServiceIP` answers for the destination of a packet.
  abbrev pub asked : Proxy Env Rng → NetworkPacket → Env × List TableEntry
  asked proxy ip = get_table_entry_by_service_ip proxy.environment (get_dest_ip ip)

  route_packet_drops :
      (proxy : Proxy Env Rng) (now : ℕ) (ip : NetworkPacket) (prot : Option TransportLayer)
      → (length (asked proxy ip).1 ≡ 0)
        ⊎ (convert_to_instance_ip g m r (asked proxy ip).0 ip ≡ none)
      → route_packet g m r proxy now ip prot
        ≡ returns (record proxy { environment = (asked proxy ip).0 }, ip, none)
  unfolding route_packet
  route_packet_drops proxy now ip prot (inl empty) =
      let e : ltb (length (asked proxy ip).1) 1 ≡ true = ground arith in rw (e, route_packet) refl
  route_packet_drops proxy now ip prot (inr foreign) =
      elim (Bool-cases (ltb (length (asked proxy ip).1) 1)) [
        | inl e ↦ rw (e, route_packet) refl
        | inr e ↦ rw (e, route_packet) (rw foreign refl)
      ]

  -- A packet is dropped, and neither it nor the cache nor the random source changes, when its
  -- destination is in no subnetwork of the proxy, when no instance of the service is known, or when
  -- its source is no local instance. In the first case the environment is not asked.
  pub outgoing_proxy_drops :
      (proxy : Proxy Env Rng) (now : ℕ) (ip : NetworkPacket) (prot : Option TransportLayer)
      → ((is_semantic proxy ip ≡ false)
          ⊎ ((length (asked proxy ip).1 ≡ 0)
              ⊎ (convert_to_instance_ip g m r (asked proxy ip).0 ip ≡ none)))
      → outgoing_proxy g m r proxy now ip prot
        ≡ returns (
          if is_semantic proxy ip then record proxy { environment = (asked proxy ip).0 } else proxy,
          ip,
          none,
        )
  unfolding outgoing_proxy
  outgoing_proxy_drops proxy now ip prot (inl outside) = rw outside refl
  outgoing_proxy_drops proxy now ip prot (inr h) = elim (Bool-cases (is_semantic proxy ip)) [
    | inl inside ↦ rw inside (route_packet_drops proxy now ip prot h)
    | inr outside ↦ rw outside refl
  ]

  module _ (proxy : Proxy Env Rng) (now : ℕ) (ip : NetworkPacket) (t : TransportLayer) (inst : Ip)
      (semantic : is_semantic proxy ip ≡ true) (known : 0 < length (asked proxy ip).1)
      (local : convert_to_instance_ip g m r (asked proxy ip).0 ip ≡ some inst) where
    outgoing_by_entry :
        (e : ConversionEntry) (proxy' : Proxy Env Rng)
        → find_entry g m r
            (record proxy { environment = (asked proxy ip).0 })
            now
            ip
            (pos (get_source_port t))
            (pos (get_dest_port t))
            inst
            (asked proxy ip).1
          ≡ returns (proxy', e)
        → outgoing_proxy g m r proxy now ip (some t)
          ≡ returns (sends proxy' (serialize_packet g ip e.dstip e.src_instance_ip t))
    unfolding outgoing_proxy serialize
    outgoing_by_entry e proxy' eq =
        let some_instance : ltb (length (asked proxy ip).1) 1 ≡ false = ground arith in
        rw (semantic) (rw (some_instance, route_packet) (rw local (rw eq refl)))

    -- A packet from a local instance to a known service is sent on, with no panic: its destination
    -- becomes a namespace address of an instance in the service's list, its source the address of
    -- the flow's instance, and the cache stays valid and of its size. Where the destination port is not
    -- 0, the cache holds the flow.
    pub outgoing_proxy_routes :
        IsValid proxy.proxycache
        → proxy.proxycache.cache_len ≡ 65536
        → get_source_port t < 65536
        → (proxy' : Proxy Env Rng) × (entry : ConversionEntry) × (outgoing_proxy g m r proxy now ip
              (some t)
            ≡ returns (sends proxy' (serialize_packet g ip entry.dstip entry.src_instance_ip t)))
          × IsFound 65536
              (get_source_port t)
              (get_src_ip ip)
              inst
              (get_dest_ip ip)
              (pos (get_dest_port t))
              (asked proxy ip).1
              proxy'
              entry
    outgoing_proxy_routes valid size port =
        let (proxy', e, eq, found) =
          find_entry-IsFound g m r (record proxy { environment = (asked proxy ip).0 }) now
            (get_source_port t) ip (pos (get_dest_port t)) inst (asked proxy ip).1 valid
            (omega arith) known in
        (
          proxy',
          e,
          outgoing_by_entry e proxy' eq,
          subst
              (λ n.
                IsFound n (get_source_port t) (get_src_ip ip) inst (get_dest_ip ip)
                  (pos (get_dest_port t)) (asked proxy ip).1 proxy' e)
              size found,
        )

    -- A packet of a flow that is stored, with a destination port above 0, goes where the flow went before,
    -- with nothing drawn at random, as long as the flow's destination is in the list of the service.
    pub outgoing_proxy_sticky :
        (e : ConversionEntry)
        → get_source_port t < proxy.proxycache.cache_len
        → 0 < get_dest_port t
        → find?
            (is_flow (get_src_ip ip) inst (get_dest_ip ip) (pos (get_dest_port t)))
            (proxy.proxycache.cache (get_source_port t)).conversion_list
          ≡ some e
        → is_namespace_still_valid e.dstip (asked proxy ip).1 ≡ true
        → (proxy' : Proxy Env Rng) × (outgoing_proxy g m r proxy now ip (some t)
            ≡ returns (sends proxy' (serialize_packet g ip e.dstip e.src_instance_ip t)))
          × (proxy'.randseed ≡ proxy.randseed)
          × (proxy'.environment ≡ (asked proxy ip).0)
    unfolding find_entry retrieve_by_service_ip
    outgoing_proxy_sticky e small used there alive =
        let in_range : ltb (get_source_port t) proxy.proxycache.cache_len ≡ true = ground arith in
        let test = is_flow (get_src_ip ip) inst (get_dest_ip ip) (pos (get_dest_port t)) in
        let flow =
          find?-some test (proxy.proxycache.cache (get_source_port t)).conversion_list e there in
        let keep : (below_one e.dstport
              || not (is_namespace_still_valid e.dstip (asked proxy ip).1))
            ≡ false =
          keep_flow e (get_dest_port t) (asked proxy ip).1 used
            (is_flow_narrow (get_src_ip ip) inst (get_dest_ip ip) (pos (get_dest_port t)) e flow)
            alive in
        let proxy' : Proxy Env Rng = record proxy {
          environment = (asked proxy ip).0;
          proxycache =
              write_at proxy.proxycache (get_source_port t)
                (record (proxy.proxycache.cache (get_source_port t)) { last_used = now });
        } in
        (proxy', outgoing_by_entry e proxy' (rw in_range (rw there (rw keep refl))), refl, refl)
