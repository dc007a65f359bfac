-- ===== src/Tunnel/Replies.antt =====
-- Ingoing packets: the reply to a packet that went out comes back as from the service.
use mathlib.Core.Path.{fun_ext}
use oakestra_net.Base.{
  ℕ, ◌<◌, ◌≡◌, refl, ap, ◌∙◌, true, ◌&&◌, some, length, find?, arith, returns, ltb,
}
use oakestra_net.Base.Int.{ℤ, pos, ◌==ℤ◌}
use oakestra_net.Net.{Ip, equal}
use oakestra_net.Net.Equal.{equal_comm, equal_congr}
use oakestra_net.Table.{is_namespace_still_valid}
use oakestra_net.ProxyCache.{ConversionEntry, is_reply, write_at, retrieve_by_instance_ip}
use oakestra_net.ProxyCache.Invariant.{IsValid}
use oakestra_net.Packets.{
  GoPacket, NetworkPacket, TransportLayer, get_source_port, get_dest_port, get_dest_ip, get_src_ip,
  serialize_packet,
}
use oakestra_net.Tunnel.{
  EnvironmentManager, Rand, Proxy, serialize, outgoing_proxy, ingoing_proxy, is_semantic,
  convert_to_instance_ip,
}
use oakestra_net.Tunnel.Outgoing.{sends, asked, outgoing_proxy_routes}

-- The test for a reply does not tell equal addresses apart.
is_reply_congr : (a b : Ip) (d : ℤ) → equal a b ≡ true → is_reply a d ≡ is_reply b d
is_reply_congr a b d h = fun_ext λ e.
    ap (λ t. e.dstport ==ℤ d && t)
      (equal_comm e.srcip a ∙ equal_congr a b e.srcip h ∙ equal_comm b e.srcip)

module _ (g : GoPacket) (m : EnvironmentManager) (r : Rand) where
  open m use {Env}
  open r use {Rng}

  ingoing_by_entry :
      (proxy : Proxy Env Rng) (later : ℕ) (ip : NetworkPacket) (t : TransportLayer)
      (e : ConversionEntry)
      → get_dest_port t < proxy.proxycache.cache_len
      → find?
          (is_reply (get_dest_ip ip) (pos (get_source_port t)))
          (proxy.proxycache.cache (get_dest_port t)).conversion_list
        ≡ some e
      → (proxy' : Proxy Env Rng) × (ingoing_proxy g m r proxy later ip (some t)
          ≡ returns (sends g m r proxy' (serialize_packet g ip e.srcip e.dst_service_ip t)))
  unfolding ingoing_proxy retrieve_by_instance_ip serialize
  ingoing_by_entry proxy later ip t e small there =
      let in_range : ltb (get_dest_port t) proxy.proxycache.cache_len ≡ true = ground arith in
      (
        record proxy {
          proxycache =
              write_at proxy.proxycache (get_dest_port t)
                (record (proxy.proxycache.cache (get_dest_port t)) { last_used = later });
        },
        rw in_range (rw there refl),
      )

  -- A packet of a local instance to a service goes out to the namespace address of an instance in the
  -- service's list; the reply, which comes
  -- from the service's port to the sender's address and port, goes in as if it came from the address
  -- that the sender dialled. So both directions of a flow are translated, for every service port
  -- but 0, and neither translation panics.
  pub ingoing_proxy-outgoing_proxy :
      (proxy : Proxy Env Rng) (now later : ℕ) (ip reply : NetworkPacket) (t u : TransportLayer)
      (inst : Ip)
      → IsValid proxy.proxycache
      → proxy.proxycache.cache_len ≡ 65536
      → get_source_port t < 65536
      → 0 < get_dest_port t
      → is_semantic proxy ip ≡ true
      → 0 < length (asked g m r proxy ip).1
      → convert_to_instance_ip g m r (asked g m r proxy ip).0 ip ≡ some inst
      → get_source_port u ≡ get_dest_port t
      → get_dest_port u ≡ get_source_port t
      → equal (get_dest_ip reply) (get_src_ip ip) ≡ true
      → (proxy' proxy'' : Proxy Env Rng) × (e : ConversionEntry) × (outgoing_proxy g m r proxy now
            ip
            (some t)
          ≡ returns (sends g m r proxy' (serialize_packet g ip e.dstip e.src_instance_ip t)))
        × (ingoing_proxy g m r proxy' later reply (some u)
            ≡ returns (sends g m r proxy'' (serialize_packet g reply e.srcip e.dst_service_ip u)))
        × (is_namespace_still_valid e.dstip (asked g m r proxy ip).1 ≡ true)
        × (equal e.srcip (get_src_ip ip) ≡ true)
        × (equal e.dst_service_ip (get_dest_ip ip) ≡ true)
  ingoing_proxy-outgoing_proxy proxy now later ip reply t u inst valid size small used semantic
        known local su du back =
      let (proxy', e, sent, found) =
        outgoing_proxy_routes g m r proxy now ip t inst semantic known local valid size small in
      let there : find? (is_reply (get_dest_ip reply) (pos (get_source_port u)))
            (proxy'.proxycache.cache (get_dest_port u)).conversion_list
          ≡ some e =
        rw (su, du, is_reply_congr (get_dest_ip reply) (get_src_ip ip) (pos (get_dest_port t)) back)
          (found.stored (λ z. ground arith)) in
      let (proxy'', received) =
        ingoing_by_entry proxy' later reply u e (omega (arith, found.same_size)) there in
      (
        proxy',
        proxy'',
        e,
        sent,
        received,
        found.alive,
        ground (arith, found.flow),
        ground (arith, found.flow),
      )
