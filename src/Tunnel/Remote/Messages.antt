-- ===== src/Tunnel/Remote/Messages.antt =====
-- One message of either channel: when it ends the handler, and that the cache stays valid.
use oakestra_net.Base.{
  ℕ, ◌<◌, ◌≡◌, ◌≢◌, ◌⊎◌, refl, inl, inr, true, Option, none, some, [], ◌∷◌, length, Bytes,
  Bool-cases, Option-cases, arith, Outcome, returns, panic, find?, ltb,
}
use oakestra_net.Base.Int.{pos}
use oakestra_net.ProxyCache.{retrieve_by_instance_ip, is_reply, write_at}
use oakestra_net.ProxyCache.Invariant.{IsValid, write_at-IsValid, touch-IsListValid}
use oakestra_net.Packets.{
  GoPacket, NetworkPacket, TransportLayer, get_source_port, get_dest_port, get_dest_ip,
  decode_packet, serialize_packet, packet_to_byte,
}
use oakestra_net.Packets.Decode.{HasWordPorts, ArePorts, decode_packet-ArePorts}
use oakestra_net.Tunnel.{
  EnvironmentManager, Rand, Proxy, serialize, outgoing_proxy, ingoing_proxy, is_semantic,
  convert_to_instance_ip, locate_remote_address,
}
use oakestra_net.Tunnel.Outgoing.{asked, sends, outgoing_proxy_drops, outgoing_proxy_routes}
use oakestra_net.Tunnel.Remote.{Wire, Link, forward, outgoing_message, ingoing_message}

-- The state of the proxy between two messages.
pub record IsReady {E R : Type 0} (proxy : Proxy E R) : Type 0 where
  pub valid : IsValid proxy.proxycache
  pub size : proxy.proxycache.cache_len ≡ 65536

module _ (g : GoPacket) (m : EnvironmentManager) (r : Rand) where
  open g use {Packet}
  open m use {Env}
  open r use {Rng}

  outgoing_proxy-IsReady :
      (proxy : Proxy Env Rng) (now : ℕ) (ip : NetworkPacket) (t : TransportLayer)
      → IsReady proxy
      → get_source_port t < 65536
      → (x : Proxy Env Rng × NetworkPacket × Option Packet) × (outgoing_proxy g m r proxy now ip
            (some t)
          ≡ returns x)
        × IsReady x.0
  outgoing_proxy-IsReady proxy now ip t v small = elim (Bool-cases (is_semantic proxy ip)) [
    | inr outside ↦
        (_, outgoing_proxy_drops g m r proxy now ip (some t) (inl outside), rw outside v)
    | inl inside ↦ elim (Bool-cases (ltb (length (asked g m r proxy ip).1) 1)) [
      | inl empty ↦ (
        _,
        outgoing_proxy_drops g m r proxy now ip (some t) (inr (inl (ground arith))),
        rw inside (record { valid = v.valid; size = v.size }),
      )
      | inr known ↦ elim (Option-cases (convert_to_instance_ip g m r (asked g m r proxy ip).0 ip)) [
        | inl foreign ↦ (
          _,
          outgoing_proxy_drops g m r proxy now ip (some t) (inr (inr foreign)),
          rw inside (record { valid = v.valid; size = v.size }),
        )
        | inr (inst, local) ↦
            let (proxy', e, sent, found) =
              outgoing_proxy_routes g m r proxy now ip t inst inside (ground arith) local v.valid
                v.size small in
            (
              sends g m r proxy' (serialize_packet g ip e.dstip e.src_instance_ip t),
              sent,
              record { valid = found.valid; size = found.same_size },
            )
      ]
    ]
  ]

  ingoing_proxy-IsReady :
      (proxy : Proxy Env Rng) (now : ℕ) (ip : NetworkPacket) (t : TransportLayer)
      → IsReady proxy
      → get_dest_port t < 65536
      → (x : Proxy Env Rng × NetworkPacket × Option Packet) × (ingoing_proxy g m r proxy now ip
            (some t)
          ≡ returns x)
        × IsReady x.0
  unfolding ingoing_proxy retrieve_by_instance_ip serialize
  ingoing_proxy-IsReady proxy now ip t v small =
      let in_range : ltb (get_dest_port t) proxy.proxycache.cache_len ≡ true =
        let s = v.size in ground arith in
      let l = proxy.proxycache.cache (get_dest_port t) in
      elim (Option-cases
        (find? (is_reply (get_dest_ip ip) (pos (get_source_port t))) l.conversion_list)) [
          | inl unknown ↦ ((proxy, ip, none), rw in_range (rw unknown refl), v)
          | inr (e, there) ↦
              let cache =
                write_at proxy.proxycache (get_dest_port t) (record l { last_used = now }) in
              (
                sends g m r (record proxy { proxycache = cache })
                    (serialize_packet g ip e.srcip e.dst_service_ip t),
                rw in_range (rw there refl),
                record {
                  valid =
                      write_at-IsValid proxy.proxycache (get_dest_port t)
                        (record l { last_used = now }) v.valid
                        (touch-IsListValid proxy.proxycache.conversion_list_max_size now l
                          (v.valid.lists (get_dest_port t)));
                  size = v.size;
                },
              )
        ]

  module _ (n : Wire) (proxy : Proxy Env Rng) (link : Link n.World n.Conn) (now : ℕ)
      (v : IsReady proxy) (msg : Bytes) where
    -- A handler that returns, and leaves the proxy ready.
    Handles : Outcome (Proxy Env Rng × Link n.World n.Conn) → Type 0
    Handles o = (x : Proxy Env Rng × Link n.World n.Conn) × (o ≡ returns x) × IsReady x.0

    outgoing_translated :
        (p p' : NetworkPacket) (t : TransportLayer) (proxy' : Proxy Env Rng) (q : Option Packet)
        → decode_packet g msg ≡ returns (some p, some t)
        → outgoing_proxy g m r proxy now p (some t) ≡ returns (proxy', p', q)
        → IsReady proxy'
        → Handles (outgoing_message n g m r proxy link now msg)
    unfolding outgoing_message Handles
    outgoing_translated p p' t proxy' none e f w = ((proxy', link), rw e (rw f refl), w)
    outgoing_translated p p' t proxy' (some q) e f w =
        let (dst_host, dst_port) =
          locate_remote_address g m r proxy'.environment (get_dest_ip p') in
        ((proxy', forward n 11 dst_host dst_port (packet_to_byte g q) link), rw e (rw f refl), w)

    outgoing_decoded :
        (ip : Option NetworkPacket) (prot : Option TransportLayer)
        → decode_packet g msg ≡ returns (ip, prot)
        → ArePorts prot
        → Handles (outgoing_message n g m r proxy link now msg)
    unfolding outgoing_message Handles
    outgoing_decoded none prot e a = ((proxy, link), rw e refl, v)
    outgoing_decoded (some p) none e a = ((proxy, link), rw e refl, v)
    outgoing_decoded (some p) (some t) e a =
        let ((proxy', p', q), f, w) = outgoing_proxy-IsReady proxy now p t v a.0 in
        outgoing_translated p p' t proxy' q e f w

    ingoing_decoded :
        (ip : Option NetworkPacket) (prot : Option TransportLayer)
        → decode_packet g msg ≡ returns (ip, prot)
        → ArePorts prot
        → Handles (ingoing_message n g m r proxy link now msg)
    unfolding ingoing_message Handles
    ingoing_decoded none prot e a = ((proxy, link), rw e refl, v)
    ingoing_decoded (some p) none e a = ((proxy, link), rw e refl, v)
    ingoing_decoded (some p) (some t) e a =
        let (x, f, w) = ingoing_proxy-IsReady proxy now p t v a.1 in
        let packet_bytes : Bytes = elim x.2 [ none ↦ msg | some q ↦ packet_to_byte g q ] in
        ((x.0, record link { world = n.ifce_write link.world packet_bytes }), rw e (rw f refl), w)

  module _ (n : Wire) (ports : HasWordPorts g) (proxy : Proxy Env Rng) (link : Link n.World n.Conn)
      (now : ℕ) (v : IsReady proxy) where
    -- A message of the outgoing channel ends its handler with a panic exactly when it is empty. Any
    -- other message is dealt with, and the cache stays valid and of its size.
    pub outgoing_message_cases :
        (msg : Bytes)
        → ((msg ≡ []) × (outgoing_message n g m r proxy link now msg ≡ panic))
          ⊎ ((msg ≢ [])
              × (x : Proxy Env Rng × Link n.World n.Conn) × (outgoing_message n g m r proxy link now
                    msg
                  ≡ returns x)
              × IsReady x.0)
    unfolding outgoing_message decode_packet Handles
    outgoing_message_cases [] = inl (refl, refl)
    outgoing_message_cases (b ∷ bs) =
        let ((ip, prot), e, small) = decode_packet-ArePorts g ports b bs in
        let (x, h, w) = outgoing_decoded n proxy link now v (b ∷ bs) ip prot e small in
        inr (λ z. cc, x, h, w)

    -- A message that came over UDP from another node ends its handler with a panic exactly when it is
    -- empty. Any other message is dealt with, and the cache stays valid and of its size.
    pub ingoing_message_cases :
        (msg : Bytes)
        → ((msg ≡ []) × (ingoing_message n g m r proxy link now msg ≡ panic))
          ⊎ ((msg ≢ [])
              × (x : Proxy Env Rng × Link n.World n.Conn) × (ingoing_message n g m r proxy link now
                    msg
                  ≡ returns x)
              × IsReady x.0)
    unfolding ingoing_message decode_packet Handles
    ingoing_message_cases [] = inl (refl, refl)
    ingoing_message_cases (b ∷ bs) =
        let ((ip, prot), e, small) = decode_packet-ArePorts g ports b bs in
        let (x, h, w) = ingoing_decoded n proxy link now v (b ∷ bs) ip prot e small in
        inr (λ z. cc, x, h, w)
