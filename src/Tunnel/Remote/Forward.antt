-- ===== src/Tunnel/Remote/Forward.antt =====
-- `forward` sends a packet at most as often as it has attempts, and puts nothing into the local
-- channel that is meant for another node.
use oakestra_net.Base.{
  ℕ, zero, suc, ◌+◌, ◌≤◌, ◌≡◌, ◌⊎◌, refl, ap, ◌∙◌, inl, inr, true, false, [], ◌∷◌, ◌++◌, Bytes,
  Bool-cases, Option-cases, arith,
}
use oakestra_net.Base.Int.{ℤ}
use oakestra_net.Net.{Ip, equal}
use oakestra_net.Tunnel.Remote.{
  Wire, Link, lookup, store, create_udp_channel, connection_to, forward,
}

-- A count of the UDP writes, which only `WriteMsgUDP` adds to.
pub record WriteCount (n : Wire) : Type 0 where
  pub writes : n.World → ℕ
  pub resolve_udp_addr_writes :
      (w : n.World) (h : Bytes) → writes (n.resolve_udp_addr w h).0 ≡ writes w
  pub dial_udp_writes : (w : n.World) (a : n.UdpAddr) → writes (n.dial_udp w a).0 ≡ writes w
  pub set_write_buffer_writes :
      (w : n.World) (c : n.Conn) → writes (n.set_write_buffer w c).0 ≡ writes w
  pub write_msg_udp_writes :
      (w : n.World) (c : n.Conn) (b : Bytes) → writes (n.write_msg_udp w c b).0 ≡ writes w + 1
  pub close_writes : (w : n.World) (c : n.Conn) → writes (n.close w c) ≡ writes w

module _ (n : Wire) (count : WriteCount n) where
  open n use {World, Conn}
  open count use {writes}

  create_udp_channel-writes :
      (w : World) (host : Bytes) → writes (create_udp_channel n w host).0 ≡ writes w
  unfolding create_udp_channel
  create_udp_channel-writes w host = elim (Option-cases (n.resolve_udp_addr w host).1) [
    | inl e ↦ rw (e, create_udp_channel) (count.resolve_udp_addr_writes w host)
    | inr (a, e) ↦
        let w1 = (n.resolve_udp_addr w host).0 in
        let same = count.dial_udp_writes w1 a ∙ count.resolve_udp_addr_writes w host in
        elim (Option-cases (n.dial_udp w1 a).1) [
          | inl f ↦ rw (e, create_udp_channel) (rw f same)
          | inr (c, f) ↦
              let w2 = (n.dial_udp w1 a).0 in
              elim (Bool-cases (n.set_write_buffer w2 c).1) [
                | inl d ↦
                    rw (e, create_udp_channel)
                      (rw f (rw d (count.set_write_buffer_writes w2 c ∙ same)))
                | inr d ↦
                    rw (e, create_udp_channel)
                      (rw f (rw d (count.set_write_buffer_writes w2 c ∙ same)))
              ]
        ]
  ]

  -- Nothing but the world and the buffer changes, and the world by no write.
  IsQuiet : Link World Conn → Link World Conn → Type 0
  IsQuiet link link' =
      (writes link'.world ≡ writes link.world)
      × (link'.incoming_channel ≡ link.incoming_channel)
      × (link'.local_ip ≡ link.local_ip)

  connection_to-IsQuiet :
      (link : Link World Conn) (host : Bytes) → IsQuiet link (connection_to n link host).0
  unfolding connection_to IsQuiet
  connection_to-IsQuiet link host = elim (Option-cases (lookup host link.connection_buffer)) [
    | inr (c, e) ↦ rw (e, connection_to) (refl, refl, refl)
    | inl e ↦
        let made = create_udp_channel-writes link.world host in
        elim (Option-cases (create_udp_channel n link.world host).1) [
          | inl f ↦ rw (e, connection_to) (rw f (made, refl, refl))
          | inr (c, f) ↦
              rw (e, connection_to) (rw f (count.set_write_buffer_writes _ c ∙ made, refl, refl))
        ]
  ]

  forward_remote :
      (k : ℕ) (dst : Ip) (port : ℤ) (packet : Bytes) (link : Link World Conn)
      → equal dst link.local_ip ≡ false
      → (writes (forward n k dst port packet link).world ≤ writes link.world + k)
        × ((forward n k dst port packet link).incoming_channel ≡ link.incoming_channel)
  unfolding forward IsQuiet
  forward_remote zero dst port packet link h = (omega arith, refl)
  forward_remote (suc k) dst port packet link h =
      let host = n.host_string dst port in
      let link1 = (connection_to n link host).0 in
      let (same, channel, ip) = connection_to-IsQuiet link host in
      elim (Option-cases (connection_to n link host).1) [
        | inl e ↦ rw (h, forward) (rw e (omega arith, channel))
        | inr (c, e) ↦
            let one = count.write_msg_udp_writes link1.world c packet in
            let w = (n.write_msg_udp link1.world c packet).0 in
            let closed = count.close_writes w c in
            let made = create_udp_channel-writes (n.close w c) host in
            elim (Bool-cases (n.write_msg_udp link1.world c packet).1) [
              | inr f ↦ rw (h, forward) (rw e (rw f (omega arith, channel)))
              | inl f ↦ elim (Option-cases (create_udp_channel n (n.close w c) host).1) [
                | inl d ↦ rw (h, forward) (rw e (rw f (rw d (omega arith, channel))))
                | inr (c', d) ↦
                    let next : Link World Conn = record link1 {
                      world = (create_udp_channel n (n.close w c) host).0;
                      connection_buffer = store host c' link1.connection_buffer;
                    } in
                    let (few, kept) =
                      forward_remote k dst port packet next (ap (equal dst) ip ∙ h) in
                    rw (h, forward) (rw e (rw f (rw d (omega arith, kept ∙ channel))))
              ]
            ]
      ]

  -- With `k` attempts left, `forward` to another node makes at most `k` writes, whatever the network
  -- does, and leaves the channel of incoming messages alone; to this node it makes none, and puts the
  -- packet into the channel if an attempt is left.
  pub forward_bounded :
      (k : ℕ) (dst : Ip) (port : ℤ) (packet : Bytes) (link : Link World Conn)
      → ((equal dst link.local_ip ≡ true)
          × (writes (forward n (suc k) dst port packet link).world ≡ writes link.world)
          × ((forward n (suc k) dst port packet link).incoming_channel
              ≡ link.incoming_channel ++ packet ∷ []))
        ⊎ ((equal dst link.local_ip ≡ false)
            × (writes (forward n (suc k) dst port packet link).world ≤ writes link.world + suc k)
            × ((forward n (suc k) dst port packet link).incoming_channel ≡ link.incoming_channel))
  unfolding forward
  forward_bounded k dst port packet link = elim (Bool-cases (equal dst link.local_ip)) [
    | inl e ↦ inl (e, rw (e, forward) refl, rw (e, forward) refl)
    | inr e ↦ inr (
      e,
      (forward_remote (suc k) dst port packet link e).0,
      (forward_remote (suc k) dst port packet link e).1,
    )
  ]
