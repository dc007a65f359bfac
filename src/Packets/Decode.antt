-- ===== src/Packets/Decode.antt =====
-- What `decodePacket` returns.
use Prim.Native.Nat.{bit_and}
use oakestra_net.Base.{
  ℕ, ◌<◌, ◌≡◌, refl, inl, inr, Option, none, some, ◌∷◌, Bytes, Bool-cases, Option-cases, returns,
  ◌==◌,
}
use oakestra_net.Packets.{
  GoPacket, IpLayer, NetworkPacket, ipv4_packet, ipv6_packet, get_transport_layer_v4,
  TransportLayer, get_source_port, get_dest_port, get_transport_layer, decode_packet,
  decode_version, IpProtocol, protocol_ipv4, protocol_ipv6, new_network_layer_packet, defragment,
}

-- The ports of a decoded header are of type uint16.
pub record HasWordPorts (g : GoPacket) : Type 0 where
  pub udp_src : (b : Bytes) → (g.decode_udp b).src_port < 65536
  pub udp_dst : (b : Bytes) → (g.decode_udp b).dst_port < 65536
  pub tcp_src : (b : Bytes) → (g.decode_tcp b).src_port < 65536
  pub tcp_dst : (b : Bytes) → (g.decode_tcp b).dst_port < 65536

abbrev pub ArePorts : Option TransportLayer → Type 0
ArePorts none = Unit {0}
ArePorts (some t) = (get_source_port t < 65536) × (get_dest_port t < 65536)

module _ (g : GoPacket) (ports : HasWordPorts g) where
  transport_layer-ArePorts : (l : IpLayer) → ArePorts (get_transport_layer_v4 g l)
  transport_layer-ArePorts l = elim (Bool-cases (l.protocol == 17)) [
    | inl udp ↦ rw (udp, get_transport_layer_v4) (ports.udp_src _, ports.udp_dst _)
    | inr e ↦ elim (Bool-cases (l.protocol == 6)) [
      | inl tcp ↦ rw (e, get_transport_layer_v4) (rw tcp (ports.tcp_src _, ports.tcp_dst _))
      | inr f ↦ rw (e, get_transport_layer_v4) (rw f tt)
    ]
  ]

  get_transport_layer-ArePorts : (p : NetworkPacket) → ArePorts (get_transport_layer g p)
  unfolding get_transport_layer
  get_transport_layer-ArePorts (ipv4_packet l) = transport_layer-ArePorts l
  get_transport_layer-ArePorts (ipv6_packet l) = transport_layer-ArePorts l

  decode_version-ArePorts : (msg : Bytes) (i : IpProtocol) → ArePorts (decode_version g msg i).1
  unfolding decode_version
  decode_version-ArePorts msg i = elim (Option-cases (g.network_layer msg i)) [
    | inl e ↦ rw (e, decode_version) tt
    | inr (l, e) ↦ elim (Bool-cases (defragment g (new_network_layer_packet g i l))) [
      | inl f ↦ rw (e, decode_version) (rw f tt)
      | inr f ↦
          rw (e, decode_version)
            (rw f (get_transport_layer-ArePorts (new_network_layer_packet g i l)))
    ]
  ]

  -- A message with a first byte is decoded, to nothing at worst, and its ports are of 16 bits.
  pub decode_packet-ArePorts :
      (b : ℕ) (bs : Bytes)
      → (x : Option NetworkPacket × Option TransportLayer) × (decode_packet g (b ∷ bs) ≡ returns x)
        × ArePorts x.1
  unfolding decode_packet
  decode_packet-ArePorts b bs = elim (Bool-cases (bit_and b 0xf0 == 0x40)) [
    | inl e ↦ (
      decode_version g (b ∷ bs) protocol_ipv4,
      rw e refl,
      decode_version-ArePorts (b ∷ bs) protocol_ipv4,
    )
    | inr e ↦ elim (Bool-cases (bit_and b 0xf0 == 0x60)) [
      | inl f ↦ (
        decode_version g (b ∷ bs) protocol_ipv6,
        rw e (rw f refl),
        decode_version-ArePorts (b ∷ bs) protocol_ipv6,
      )
      | inr f ↦ ((none, none), rw e (rw f refl), tt)
    ]
  ]
