-- ===== src/Packets/Serialize.antt =====
-- `SerializePacket` of node-net-manager/proxy/iputils, v4Packet.go and v6Packet.go, with its choice
-- between the two transport layers, and the getters of transportLayer.go that the choice reads.
use oakestra_net.Base.{
  ℕ, ◌≡◌, refl, Option, none, some, Bytes, codes, ◌=ᵇ◌, if◌then◌else◌, Outcome, returns, panic,
}
use oakestra_net.Packets.{GoPacket, IpLayer, TransportFields, TransportLayer, udp_layer, tcp_layer}

abbrev pub get_protocol : TransportLayer → Bytes
get_protocol (udp_layer f) = codes "UDP"
get_protocol (tcp_layer f) = codes "TCP"

-- `GetUDPLayer` and `GetTCPLayer`, `none` for nil.
abbrev pub get_udp_layer : TransportLayer → Option TransportFields
get_udp_layer (udp_layer f) = some f
get_udp_layer (tcp_layer f) = none

abbrev pub get_tcp_layer : TransportLayer → Option TransportFields
get_tcp_layer (udp_layer f) = none
get_tcp_layer (tcp_layer f) = some f

abbrev pub get_next_header_v4 : IpLayer → ℕ
get_next_header_v4 l = l.protocol

abbrev pub get_next_header_v6 : IpLayer → ℕ
get_next_header_v6 l = l.protocol

module _ (g : GoPacket) where
  -- `serializeTCPHeader` and `serializeUDPHeader` with `serializeIPHeader`. Each reads the payload of
  -- its layer, which panics for nil.
  abbrev pub serialize_tcp_header : IpLayer → Option TransportFields → Outcome (Option g.Packet)
  serialize_tcp_header l none = panic
  serialize_tcp_header l (some f) = returns (g.serialize_layers l (tcp_layer f))

  abbrev pub serialize_udp_header : IpLayer → Option TransportFields → Outcome (Option g.Packet)
  serialize_udp_header l none = panic
  serialize_udp_header l (some f) = returns (g.serialize_layers l (udp_layer f))

  abbrev pub serialize_transport : IpLayer → TransportLayer → Outcome (Option g.Packet)
  serialize_transport l prot =
      if get_protocol prot =ᵇ codes "TCP"
      then serialize_tcp_header l (get_tcp_layer prot)
      else serialize_udp_header l (get_udp_layer prot)

  -- The choice by the name of the protocol finds the layer that is there, so no nil layer is read,
  -- and it is the case distinction of `serialize_packet`.
  serialize_transport-serialize_layers :
      (l : IpLayer) (prot : TransportLayer)
      → serialize_transport l prot ≡ returns (g.serialize_layers l prot)
  unfolding ◌=ᵇ◌
  serialize_transport-serialize_layers l (udp_layer f) = refl
  serialize_transport-serialize_layers l (tcp_layer f) = refl
