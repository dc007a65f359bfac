-- ===== src/Packets.antt =====
-- node-net-manager/proxy/iputils: the packets of the two IP versions behind one interface, and
-- `decodePacket` of node-net-manager/proxy/ProxyTunnel.go. The library gopacket and its
-- defragmenter are the parameter `GoPacket`. Of the layers the model has the fields that the program
-- reads or writes, and keeps the others in `rest`. A log line is left out.
pub mod Decode
pub mod Serialize
use Prim.Native.Nat.{bit_and}
use oakestra_net.Base.{
  ℕ, ◌+◌, Bool, true, false, Option, none, some, List, [], ◌∷◌, Bytes, ◌==◌, if◌then◌else◌, Outcome,
  returns, panic, ◌>>=◌,
}
use oakestra_net.Net.{Ip}

-- `layers.IPv4` and `layers.IPv6`; `protocol` is the field `Protocol` or `NextHeader`.
pub record IpLayer : Type 0 where
  pub version : ℕ
  pub protocol : ℕ
  pub src_ip : Ip
  pub dst_ip : Ip
  pub layer_payload : Bytes
  pub rest : Bytes

-- `layers.UDP` and `layers.TCP`. The ports are of type uint16.
pub record TransportFields : Type 0 where
  pub src_port : ℕ
  pub dst_port : ℕ
  pub payload : Bytes
  pub rest : Bytes

-- `TransportLayerProtocol` and its two implementations.
pub data TransportLayer : Type 0 where
  udp_layer tcp_layer : TransportFields → TransportLayer

abbrev pub fields : TransportLayer → TransportFields
fields (udp_layer f) = f
fields (tcp_layer f) = f

abbrev pub get_source_port : TransportLayer → ℕ
get_source_port l = (fields l).src_port

abbrev pub get_dest_port : TransportLayer → ℕ
get_dest_port l = (fields l).dst_port

-- `NetworkLayerPacket` and its two implementations. The fragment header of the second is stored and
-- never read.
pub data NetworkPacket : Type 0 where
  ipv4_packet ipv6_packet : IpLayer → NetworkPacket

abbrev pub layer : NetworkPacket → IpLayer
layer (ipv4_packet l) = l
layer (ipv6_packet l) = l

abbrev pub get_dest_ip : NetworkPacket → Ip
get_dest_ip p = (layer p).dst_ip

abbrev pub get_src_ip : NetworkPacket → Ip
get_src_ip p = (layer p).src_ip

abbrev pub get_protocol_version : NetworkPacket → ℕ
get_protocol_version p = (layer p).version

pub data IpProtocol : Type 0 where
  protocol_ipv4 protocol_ipv6 : IpProtocol

-- What the program calls in gopacket and in the defragmenter of IPv4.
pub record GoPacket : Type 1 where
  -- `gopacket.Packet`.
  pub Packet : Type 0
  -- `gopacket.NewPacket(bytes, layerType, Default).NetworkLayer()`, `none` for nil.
  pub network_layer : Bytes → IpProtocol → Option IpLayer
  -- `DecodeFromBytes`; an error is logged, and the fields stay as they are then.
  pub decode_udp : Bytes → TransportFields
  pub decode_tcp : Bytes → TransportFields
  -- Whether `DefragIPv4` returns an error.
  pub defrag_fails : IpLayer → Bool
  -- `SerializeLayers` of the IP layer, the transport layer and its payload, with lengths and
  -- checksums made anew, read back by `NewPacket`; `none` on an error.
  pub serialize_layers : IpLayer → TransportLayer → Option Packet
  -- The bytes in the buffer after `gopacket.SerializePacket`, whose error is logged.
  pub buffer_bytes : Packet → Bytes

module _ (g : GoPacket) where
  open g use {
    Packet, network_layer, decode_udp, decode_tcp, defrag_fails, serialize_layers, buffer_bytes,
  }

  unfoldable pub packet_to_byte : Packet → Bytes
  packet_to_byte p = buffer_bytes p

  -- `GetTransportLayer` of each version: 17 is UDP and 6 is TCP.
  abbrev pub get_transport_layer_v4 : IpLayer → Option TransportLayer
  get_transport_layer_v4 l =
      if l.protocol == 17
      then some (udp_layer (decode_udp l.layer_payload))
      else if l.protocol == 6
      then some (tcp_layer (decode_tcp l.layer_payload))
      else none

  abbrev pub get_transport_layer_v6 : IpLayer → Option TransportLayer
  get_transport_layer_v6 l =
      if l.protocol == 17
      then some (udp_layer (decode_udp l.layer_payload))
      else if l.protocol == 6
      then some (tcp_layer (decode_tcp l.layer_payload))
      else none

  unfoldable pub get_transport_layer : NetworkPacket → Option TransportLayer
  get_transport_layer (ipv4_packet l) = get_transport_layer_v4 l
  get_transport_layer (ipv6_packet l) = get_transport_layer_v6 l

  -- `SerializePacket` of each version: the addresses are written into the packet itself, which the
  -- caller keeps, and the result is nil on an error.
  abbrev pub serialize_packet_v4 :
      IpLayer → Ip → Ip → TransportLayer → NetworkPacket × Option Packet
  serialize_packet_v4 l dst src prot =
      let l' = record l { dst_ip = dst; src_ip = src } in (ipv4_packet l', serialize_layers l' prot)

  abbrev pub serialize_packet_v6 :
      IpLayer → Ip → Ip → TransportLayer → NetworkPacket × Option Packet
  serialize_packet_v6 l dst src prot =
      let l' = record l { dst_ip = dst; src_ip = src } in (ipv6_packet l', serialize_layers l' prot)

  unfoldable pub serialize_packet :
      NetworkPacket → Ip → Ip → TransportLayer → NetworkPacket × Option Packet
  serialize_packet (ipv4_packet l) dst src prot = serialize_packet_v4 l dst src prot
  serialize_packet (ipv6_packet l) dst src prot = serialize_packet_v6 l dst src prot

  -- `Defragment` of each version, true for an error. The reassembled packet of the first is given to
  -- the method's own variable, so the caller keeps the fragment; the second does nothing.
  abbrev pub defragment_v4 : IpLayer → Bool
  defragment_v4 l = defrag_fails l

  abbrev pub defragment_v6 : IpLayer → Bool
  defragment_v6 l = false

  abbrev pub defragment : NetworkPacket → Bool
  defragment (ipv4_packet l) = defragment_v4 l
  defragment (ipv6_packet l) = defragment_v6 l

  abbrev pub new_network_layer_packet : IpProtocol → IpLayer → NetworkPacket
  new_network_layer_packet protocol_ipv4 l = ipv4_packet l
  new_network_layer_packet protocol_ipv6 l = ipv6_packet l

  -- `decodePacket` from the version on. For IPv6 it also calls `DecodeNetworkLayer`, which stores the
  -- fragment header; nothing reads that, so the model leaves it out.
  decode_version : Bytes → IpProtocol → Option NetworkPacket × Option TransportLayer
  unfolding get_transport_layer
  decode_version msg ip_type = elim (network_layer msg ip_type) [
    | none ↦ (none, none)
    | some l ↦
        let res = new_network_layer_packet ip_type l in
        if defragment res then (none, none) else (some res, get_transport_layer res)
  ]

  -- `decodePacket`; the first byte of an empty message is out of range.
  unfoldable pub decode_packet : Bytes → Outcome (Option NetworkPacket × Option TransportLayer)
  unfolding decode_version
  decode_packet [] = panic
  decode_packet (b ∷ bs) =
      if bit_and b 0xf0 == 0x40
      then returns (decode_version (b ∷ bs) protocol_ipv4)
      else if bit_and b 0xf0 == 0x60
      then returns (decode_version (b ∷ bs) protocol_ipv6)
      else returns (none, none)
