-- ===== src/Tunnel/Remote.antt =====
-- The ends of the tunnel in node-net-manager/proxy/ProxyTunnel.go: the connections to other nodes,
-- `forward`, and the handling of one message of each channel.
pub mod Forward
pub mod Messages
use oakestra_net.Base.{
  ℕ, zero, suc, Bool, true, false, Option, none, some, List, [], ◌∷◌, ◌++◌, Bytes, ◌=ᵇ◌,
  if◌then◌else◌, Outcome, returns, panic, ◌>>=◌,
}
use oakestra_net.Base.Int.{ℤ}
use oakestra_net.Net.{Ip, equal}
use oakestra_net.Packets.{
  GoPacket, NetworkPacket, TransportLayer, get_dest_ip, decode_packet, packet_to_byte,
}
use oakestra_net.Tunnel.{
  EnvironmentManager, Rand, Proxy, outgoing_proxy, ingoing_proxy, locate_remote_address,
}

-- The network under the tunnel: the UDP functions of `net` and the TUN device. `World` is its state.
pub record Wire : Type 1 where
  pub World : Type 0
  pub Conn : Type 0
  pub UdpAddr : Type 0
  -- `fmt.Sprintf("%s:%v", dstHost, dstPort)`.
  pub host_string : Ip → ℤ → Bytes
  pub resolve_udp_addr : World → Bytes → World × Option UdpAddr
  pub dial_udp : World → UdpAddr → World × Option Conn
  -- Whether it succeeds.
  pub set_write_buffer : World → Conn → World × Bool
  -- Whether it fails.
  pub write_msg_udp : World → Conn → Bytes → World × Bool
  pub close : World → Conn → World
  -- The write to the TUN device, whose error is logged.
  pub ifce_write : World → Bytes → World

-- The fields of `GoProxyTunnel` that the ends use. The channel of incoming messages is the list of
-- what was put into it; that a send waits while 1000 messages are in it is left out.
pub record Link (W C : Type 0) : Type 0 where
  pub world : W
  pub connection_buffer : List (Bytes × C)
  pub incoming_channel : List Bytes
  pub local_ip : Ip

abbrev pub lookup {ℓ} : {C : Type ℓ} → Bytes → List (Bytes × C) → Option C
lookup k [] = none
lookup k ((j, c) ∷ m) = let rest = lookup k m in if j =ᵇ k then some c else rest

-- `buffer[k] = c`; the newest pair of a key is the one that counts.
abbrev pub store {ℓ} : {C : Type ℓ} → Bytes → C → List (Bytes × C) → List (Bytes × C)
store k c m = (k, c) ∷ m

module _ (n : Wire) where
  open n use {
    World, Conn, UdpAddr, host_string, resolve_udp_addr, dial_udp, set_write_buffer, write_msg_udp,
    close, ifce_write,
  }

  -- `createUDPChannel`, `none` for an error.
  unfoldable pub create_udp_channel : World → Bytes → World × Option Conn
  create_udp_channel w host =
      let (w1, raddr) = resolve_udp_addr w host in
      elim raddr [
        | none ↦ (w1, none)
        | some a ↦
            let (w2, connection) = dial_udp w1 a in
            elim connection [
              | none ↦ (w2, none)
              | some c ↦
                  let (w3, done) = set_write_buffer w2 c in
                  if done then (w3, some c) else (w3, none)
            ]
      ]

  -- The connection of `forward` to a node: the buffered one, or a new one, which is buffered.
  unfoldable pub connection_to : Link World Conn → Bytes → Link World Conn × Option Conn
  unfolding create_udp_channel
  connection_to link host = elim (lookup host link.connection_buffer) [
    | some c ↦ (link, some c)
    | none ↦
        let (w, created) = create_udp_channel link.world host in
        elim created [
          | none ↦ (record link { world = w }, none)
          | some c ↦ (
            record link {
              world = (set_write_buffer w c).0;
              connection_buffer = store host c link.connection_buffer;
            },
            some c,
          )
        ]
  ]

  -- `forward` with `11 - attemptNumber` attempts left.
  unfoldable pub forward : ℕ → Ip → ℤ → Bytes → Link World Conn → Link World Conn
  unfolding connection_to create_udp_channel
  forward zero dst_host dst_port packet_bytes link = link
  forward (suc k) dst_host dst_port packet_bytes link = elim (equal dst_host link.local_ip) [
    | true ↦ record link { incoming_channel = link.incoming_channel ++ packet_bytes ∷ [] }
    | false ↦
        let host = host_string dst_host dst_port in
        let (link1, con) = connection_to link host in
        elim con [
          | none ↦ link1
          | some c ↦
              let (w, failed) = write_msg_udp link1.world c packet_bytes in
              elim failed [
                | false ↦ record link1 { world = w }
                | true ↦
                    let (w', created) = create_udp_channel (close w c) host in
                    elim created [
                      | none ↦ record link1 { world = w' }
                      | some c' ↦ forward k dst_host dst_port packet_bytes (record link1 {
                        world = w';
                        connection_buffer = store host c' link1.connection_buffer;
                      })
                    ]
              ]
        ]
  ]

  module _ (g : GoPacket) (m : EnvironmentManager) (r : Rand) where
    open m use {Env}
    open r use {Rng}

    -- One round of `outgoingMessage`.
    unfoldable pub outgoing_message :
        Proxy Env Rng → Link World Conn → ℕ → Bytes → Outcome (Proxy Env Rng × Link World Conn)
    unfolding forward
    outgoing_message proxy link now msg = decode_packet g msg >>= λ (ip, prot). elim ip [
      | none ↦ returns (proxy, link)
      | some p ↦ elim prot [
        | none ↦ returns (proxy, link)
        | some t ↦ outgoing_proxy g m r proxy now p (some t) >>= λ (proxy', p', new_packet).
            elim new_packet [
              | none ↦ returns (proxy', link)
              | some q ↦
                  let (dst_host, dst_port) =
                    locate_remote_address g m r proxy'.environment (get_dest_ip p') in
                  returns (proxy', forward 11 dst_host dst_port (packet_to_byte g q) link)
            ]
      ]
    ]

    -- One round of `ingoingMessage`.
    unfoldable pub ingoing_message :
        Proxy Env Rng → Link World Conn → ℕ → Bytes → Outcome (Proxy Env Rng × Link World Conn)
    ingoing_message proxy link now msg = decode_packet g msg >>= λ (ip, prot). elim ip [
      | none ↦ returns (proxy, link)
      | some p ↦ elim prot [
        | none ↦ returns (proxy, link)
        | some t ↦ ingoing_proxy g m r proxy now p (some t) >>= λ (proxy', p', new_packet).
            let packet_bytes : Bytes = elim new_packet [
              | none ↦ msg
              | some q ↦ packet_to_byte g q
            ] in
            returns (proxy', record link { world = ifce_write link.world packet_bytes })
      ]
    ]
