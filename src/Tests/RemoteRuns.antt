-- ===== src/Tests/RemoteRuns.antt =====
-- The ends of the tunnel at work.
use oakestra_net.Base.{
  ℕ, ◌<◌, ◌≤◌, ◌≡◌, ◌≢◌, ◌⊎◌, refl, true, false, some, [], ◌∷◌, Bytes, arith, returns, panic, ◌+◌,
  ◌%◌, ◌==◌,
}
use oakestra_net.Base.Int.{pos}
use oakestra_net.Net.{equal, ipv4}
use oakestra_net.Table.{TableManager}
use oakestra_net.ProxyCache.Invariant.{new_proxy_cache-IsValid}
use oakestra_net.Tunnel.{Proxy}
use oakestra_net.Tunnel.Remote.{Wire, Link, forward, outgoing_message, ingoing_message}
use oakestra_net.Tunnel.Remote.Forward.{WriteCount, forward_bounded}
use oakestra_net.Tunnel.Remote.Messages.{IsReady, outgoing_message_cases, ingoing_message_cases}
use oakestra_net.Packets.Decode.{HasWordPorts}
use oakestra_net.Tests.TunnelRuns.{cache_size_run}
use oakestra_net.Tests.Samples.{go_packet, manager, rand, sample_proxy}

-- A network where the second write to a node gets through.
abbrev wire : Wire
wire = record {
  World = ℕ;
  Conn = ℕ;
  UdpAddr = ℕ;
  host_string = λ ip port. [];
  resolve_udp_addr = λ w h. (w, some 0);
  dial_udp = λ w a. (w, some a);
  set_write_buffer = λ w c. (w, true);
  write_msg_udp = λ w c b. (w + 1, w == 0);
  close = λ w c. w;
  ifce_write = λ w b. w;
}

abbrev wire_count : WriteCount wire
wire_count = record {
  writes = λ w. w;
  resolve_udp_addr_writes = λ w h. refl;
  dial_udp_writes = λ w a. refl;
  set_write_buffer_writes = λ w c. refl;
  write_msg_udp_writes = λ w c b. refl;
  close_writes = λ w c. refl;
}

abbrev link : Link ℕ ℕ
link = record {
  world = 0;
  connection_buffer = [];
  incoming_channel = [];
  local_ip = ipv4 192 168 0 3;
}

forward_run : (forward wire 11 (ipv4 192 168 0 4) (pos 50103) (1 ∷ []) link).world ≡ 2
unfolding forward equal
forward_run = refl

forward_bounded_example :
    ((equal (ipv4 192 168 0 4) (ipv4 192 168 0 3) ≡ true)
      × ((forward wire 11 (ipv4 192 168 0 4) (pos 50103) (1 ∷ []) link).world ≡ 0)
      × ((forward wire 11 (ipv4 192 168 0 4) (pos 50103) (1 ∷ []) link).incoming_channel
          ≡ (1 ∷ []) ∷ []))
    ⊎ ((equal (ipv4 192 168 0 4) (ipv4 192 168 0 3) ≡ false)
        × ((forward wire 11 (ipv4 192 168 0 4) (pos 50103) (1 ∷ []) link).world ≤ 0 + 11)
        × ((forward wire 11 (ipv4 192 168 0 4) (pos 50103) (1 ∷ []) link).incoming_channel ≡ []))
forward_bounded_example =
    forward_bounded wire wire_count 10 (ipv4 192 168 0 4) (pos 50103) (1 ∷ []) link

word-lt : (n : ℕ) → n % 65536 < 65536
word-lt n = omega arith

abbrev word_ports : HasWordPorts go_packet
word_ports = record {
  udp_src = λ b. elim b as (λ x. (go_packet.decode_udp x).src_port < 65536) [
    | [] ↦ omega arith
    | s ∷ bs ↦ word-lt s
  ];
  udp_dst = λ b. elim b as (λ x. (go_packet.decode_udp x).dst_port < 65536) [
    | [] ↦ omega arith
    | s ∷ bs ↦ omega arith
  ];
  tcp_src = λ b. elim b as (λ x. (go_packet.decode_tcp x).src_port < 65536) [
    | [] ↦ omega arith
    | s ∷ bs ↦ word-lt s
  ];
  tcp_dst = λ b. elim b as (λ x. (go_packet.decode_tcp x).dst_port < 65536) [
    | [] ↦ omega arith
    | s ∷ bs ↦ omega arith
  ];
}

sample-IsReady : IsReady sample_proxy
sample-IsReady = record { valid = new_proxy_cache-IsValid; size = cache_size_run }

abbrev datagram : Bytes
datagram = 0x45 ∷ 7 ∷ []

outgoing_message_cases_example :
    ((datagram ≡ [])
      × (outgoing_message wire go_packet manager rand sample_proxy link 100 datagram ≡ panic))
    ⊎ ((datagram ≢ [])
        × (x : Proxy TableManager ℕ × Link ℕ ℕ) × (outgoing_message wire go_packet manager rand
              sample_proxy link 100 datagram
            ≡ returns x)
        × IsReady x.0)
outgoing_message_cases_example =
    outgoing_message_cases go_packet manager rand wire word_ports sample_proxy link 100
      sample-IsReady datagram

-- The empty datagram.
ingoing_message_cases_example :
    (◌≡◌ {A = Bytes} [] []
      × (ingoing_message wire go_packet manager rand sample_proxy link 100 [] ≡ panic))
    ⊎ (◌≢◌ {A = Bytes} [] []
        × (x : Proxy TableManager ℕ × Link ℕ ℕ) × (ingoing_message wire go_packet manager rand
              sample_proxy link 100 []
            ≡ returns x)
        × IsReady x.0)
ingoing_message_cases_example =
    ingoing_message_cases go_packet manager rand wire word_ports sample_proxy link 100
      sample-IsReady []
