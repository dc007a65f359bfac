-- ===== src/Tests/Samples.antt =====
-- The inputs of the runs: a service with two instances, and a network of numbers.
use oakestra_net.Base.{ℕ, ◌+◌, ◌<◌, ◌%◌, false, Option, none, some, [], ◌∷◌, Bytes, codes, arith}
use oakestra_net.Base.Int.{pos}
use oakestra_net.Net.{Ip, addr, ipv4}
use oakestra_net.Table.{
  TableEntry, TableManager, instance_number, round_robin, search_by_service_ip, search_by_ns_ip,
}
use oakestra_net.ProxyCache.{ConversionEntry, new_proxy_cache}
use oakestra_net.Packets.{
  GoPacket, IpLayer, NetworkPacket, ipv4_packet, TransportFields, TransportLayer, udp_layer,
  IpProtocol,
}
use oakestra_net.Tunnel.{EnvironmentManager, Rand, Proxy}

abbrev pub v6 : ℕ → Ip
v6 n = addr (252 ∷ 0 ∷ 0 ∷ 0 ∷ 0 ∷ 0 ∷ 0 ∷ 0 ∷ 0 ∷ 0 ∷ 0 ∷ 0 ∷ 0 ∷ 0 ∷ 0 ∷ n ∷ [])

abbrev pub instance_of : ℕ → TableEntry
instance_of n = record {
  job_name = codes "a.b.c.d";
  appname = codes "a";
  appns = codes "b";
  servicename = codes "c";
  servicenamespace = codes "d";
  instancenumber = pos n;
  cluster = pos 0;
  nodeip = ipv4 192 168 0 n;
  nodeport = pos 50103;
  nsip = addr (10 ∷ 18 ∷ 0 ∷ n ∷ []);
  nsipv6 = v6 n;
  service_ip =
      record { ip_type = round_robin; address = addr (10 ∷ 30 ∷ 0 ∷ 1 ∷ []); address_v6 = v6 101 }
      ∷ record {
        ip_type = instance_number;
        address = addr (10 ∷ 30 ∷ 1 ∷ n ∷ []);
        address_v6 = v6 (100 + n);
      }
      ∷ [];
}

abbrev pub other_job : TableEntry
other_job = record (instance_of 9) {
  job_name = codes "x.b.c.d";
  appname = codes "x";
  service_ip = [];
}

abbrev pub samples : TableManager
samples = record { translation_table = instance_of 3 ∷ other_job ∷ instance_of 4 ∷ [] }

abbrev pub service_ip : Ip
service_ip = ipv4 10 30 0 1

-- Addresses as gopacket decodes them, of 4 bytes.
abbrev pub ns_ip : ℕ → Ip
ns_ip n = addr (10 ∷ 18 ∷ 0 ∷ n ∷ [])

abbrev pub flow_entry : ConversionEntry
flow_entry = record {
  srcip = ns_ip 3;
  dstip = ns_ip 4;
  dst_service_ip = service_ip;
  src_instance_ip = ipv4 10 30 1 3;
  srcport = pos 40000;
  dstport = pos 80;
}

abbrev ip_layer : ℕ → Ip → Ip → Bytes → IpLayer
ip_layer protocol src dst payload = record {
  version = 4;
  protocol = protocol;
  src_ip = src;
  dst_ip = dst;
  layer_payload = payload;
  rest = [];
}

abbrev fields_of : Bytes → TransportFields
fields_of [] = record { src_port = 0; dst_port = 0; payload = []; rest = [] }
fields_of (s ∷ bs) = record { src_port = s % 65536; dst_port = 80; payload = bs; rest = [] }

abbrev layer_of : Bytes → IpProtocol → Option IpLayer
layer_of [] _ = none
layer_of (b ∷ bs) _ = some (ip_layer 17 (ns_ip 3) (addr (10 ∷ 30 ∷ 0 ∷ 1 ∷ [])) bs)

-- Packets are read from their payload alone, and a packet is its two layers.
abbrev pub go_packet : GoPacket
go_packet = record {
  Packet = IpLayer × TransportLayer;
  network_layer = layer_of;
  decode_udp = fields_of;
  decode_tcp = fields_of;
  defrag_fails = λ _. false;
  serialize_layers = λ l t. some (l, t);
  buffer_bytes = λ p. p.0.layer_payload;
}

abbrev pub manager : EnvironmentManager
manager = record {
  Env = TableManager;
  get_table_entry_by_service_ip = λ t ip. (t, search_by_service_ip t ip);
  get_table_entry_by_ns_ip = search_by_ns_ip;
}

pub remainder-lt : (r n : ℕ) → 0 < n → r % n < n
remainder-lt r n h = grind arith

abbrev pub rand : Rand
rand = record { Rng = ℕ; intn = λ r n. (r % n, r + 1); intn-lt = remainder-lt }

abbrev pub sample_proxy : Proxy TableManager ℕ
sample_proxy = record {
  environment = samples;
  proxycache = new_proxy_cache;
  randseed = 1;
  proxy_ip_subnetwork = record { ip = ipv4 10 30 0 0; net_mask = 255 ∷ 255 ∷ 0 ∷ 0 ∷ [] };
  proxy_ipv6_subnetwork = record {
    ip = v6 0;
    net_mask = 254 ∷ 0 ∷ 0 ∷ 0 ∷ 0 ∷ 0 ∷ 0 ∷ 0 ∷ 0 ∷ 0 ∷ 0 ∷ 0 ∷ 0 ∷ 0 ∷ 0 ∷ 0 ∷ [];
  };
}

abbrev pub udp : ℕ → ℕ → TransportLayer
udp s d = udp_layer (record { src_port = s; dst_port = d; payload = []; rest = [] })

abbrev pub packet : Ip → Ip → NetworkPacket
packet src dst = ipv4_packet (ip_layer 17 src dst [])
