-- ===== src/Tests/SetupRuns.antt =====
-- A tunnel and an environment made where everything succeeds.
use oakestra_net.Base.{
  ℕ, ◌+◌, ◌≡◌, ◌=ᵇ◌, arith, refl, false, none, some, [], ◌∷◌, ◌↔◌, true, if◌then◌else◌, codes,
  returns,
}
use oakestra_net.Net.{addr, octets, ipv4}
use oakestra_net.Network.Value.{ip4, ip6}
use oakestra_net.Env.{Environment}
use oakestra_net.Env.Allocation.{IsAllocated}
use oakestra_net.Env.Setup.{Host, new_environment_cluster_configured}
use oakestra_net.Env.Setup.Pools.{Answers, new_environment_cluster_configured-IsAllocated}
use oakestra_net.Packets.{IpLayer, ipv4_packet}
use oakestra_net.Tunnel.{is_semantic}
use oakestra_net.Tunnel.Setup.{ProxyTunnel, Platform, default_settings, new_tunnel, set_environment}
use oakestra_net.Tunnel.Setup.Subnetwork.{new_tunnel-is_semantic}
use oakestra_net.Tunnel.Setup.Ready.{Works}

abbrev platform : Platform
platform = record {
  World = ℕ;
  new_tun = λ n w. (w + 1, some n);
  run = λ args w. (w + 1, false);
  listen_udp = λ p w. (w + 1, false);
  get_local_ip = λ w. returns (codes "192.168.0.3");
  parse_ip = addr;
  ip_string = octets;
  cidr_mask = λ n bits. [];
  mask_string = λ m. m;
  itoa = λ n. [];
  decode = λ s. s;
}

-- This platform reads the two texts of the default settings.
abbrev reading_platform : Platform
reading_platform = record platform {
  parse_ip = λ text. if text =ᵇ codes "10.30.0.0" then ipv4 10 30 0 0 else ipv4 255 255 0 0;
}

abbrev reading_platform-Works : Works reading_platform default_settings
reading_platform-Works = record {
  device = codes "goProxyTun";
  makes = λ w. refl;
  runs = (
    λ w. refl,
    (λ w. refl, (λ w. refl, (tt, (λ w. refl, (tt, (tt, (λ w. refl, (λ w. refl, tt)))))))),
  );
  listens = λ w. refl;
  own_ip = codes "192.168.0.3";
  has_ip = λ w. refl;
}

abbrev dialling : IpLayer
dialling = record {
  version = 4;
  protocol = 17;
  src_ip = addr (10 ∷ 19 ∷ 1 ∷ 2 ∷ []);
  dst_ip = addr (10 ∷ 30 ∷ 0 ∷ 1 ∷ []);
  layer_payload = [];
  rest = [];
}

new_tunnel-is_semantic_example :
    (w' : ℕ) × (t : ProxyTunnel ℕ ℕ) × (new_tunnel reading_platform 42 default_settings 0
      ≡ returns (w', t))
    × ((is_semantic (set_environment 7 t) (ipv4_packet dialling) ≡ true)
        ↔ (◌≡◌ {A = ℕ} 10 10 × ◌≡◌ {A = ℕ} 30 30))
unfolding ◌=ᵇ◌
new_tunnel-is_semantic_example =
    new_tunnel-is_semantic reading_platform reading_platform-Works 42 0 7 dialling 10 30 0 1 refl
      refl refl refl (omega arith) (omega arith) (omega arith) (omega arith)

-- The texts of this host are the bytes of the addresses.
abbrev host : Host
host = record {
  World = ℕ;
  parse_ip = addr;
  ip_string = octets;
  request_subnet =
      λ w. (w + 1, some (record { address = octets (ip4 169017600); address_v6 = octets (ip6 5) }));
  tun_mtu_size = none;
  local_iface = λ w. returns (codes "eth0");
  create_host_bridge = λ c w. (w + 1, false);
  disable_reverse_path_filtering = λ b w. returns (w + 1);
  enable_forwarding = λ b p w. returns (w + 1);
  enable_masquerading = λ a m a6 m6 i w. returns (w + 1);
}

host-Answers : Answers host 169017600 5
unfolding ◌=ᵇ◌
host-Answers = record {
  response = record { address = octets (ip4 169017600); address_v6 = octets (ip6 5) };
  given = λ w. refl;
  is_v4 = refl;
  is_v6 = refl;
  not_empty = refl;
  reads_v4 = λ n h. refl;
  reads_v6 = λ n h. refl;
  iface = codes "eth0";
  has_iface = λ w. refl;
  bridges = λ c w. refl;
  sets = λ b w. (w + 1, refl);
  forwards = λ b p w. (w + 1, refl);
  masks = λ a m a6 m6 i w. (w + 1, refl);
}

new_environment_cluster_configured-IsAllocated_example :
    (w' : ℕ) × (env : Environment ℕ) × (new_environment_cluster_configured host
        (codes "goProxyTun")
        0
      ≡ returns (w', env))
    × IsAllocated (169017600 + 1 + 1) (5 + 1 + 1) env [] []
new_environment_cluster_configured-IsAllocated_example =
    new_environment_cluster_configured-IsAllocated host 169017600 5 host-Answers ℕ
      (codes "goProxyTun") 0 (omega arith) (omega arith)
