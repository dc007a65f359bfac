-- ===== src/Tunnel/Setup/Ready.antt =====
-- A tunnel that was made is ready for packets.
use oakestra_net.Base.{◌≡◌, refl, false, none, some, All, List, [], ◌∷◌, Bytes, returns}
use oakestra_net.ProxyCache.{new_proxy_cache}
use oakestra_net.ProxyCache.Invariant.{IsValid, new_proxy_cache-IsValid}
use oakestra_net.Tunnel.Setup.{
  Settings, ProxyTunnel, Platform, Command, must, may, tun_commands, subnetwork, subnetwork_v6,
  run_all, create_tun, new_tunnel,
}

-- The command succeeds if its failure ends the process.
abbrev pub Succeeds : Platform → Command → Type 0
Succeeds p (must args) = (w : p.World) → (p.run args w).1 ≡ false
Succeeds p (may args) = Unit {0}

-- A platform where the calls succeed whose failure ends the process.
pub record Works (p : Platform) (c : Settings) : Type 0 where
  pub device : Bytes
  pub makes : (w : p.World) → (p.new_tun c.host_tun_device_name w).1 ≡ some device
  pub runs : All (Succeeds p) (tun_commands p c device)
  pub listens : (w : p.World) → (p.listen_udp c.tunnel_port w).1 ≡ false
  pub own_ip : Bytes
  pub has_ip : (w : p.World) → p.get_local_ip w ≡ returns own_ip

-- The state of a tunnel that waits for its first packet.
pub record IsReady {E R : Type 0} (p : Platform) (c : Settings) (own_ip : Bytes)
    (t : ProxyTunnel E R) : Type 0 where
  pub cache : IsValid t.proxy.proxycache
  pub cache_size : t.proxy.proxycache.cache_len ≡ 65536
  pub subnet : t.proxy.proxy_ip_subnetwork ≡ subnetwork p c
  pub subnet_v6 : t.proxy.proxy_ipv6_subnetwork ≡ subnetwork_v6 p c
  pub address : t.local_ip ≡ p.parse_ip own_ip
  pub alone : t.proxy.environment ≡ none

cache_len-new_proxy_cache : new_proxy_cache.cache_len ≡ 65536
unfolding new_proxy_cache
cache_len-new_proxy_cache = refl

module _ (p : Platform) (c : Settings) (k : Works p c) where
  run_all_returns :
      (cs : List Command) (w : p.World)
      → All (Succeeds p) cs
      → (w' : p.World) × (run_all p cs w ≡ returns w')
  unfolding run_all
  run_all_returns [] w all = (w, refl)
  run_all_returns (must args ∷ cs) w (one, all) =
      let (w', e) = run_all_returns cs (p.run args w).0 all in (w', rw (one w, run_all) e)
  run_all_returns (may args ∷ cs) w (one, all) = run_all_returns cs (p.run args w).0 all

  create_tun_returns : (w : p.World) → (w' : p.World) × (create_tun p c w ≡ returns (w', k.device))
  unfolding create_tun
  create_tun_returns w =
      let (w2, e) =
        run_all_returns (tun_commands p c k.device) (p.new_tun c.host_tun_device_name w).0 k.runs in
      (
        (p.listen_udp c.tunnel_port w2).0,
        rw (k.makes w, create_tun) (rw (e) (rw (k.listens w2) refl)),
      )

  -- On a platform where the calls succeed that must, `NewCustom` returns a tunnel with a valid cache of
  -- 65536 lists, which the translation of packets asks for, the subnetworks of the configuration, the
  -- address of the node, and no environment.
  pub new_tunnel-IsReady :
      {E R : Type 0} (source : R) (w : p.World)
      → (w' : p.World) × (t : ProxyTunnel E R) × (new_tunnel p source c w ≡ returns (w', t))
        × IsReady p c k.own_ip t
  unfolding new_tunnel
  new_tunnel-IsReady {E = E} {R = R} source w =
      let (w', e) = create_tun_returns w in
      let t : ProxyTunnel E R = record {
        device_name = k.device;
        udp_port = c.tunnel_port;
        local_ip = p.parse_ip k.own_ip;
        proxy = record {
          environment = none;
          proxycache = new_proxy_cache;
          randseed = source;
          proxy_ip_subnetwork = subnetwork p c;
          proxy_ipv6_subnetwork = subnetwork_v6 p c;
        };
      } in
      (
        w',
        t,
        rw (e, new_tunnel) (rw (k.has_ip w') refl),
        record {
          cache = new_proxy_cache-IsValid;
          cache_size = cache_len-new_proxy_cache;
          subnet = refl;
          subnet_v6 = refl;
          address = refl;
          alone = refl;
        },
      )
