-- ===== src/Tunnel/Setup.antt =====
-- node-net-manager/proxy/ProxySetup.go: how the tunnel is made. The calls of the system are the parameter
-- `Platform`. A fatal log line ends the process, as a panic does, and is `panic` here.
pub mod Ready
pub mod Subnetwork
use oakestra_net.Base.{
  ℕ, Bool, true, false, Option, none, some, List, [], ◌∷◌, ◌++◌, Bytes, codes, Outcome, returns,
  panic, ◌>>=◌,
}
use oakestra_net.Base.Int.{ℤ, pos}
use oakestra_net.Net.{Ip, to4, octets}
use oakestra_net.ProxyCache.{new_proxy_cache}
use oakestra_net.Tunnel.{IpNet, Proxy}

-- `Configuration` of the tunnel.
pub record Settings : Type 0 where
  pub host_tun_device_name : Bytes
  pub proxy_subnetwork : Bytes
  pub proxy_subnetwork_mask : Bytes
  pub tun_net_ip : Bytes
  pub tunnel_port : ℤ
  pub mtusize : ℤ
  pub tun_net_ipv6 : Bytes
  pub proxy_subnetwork_ipv6 : Bytes
  pub proxy_subnetwork_ipv6_prefix : ℤ

-- `GoProxyTunnel` without its channels and its connections. The environment is nil until it is set.
pub record ProxyTunnel (E R : Type 0) : Type 0 where
  pub device_name : Bytes
  pub udp_port : ℤ
  pub local_ip : Ip
  pub proxy : Proxy (Option E) R

pub record Platform : Type 1 where
  pub World : Type 0
  -- `water.New` for a name: the name of the device.
  pub new_tun : Bytes → World → World × Option Bytes
  -- `cmd.Run()`, and `cmd.Output()` where the error is dropped.
  pub run : List Bytes → World → World × Bool
  -- The socket for the port, with its read buffer.
  pub listen_udp : ℤ → World → World × Bool
  -- `network.GetLocalIPandIface`.
  pub get_local_ip : World → Outcome Bytes
  pub parse_ip : Bytes → Ip
  pub ip_string : Ip → Bytes
  -- `net.CIDRMask` and `String` of a mask.
  pub cidr_mask : ℤ → ℕ → Bytes
  pub mask_string : Bytes → Bytes
  pub itoa : ℤ → Bytes
  -- `json.Decoder.Decode` of the file into a configuration, which logs its error.
  pub decode : Settings → Settings

abbrev pub default_settings : Settings
default_settings = record {
  host_tun_device_name = codes "goProxyTun";
  tun_net_ip = codes "10.19.1.254";
  proxy_subnetwork = codes "10.30.0.0";
  proxy_subnetwork_mask = codes "255.255.0.0";
  tunnel_port = pos 50103;
  mtusize = pos 1450;
  tun_net_ipv6 = codes "fcef::dead:beef";
  proxy_subnetwork_ipv6 = codes "fc00::";
  proxy_subnetwork_ipv6_prefix = pos 7;
}

-- A command whose failure ends the process, or one whose failure is passed over.
pub data Command : Type 0 where
  must may : List Bytes → Command

module _ (p : Platform) where
  open p use {
    World, new_tun, run, listen_udp, get_local_ip, parse_ip, ip_string, cidr_mask, mask_string,
    itoa, decode,
  }

  -- The two subnetworks of a configuration.
  abbrev pub subnetwork : Settings → IpNet
  subnetwork c = record {
    ip = parse_ip c.proxy_subnetwork;
    net_mask = octets (to4 (parse_ip c.proxy_subnetwork_mask));
  }

  abbrev pub subnetwork_v6 : Settings → IpNet
  subnetwork_v6 c = record {
    ip = parse_ip c.proxy_subnetwork_ipv6;
    net_mask = cidr_mask c.proxy_subnetwork_ipv6_prefix 128;
  }

  abbrev pub accept_rule : Bytes → List Bytes
  accept_rule table =
      table
      ∷ codes "-A"
      ∷ codes "INPUT"
      ∷ codes "-i"
      ∷ codes "tun0"
      ∷ codes "-m"
      ∷ codes "state"
      ∷ codes "--state"
      ∷ codes "RELATED,ESTABLISHED"
      ∷ codes "-j"
      ∷ codes "ACCEPT"
      ∷ []

  -- The commands of `createTun` in their order.
  abbrev pub tun_commands : Settings → Bytes → List Command
  tun_commands c name =
      must (
        codes "ip"
        ∷ codes "addr"
        ∷ codes "add"
        ∷ (c.tun_net_ip ++ codes "/12")
        ∷ codes "dev"
        ∷ name
        ∷ [])
      ∷ must (
          codes "ip"
          ∷ codes "addr"
          ∷ codes "add"
          ∷ (c.tun_net_ipv6 ++ codes "/7")
          ∷ codes "dev"
          ∷ name
          ∷ [])
      ∷ must (codes "ip" ∷ codes "link" ∷ codes "set" ∷ codes "dev" ∷ name ∷ codes "up" ∷ [])
      ∷ may (
          codes "echo"
          ∷ codes "0"
          ∷ codes ">"
          ∷ (codes "/proc/sys/net/ipv4/conf/" ++ name ++ codes "/rp_filter")
          ∷ [])
      ∷ must (
          codes "ip"
          ∷ codes "link"
          ∷ codes "set"
          ∷ codes "dev"
          ∷ name
          ∷ codes "mtu"
          ∷ itoa c.mtusize
          ∷ [])
      ∷ may (
          codes "ip" ∷ codes "route" ∷ codes "add" ∷ codes "10.30.0.0/12" ∷ codes "dev" ∷ name ∷ [])
      ∷ may (
          codes "ip"
          ∷ codes "route"
          ∷ codes "add"
          ∷ (ip_string (subnetwork_v6 c).ip ++ mask_string (subnetwork_v6 c).net_mask)
          ∷ codes "dev"
          ∷ name
          ∷ [])
      ∷ must (accept_rule (codes "iptables"))
      ∷ must (accept_rule (codes "ip6tables"))
      ∷ []

  unfoldable pub run_all : List Command → World → Outcome World
  run_all [] w = returns w
  run_all (must args ∷ cs) w =
      let (w', failed) = run args w in elim failed [ true ↦ panic | false ↦ run_all cs w' ]
  run_all (may args ∷ cs) w = run_all cs (run args w).0

  -- `createTun`: the name of the device that was made.
  unfoldable pub create_tun : Settings → World → Outcome (World × Bytes)
  unfolding run_all
  create_tun c w =
      let (w1, device) = new_tun c.host_tun_device_name w in
      elim device [
        | none ↦ panic
        | some name ↦ run_all (tun_commands c name) w1 >>= λ w2.
            let (w3, failed) = listen_udp c.tunnel_port w2 in
            elim failed [ true ↦ panic | false ↦ returns (w3, name) ]
      ]

  module _ {E R : Type 0} (source : R) where
    -- `NewCustom`, with the source of random numbers.
    unfoldable pub new_tunnel : Settings → World → Outcome (World × ProxyTunnel E R)
    unfolding create_tun
    new_tunnel c w = create_tun c w >>= λ (w', name). get_local_ip w' >>= λ ipstring. returns (
      w',
      record {
        device_name = name;
        udp_port = c.tunnel_port;
        local_ip = parse_ip ipstring;
        proxy = record {
          environment = none;
          proxycache = new_proxy_cache;
          randseed = source;
          proxy_ip_subnetwork = subnetwork c;
          proxy_ipv6_subnetwork = subnetwork_v6 c;
        };
      },
    )

    -- `New`.
    abbrev pub new : World → Outcome (World × ProxyTunnel E R)
    new w = new_tunnel (decode default_settings) w

-- `SetEnvironment`: the proxy as the translation uses it.
abbrev pub set_environment : {E R : Type 0} → E → ProxyTunnel E R → Proxy E R
set_environment env t = record {
  environment = env;
  proxycache = t.proxy.proxycache;
  randseed = t.proxy.randseed;
  proxy_ip_subnetwork = t.proxy.proxy_ip_subnetwork;
  proxy_ipv6_subnetwork = t.proxy.proxy_ipv6_subnetwork;
}
