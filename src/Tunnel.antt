-- ===== src/Tunnel.antt =====
-- node-net-manager/proxy/ProxyTunnel.go: the translation of outgoing and of ingoing packets. The
-- environment is the interface `EnvironmentManager` of env/EnvironmentManager.go; the random choice
-- of `math/rand` and the packets of gopacket are parameters. `now` is the time of the call.
pub mod Setup
pub mod Remote
pub mod Loops
pub mod Found
pub mod Flow
pub mod Outgoing
pub mod Replies
use oakestra_net.Base.{
  ℕ, zero, suc, ◌+◌, ◌<◌, Bool, true, false, not, ◌&&◌, ◌||◌, Option, none, some, List, [], ◌∷◌,
  Bytes, length, get_elem?, ltb, ◌==◌, if◌then◌else◌, Outcome, returns, panic, ◌>>=◌,
}
use oakestra_net.Base.Int.{ℤ, pos, negsuc}
use oakestra_net.Net.{Ip, addr, equal, mask}
use oakestra_net.Table.{
  TableEntry, ServiceIp, ServiceIpType, instance_number, closest, round_robin,
  is_namespace_still_valid,
}
use oakestra_net.ProxyCache.{
  ConversionEntry, ProxyCache, retrieve_by_service_ip, retrieve_by_instance_ip,
}
use oakestra_net.ProxyCache
use oakestra_net.Packets.{
  GoPacket, NetworkPacket, TransportLayer, get_source_port, get_dest_port, get_dest_ip, get_src_ip,
  get_protocol_version, serialize_packet,
}

-- The two methods that the tunnel calls. The first may query the cluster, and changes the environment.
pub record EnvironmentManager : Type 1 where
  pub Env : Type 0
  pub get_table_entry_by_service_ip : Env → Ip → Env × List TableEntry
  pub get_table_entry_by_ns_ip : Env → Ip → TableEntry × Bool

-- `rand.Rand`: `Intn(n)` returns a number below a positive `n`.
pub record Rand : Type 1 where
  pub Rng : Type 0
  pub intn : Rng → ℕ → ℕ × Rng
  pub intn-lt : (r : Rng) (n : ℕ) → 0 < n → (intn r n).0 < n

-- `net.IPNet`.
pub record IpNet : Type 0 where
  pub ip : Ip
  pub net_mask : Bytes

-- The fields of `GoProxyTunnel` that the translation uses.
pub record Proxy (E R : Type 0) : Type 0 where
  pub environment : E
  pub proxycache : ProxyCache
  pub randseed : R
  pub proxy_ip_subnetwork : IpNet
  pub proxy_ipv6_subnetwork : IpNet

abbrev pub in_subnetwork : IpNet → Ip → Bool
in_subnetwork n a = equal (mask n.ip n.net_mask) (mask a n.net_mask)

-- `semanticRoutingSubnetwork`.
unfoldable pub is_semantic : {E R : Type 0} → Proxy E R → NetworkPacket → Bool
is_semantic proxy ip =
    if get_protocol_version ip == 6
    then in_subnetwork proxy.proxy_ipv6_subnetwork (get_dest_ip ip)
    else if get_protocol_version ip == 4
    then in_subnetwork proxy.proxy_ip_subnetwork (get_dest_ip ip)
    else false

-- A port as `int`, -1 where there is no transport layer.
abbrev pub port_of : (TransportLayer → ℕ) → Option TransportLayer → ℤ
port_of port none = negsuc 0
port_of port (some l) = pos (port l)

abbrev pub is_instance_number : ServiceIpType → Bool
is_instance_number instance_number = true
is_instance_number closest = false
is_instance_number round_robin = false

-- The loop of `convertToInstanceIp`: a later instance address replaces an earlier one.
unfoldable pub instance_ip_of : ℕ → List ServiceIp → Ip → Ip
instance_ip_of version [] acc = acc
instance_ip_of version (sip ∷ sips) acc = instance_ip_of version sips (
    if is_instance_number sip.ip_type
    then if version == 4 then sip.address else sip.address_v6
    else acc)

-- `entry.dstport < 1`.
abbrev pub below_one : ℤ → Bool
below_one (pos n) = n == 0
below_one (negsuc n) = true

-- The entry of a new flow to the instance of a table entry.
abbrev pub new_entry : NetworkPacket → ℤ → ℤ → Ip → TableEntry → ConversionEntry
new_entry ip srcport dstport instance_ip table_entry = record {
  srcip = get_src_ip ip;
  dstip = if get_protocol_version ip == 4 then table_entry.nsip else table_entry.nsipv6;
  dst_service_ip = get_dest_ip ip;
  src_instance_ip = instance_ip;
  srcport = srcport;
  dstport = dstport;
}

module _ (g : GoPacket) (m : EnvironmentManager) (r : Rand) where
  open g use {Packet}
  open m use {Env, get_table_entry_by_service_ip, get_table_entry_by_ns_ip}
  open r use {Rng, intn}

  -- `convertToInstanceIp`, `none` for an error.
  unfoldable pub convert_to_instance_ip : Env → NetworkPacket → Option Ip
  unfolding instance_ip_of
  convert_to_instance_ip env ip =
      let (entry, exists) = get_table_entry_by_ns_ip env (get_src_ip ip) in
      if exists
      then some (instance_ip_of (get_protocol_version ip) entry.service_ip (addr []))
      else none

  -- A new flow: an entry of the list at random, stored in the cache.
  unfoldable pub choose_entry :
      Proxy Env Rng
      → ℕ
      → NetworkPacket
      → ℤ
      → ℤ
      → Ip
      → List TableEntry
      → Outcome (Proxy Env Rng × ConversionEntry)
  choose_entry proxy now ip srcport dstport instance_ip table =
      let (i, randseed) = intn proxy.randseed (length table) in
      elim (get_elem? table i) [
        | none ↦ panic
        | some table_entry ↦
            let entry = new_entry ip srcport dstport instance_ip table_entry in
            ProxyCache.add proxy.proxycache now entry >>= λ cache.
            returns (record proxy { proxycache = cache; randseed = randseed }, entry)
      ]

  -- The flow of a packet to a known service: the stored one, if its address is still in the list.
  unfoldable pub find_entry :
      Proxy Env Rng
      → ℕ
      → NetworkPacket
      → ℤ
      → ℤ
      → Ip
      → List TableEntry
      → Outcome (Proxy Env Rng × ConversionEntry)
  unfolding choose_entry
  find_entry proxy now ip srcport dstport instance_ip table =
      retrieve_by_service_ip proxy.proxycache now (get_src_ip ip) instance_ip srcport
        (get_dest_ip ip) dstport
      >>= λ (cache, entry, exist).
          let proxy' = record proxy { proxycache = cache } in
          if not exist
            || below_one entry.dstport
            || not (is_namespace_still_valid entry.dstip table)
          then choose_entry proxy' now ip srcport dstport instance_ip table
          else returns (proxy', entry)

  -- `ip.SerializePacket(dst, src, prot)`, which calls a method of `prot`.
  unfoldable pub serialize :
      NetworkPacket → Ip → Ip → Option TransportLayer → Outcome (NetworkPacket × Option Packet)
  serialize ip dst src none = panic
  serialize ip dst src (some prot) = returns (serialize_packet g ip dst src prot)

  -- The part of `outgoingProxy` for a destination in the semantic routing subnetwork.
  unfoldable pub route_packet :
      Proxy Env Rng
      → ℕ
      → NetworkPacket
      → Option TransportLayer
      → Outcome (Proxy Env Rng × NetworkPacket × Option Packet)
  unfolding serialize
  route_packet proxy now ip prot =
      let (env, table) = get_table_entry_by_service_ip proxy.environment (get_dest_ip ip) in
      let proxy' = record proxy { environment = env } in
      elim (ltb (length table) 1) [
        | true ↦ returns (proxy', ip, none)
        | false ↦ elim (convert_to_instance_ip env ip) [
          | none ↦ returns (proxy', ip, none)
          | some instance_ip ↦
              find_entry proxy' now ip (port_of get_source_port prot) (port_of get_dest_port prot)
                instance_ip table
              >>= λ (proxy'', entry).
                  serialize ip entry.dstip entry.src_instance_ip prot >>= λ (ip', packet).
                  returns (proxy'', ip', packet)
        ]
      ]

  -- `outgoingProxy`: the proxy and the packet after the call, and the new packet or nil.
  unfoldable pub outgoing_proxy :
      Proxy Env Rng
      → ℕ
      → NetworkPacket
      → Option TransportLayer
      → Outcome (Proxy Env Rng × NetworkPacket × Option Packet)
  unfolding route_packet
  outgoing_proxy proxy now ip prot =
      if is_semantic proxy ip then route_packet proxy now ip prot else returns (proxy, ip, none)

  -- `ingoingProxy`.
  unfoldable pub ingoing_proxy :
      Proxy Env Rng
      → ℕ
      → NetworkPacket
      → Option TransportLayer
      → Outcome (Proxy Env Rng × NetworkPacket × Option Packet)
  unfolding serialize
  ingoing_proxy proxy now ip prot =
      retrieve_by_instance_ip proxy.proxycache now (get_dest_ip ip) (port_of get_dest_port prot)
        (port_of get_source_port prot)
      >>= λ (cache, entry, exist).
          let proxy' = record proxy { proxycache = cache } in
          elim exist [
            | true ↦ serialize ip entry.srcip entry.dst_service_ip prot >>= λ (ip', packet).
                returns (proxy', ip', packet)
            | false ↦ returns (proxy', ip, none)
          ]

  -- `locateRemoteAddress`.
  unfoldable pub locate_remote_address : Env → Ip → Ip × ℤ
  locate_remote_address env ns_ip =
      let (entry, found) = get_table_entry_by_ns_ip env ns_ip in
      if found then (entry.nodeip, entry.nodeport) else (ns_ip, negsuc 0)
