-- ===== src/Network/Ports.antt =====
-- node-net-manager/network/Nat.go: the rules that lead ports of the node to a container. The packet
-- filter and `strconv.Atoi` are the parameter `PacketFilter`; a result `true` is an error.
pub mod Validity
use oakestra_net.Base.{
  ℕ, Bool, true, false, not, ◌&&◌, ◌||◌, Option, none, some, List, [], ◌∷◌, ◌++◌, Bytes, codes, leb,
  if◌then◌else◌,
}
use oakestra_net.Base.Int.{ℤ, pos, negsuc}
use oakestra_net.Base.Words.{split, contains, remove_all}
use oakestra_net.Net.{Ip, is_nil, to4, to16}

-- The two constants of the type; the program uses no other value of it.
pub data PortOperation : Type 0 where
  open_ports close_ports : PortOperation

-- The arguments of a rule: `-p`, `--dport` and `--to-destination`.
pub record Rule : Type 0 where
  pub port_type : Bytes
  pub host_port : Bytes
  pub destination : Bytes

pub record PacketFilter : Type 1 where
  pub World : Type 0
  -- `strconv.Atoi`, `none` for an error.
  pub atoi : Bytes → Option ℤ
  -- `ip.String()`.
  pub ip_string : Ip → Bytes
  -- `Append` or `Delete` of `iptable` and of `ip6table`.
  pub change_v4 : PortOperation → Rule → World → World × Bool
  pub change_v6 : PortOperation → Rule → World → World × Bool

-- The host port and the container port of a mapping: the first two parts between colons.
abbrev pub ports_of : List Bytes → Bytes × Bytes
ports_of [] = ([], [])
ports_of (h ∷ []) = (h, h)
ports_of (h ∷ c ∷ rest) = (h, c)

abbrev pub in_range : Option ℤ → Bool
in_range none = false
in_range (some (negsuc n)) = false
in_range (some (pos n)) = leb n 65535

-- The protocol of a mapping, and the mapping without it.
abbrev pub protocol_of : Bytes → Bytes × Bytes
protocol_of portmap =
    if contains (codes "/udp") portmap
    then (codes "udp", remove_all (codes "/udp") portmap)
    else (codes "tcp", remove_all (codes "/tcp") portmap)

module _ (f : PacketFilter) where
  open f use {World, atoi, ip_string, change_v4, change_v6}

  -- `isValidPort`.
  unfoldable pub is_valid_port : Bytes → Bool
  is_valid_port port = in_range (atoi port)

  -- The destination of the rule for an address of each version, or of none.
  abbrev pub destination_of : Ip → Bytes → Bytes
  destination_of address port =
      if not (is_nil (to4 address))
      then ip_string address ++ b':' ∷ port
      else if not (is_nil (to16 address))
      then b'[' ∷ ip_string address ++ b']' ∷ b':' ∷ port
      else []

  -- One rule; an address of neither version is an invalid operation.
  unfoldable pub change_rule : PortOperation → Ip → Rule → World → World × Bool
  change_rule operation address rule w =
      if not (is_nil (to4 address))
      then change_v4 operation rule w
      else if not (is_nil (to16 address))
      then change_v6 operation rule w
      else (w, true)

  -- The two tests of a mapping.
  abbrev pub has_valid_ports : Bytes → Bool
  has_valid_ports portmap =
      let (host_port, container_port) = ports_of (split b':' (protocol_of portmap).1) in
      is_valid_port host_port && is_valid_port container_port

  abbrev pub rule_of : Ip → Bytes → Rule
  rule_of address portmap =
      let (host_port, container_port) = ports_of (split b':' (protocol_of portmap).1) in
      record {
        port_type = (protocol_of portmap).0;
        host_port = host_port;
        destination = destination_of address container_port;
      }

  -- The loop over the mappings.
  unfoldable pub change_all : PortOperation → Ip → List Bytes → World → World × Bool
  unfolding change_rule
  change_all operation address [] w = (w, false)
  change_all operation address (portmap ∷ mappings) w = elim (has_valid_ports portmap) [
    | false ↦ (w, true)
    | true ↦
        let (w', failed) = change_rule operation address (rule_of address portmap) w in
        elim failed [ true ↦ (w', true) | false ↦ change_all operation address mappings w' ]
  ]

  -- `ManageContainerPorts`.
  unfoldable pub manage_container_ports : Ip → Bytes → PortOperation → World → World × Bool
  unfolding change_all
  manage_container_ports address [] operation w = (w, false)
  manage_container_ports address (c ∷ cs) operation w =
      change_all operation address (split b';' (c ∷ cs)) w
