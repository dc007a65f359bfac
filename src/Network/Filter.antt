-- ===== src/Network/Filter.antt =====
-- node-net-manager/network/Nat.go: the fixed rules of the packet filter and the settings of the kernel,
-- over the tables of network/iptables.go. A fatal log line ends the process and is `panic` here.
pub mod Masquerading
pub mod IpTable
use oakestra_net.Base.{
  Bool, true, false, not, ◌&&◌, List, [], ◌∷◌, ◌++◌, Bytes, codes, ◌=ᵇ◌, if◌then◌else◌, Outcome,
  returns, panic, ◌>>=◌,
}
use oakestra_net.Base.Words.{contains}

-- `iptable` and `ip6table`.
pub data Version : Type 0 where
  v4 v6 : Version

-- The calls: three methods of `IpTable` with their table, chain and parameters, a file with its text, and
-- a command. A `must` call ends the process when it fails.
pub data Call : Type 0 where
  append_unique delete : Version → Bytes → Bytes → List Bytes → Call
  add_chain delete_chain : Version → Bytes → Bytes → Call
  write_file : Bytes → Bytes → Call
  run : List Bytes → Call

pub data Action : Type 0 where
  must may : Call → Action

pub record Tables : Type 1 where
  pub World : Type 0
  pub perform : Call → World → World × Bool
  -- `net.Interfaces()`: the names, and none where there is an error.
  pub interfaces : World → List Bytes

module _ (t : Tables) where
  open t use {World, perform, interfaces}

  unfoldable pub act : List Action → World → Outcome World
  act [] w = returns w
  act (must c ∷ cs) w =
      let (w', failed) = perform c w in elim failed [ true ↦ panic | false ↦ act cs w' ]
  act (may c ∷ cs) w = act cs (perform c w).0

abbrev pub chain : Bytes
chain = codes "OAKESTRA"

abbrev pub jump : Bytes → List Bytes
jump target = codes "-j" ∷ target ∷ []

abbrev pub iptable_flush_all : List Action
iptable_flush_all =
    may (delete_chain v4 (codes "nat") chain)
    ∷ may (delete v4 (codes "nat") (codes "PREROUTING") (jump chain))
    ∷ may (delete v4 (codes "nat") (codes "POSTROUTING") (jump chain))
    ∷ may (delete_chain v6 (codes "nat") chain)
    ∷ may (delete v6 (codes "nat") (codes "PREROUTING") (jump chain))
    ∷ may (delete v6 (codes "nat") (codes "POSTROUTING") (jump chain))
    ∷ []

abbrev pub disable_reverse_path_filtering : Bytes → List Action
disable_reverse_path_filtering bridge_name =
    must (write_file (codes "/proc/sys/net/ipv4/conf/all/rp_filter") (codes "0"))
    ∷ must (run (codes "sysctl" ∷ codes "-w" ∷ codes "net.ipv4.ip_forward=1" ∷ []))
    ∷ must (run (codes "sysctl" ∷ codes "-w" ∷ codes "net.ipv6.conf.all.forwarding=1" ∷ []))
    ∷ must (
        write_file (codes "/proc/sys/net/ipv4/conf/" ++ bridge_name ++ codes "/rp_filter")
          (codes "0"))
    ∷ []

abbrev pub forward_rules : Version → Bytes → Bytes → List Action
forward_rules v bridge_name proxy_name =
    must (
      append_unique v (codes "filter") (codes "FORWARD")
        (codes "-i" ∷ bridge_name ∷ codes "-o" ∷ proxy_name ∷ jump (codes "ACCEPT")))
    ∷ must (
        append_unique v (codes "filter") (codes "FORWARD")
          (codes "-o" ∷ bridge_name ∷ codes "-i" ∷ proxy_name ∷ jump (codes "ACCEPT")))
    ∷ must (
        append_unique v (codes "filter") (codes "FORWARD")
          (codes "-o" ∷ bridge_name ∷ jump (codes "ACCEPT")))
    ∷ must (
        append_unique v (codes "filter") (codes "FORWARD")
          (codes "-i" ∷ bridge_name ∷ jump (codes "ACCEPT")))
    ∷ []

abbrev pub make_chain : Version → List Action
make_chain v = may (delete_chain v (codes "nat") chain) ∷ may (add_chain v (codes "nat") chain) ∷ []

abbrev pub jump_rules : Version → List Action
jump_rules v =
    must (append_unique v (codes "nat") (codes "PREROUTING") (jump chain))
    ∷ must (append_unique v (codes "nat") (codes "OUTPUT") (jump chain))
    ∷ []

abbrev pub enable_forwarding : Bytes → Bytes → List Action
enable_forwarding bridge_name proxy_name =
    forward_rules v4 bridge_name proxy_name
    ++ forward_rules v6 bridge_name proxy_name
    ++ make_chain v4
    ++ make_chain v6
    ++ jump_rules v4
    ++ jump_rules v6

-- The rule for the addresses of a network that leave by an interface.
abbrev pub masquerade : Version → Bytes → Bytes → Action
masquerade v source ifce = must (
    append_unique v (codes "nat") (codes "POSTROUTING")
      (codes "-s" ∷ source ∷ codes "-o" ∷ ifce ∷ jump (codes "MASQUERADE")))

abbrev pub both_rules : Bytes → Bytes → Bytes → List Action
both_rules source source_v6 ifce = masquerade v4 source ifce ∷ masquerade v6 source_v6 ifce ∷ []

-- The loop over the patterns for one interface, and the loop over the interfaces.
abbrev pub pattern_rules : Bytes → Bytes → Bytes → Bytes → List Bytes → List Action
pattern_rules source source_v6 internet_ifce name [] = []
pattern_rules source source_v6 internet_ifce name (p ∷ ps) =
    let rest = pattern_rules source source_v6 internet_ifce name ps in
    if not (name =ᵇ internet_ifce) && contains p name
    then both_rules source source_v6 name ++ rest
    else rest

abbrev pub ifaces : List Bytes
ifaces = codes "en" ∷ codes "eth" ∷ codes "wl" ∷ []

abbrev pub interface_rules : Bytes → Bytes → Bytes → List Bytes → List Action
interface_rules source source_v6 internet_ifce [] = []
interface_rules source source_v6 internet_ifce (name ∷ names) =
    pattern_rules source source_v6 internet_ifce name ifaces
    ++ interface_rules source source_v6 internet_ifce names

-- `EnableMasquerading`; the interfaces are asked for after the first rules.
module _ (t : Tables) where
  unfoldable pub enable_masquerading :
      Bytes → Bytes → Bytes → Bytes → Bytes → t.World → Outcome t.World
  unfolding act
  enable_masquerading address mask addressipv6 ipv6prefix internet_ifce w =
      act t (both_rules (address ++ mask) (addressipv6 ++ ipv6prefix) internet_ifce) w >>= λ w'.
      act t
        (interface_rules (address ++ mask) (addressipv6 ++ ipv6prefix) internet_ifce
          (t.interfaces w'))
        w'
