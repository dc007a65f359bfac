-- ===== src/Network/Interfaces.antt =====
-- node-net-manager/network/NetUtils.go: the default route and the address of the node. The routes, links
-- and interfaces of the machine are what the calls of netlink and net return.
pub mod Default
use oakestra_net.Base.{
  ℕ, suc, Bool, true, false, not, ◌&&◌, Option, none, some, List, [], ◌∷◌, Bytes, ◌=ᵇ◌,
  if◌then◌else◌, Outcome, returns, panic, ◌>>=◌,
}
use oakestra_net.Net.{Ip, is_nil, to4}

-- A link with its name.
pub record Link : Type 0 where
  pub index : ℕ
  pub name : Bytes

-- An address of an interface, which may be of another type than `*net.IPNet`.
pub data Address : Type 0 where
  ip_net : Ip → Address
  other : Address

-- An interface with what `Addrs` returns, `none` for an error.
pub record Interface : Type 0 where
  pub name : Bytes
  pub addrs : Option (List Address)

module _ (link_by_index : ℕ → Option Bytes) (default_interface : Bytes) where
  -- The loop over several routes: links that are not found are passed over.
  unfoldable pub find_default : List ℕ → Option Link
  find_default [] = none
  find_default (r ∷ rs) =
      let rest = find_default rs in
      elim (link_by_index r) [
        | none ↦ rest
        | some n ↦ if n =ᵇ default_interface then some (record { index = r; name = n }) else rest
      ]

  -- `defaultRoute`, for the link indexes of the routes, or `none` for an error.
  unfoldable pub default_route : Option (List ℕ) → Option Link
  unfolding find_default
  default_route none = none
  default_route (some []) = none
  default_route (some (r ∷ [])) = elim (link_by_index r) [
    | none ↦ none
    | some n ↦
        if not (default_interface =ᵇ []) && not (n =ᵇ default_interface)
        then none
        else some (record { index = r; name = n })
  ]
  default_route (some (r ∷ r' ∷ rs)) =
      if default_interface =ᵇ [] then none else find_default (r ∷ r' ∷ rs)

module _ (is_loopback : Ip → Bool) (ip_string : Ip → Bytes) where
  -- The loop over the addresses of one interface.
  unfoldable pub find_address : Bytes → Bytes → List Address → Option (Bytes × Bytes)
  find_address default_name name [] = none
  find_address default_name name (other ∷ as') = find_address default_name name as'
  find_address default_name name (ip_net ip ∷ as') =
      let rest = find_address default_name name as' in
      if not (is_loopback ip) && name =ᵇ default_name && not (is_nil (to4 ip))
      then some (ip_string ip, name)
      else rest

  unfoldable pub find_interface : Bytes → List Interface → Outcome (Bytes × Bytes)
  unfolding find_address
  find_interface default_name [] = returns ([], [])
  find_interface default_name (i ∷ is) =
      let rest = find_interface default_name is in
      elim i.addrs [
        | none ↦ panic
        | some as' ↦ elim (find_address default_name i.name as') [
          | some found ↦ returns found
          | none ↦ rest
        ]
      ]

  -- `GetLocalIPandIface`, for `net.Interfaces()` and the default route.
  unfoldable pub get_local_ip_and_iface :
      Option (List Interface) → Option Link → Outcome (Bytes × Bytes)
  unfolding find_interface
  get_local_ip_and_iface none route = panic
  get_local_ip_and_iface (some list) none = panic
  get_local_ip_and_iface (some list) (some default_ifce) = find_interface default_ifce.name list

-- `body[:len(body)-1]`, which panics on an empty body.
abbrev pub drop_last : Bytes → Outcome Bytes
drop_last [] = panic
drop_last (c ∷ []) = returns []
drop_last (c ∷ d ∷ cs) = drop_last (d ∷ cs) >>= λ rest. returns (c ∷ rest)

-- `GetOutboundIP` after the connection: the setting, the local address, the answer of the service
-- that tells the public address, `none` for an error, and its body, `none` for an error. Where there is
-- no answer the code reads it all the same, which is a nil dereference.
unfoldable pub get_outbound_ip : Bool → Ip → (Bytes → Ip) → Option (Option Bytes) → Outcome Ip
get_outbound_ip false local parse_ip answer = returns local
get_outbound_ip true local parse_ip none = panic
get_outbound_ip true local parse_ip (some none) = returns local
get_outbound_ip true local parse_ip (some (some body)) =
    drop_last body >>= λ text. returns (parse_ip text)
