-- ===== src/Env.antt =====
-- node-net-manager/env/EnvironmentManager.go: the environment of a node, as far as it is data. It has
-- the addresses for new containers, the deployed services and the translation table.
pub mod Setup
pub mod Addresses
pub mod Allocation
pub mod Deployment
pub mod Deployed
pub mod Unikernel
pub mod Kernel
pub mod Entries
pub mod Directory
use oakestra_net.Base.{
  ℕ, ◌+◌, Bool, true, false, Option, none, some, List, [], ◌∷◌, ◌++◌, Bytes, ltb, ◌=ᵇ◌,
  if◌then◌else◌, Outcome, returns, panic, ◌>>=◌,
}
use oakestra_net.Base.Int.{ℤ}
use oakestra_net.Net.{Ip, is_nil, to4, to16}
use oakestra_net.Network.{next_ipv4, next_ipv6}
use oakestra_net.Table.{TableManager, new_table_manager}

-- `nextContainerIP`, `totNextAddr` and `addrCache`, or the three fields for IPv6.
pub record AddressPool : Type 0 where
  pub next_container_ip : Ip
  pub tot_next_addr : ℕ
  pub addr_cache : List Ip

-- `service`; a veth pair is of a type of the system.
pub record Service (V : Type 0) : Type 0 where
  pub ip : Ip
  pub ipv6 : Ip
  pub sname : Bytes
  pub portmapping : Bytes
  pub veth : V

pub record Environment (V : Type 0) : Type 0 where
  pub next_veth_number : ℕ
  pub translation_table : TableManager
  pub deployed_services : List (Bytes × Service V)
  pub pool : AddressPool
  pub pool_v6 : AddressPool

-- The data of `NewCustom`, with the addresses of the bridge parsed.
unfoldable pub new_custom : {V : Type 0} → Ip → Ip → Outcome (Environment V)
new_custom host_bridge_ip host_bridge_ipv6 = next_ipv4 host_bridge_ip 1 >>= λ ip.
    next_ipv6 host_bridge_ipv6 1 >>= λ ipv6. returns (record {
      next_veth_number = 0;
      translation_table = new_table_manager;
      deployed_services = [];
      pool = record { next_container_ip = ip; tot_next_addr = 1; addr_cache = [] };
      pool_v6 = record { next_container_ip = ipv6; tot_next_addr = 1; addr_cache = [] };
    })

-- The body of `generateAddress` and of `generateIPv6Address`: `none` for the error. The address that
-- the code returns beside the error is not used by its callers.
unfoldable pub take_address :
    ℕ → (Ip → ℕ → Outcome Ip) → AddressPool → Outcome (AddressPool × Option Ip)
take_address max next p = elim p.addr_cache [
  | a ∷ rest ↦ returns (record p { addr_cache = rest }, some a)
  | [] ↦ elim (ltb p.tot_next_addr max) [
    | false ↦ returns (p, none)
    | true ↦ next p.next_container_ip 1 >>= λ a. returns (
      record p { tot_next_addr = p.tot_next_addr + 1; next_container_ip = a },
      some p.next_container_ip,
    )
  ]
]

-- `append(addrCache, ip)`.
abbrev pub give_back : Ip → AddressPool → AddressPool
give_back ip p = record p { addr_cache = p.addr_cache ++ ip ∷ [] }

module _ {V : Type 0} where
  abbrev pub book_veth_number : Environment V → Environment V
  book_veth_number env = record env { next_veth_number = env.next_veth_number + 1 }

  unfoldable pub generate_address : Environment V → Outcome (Environment V × Option Ip)
  unfolding take_address
  generate_address env =
      take_address 62 next_ipv4 env.pool >>= λ (p, ip). returns (record env { pool = p }, ip)

  unfoldable pub generate_ipv6_address : Environment V → Outcome (Environment V × Option Ip)
  unfolding take_address
  generate_ipv6_address env =
      take_address 255 next_ipv6 env.pool_v6 >>= λ (p, ip). returns (record env { pool_v6 = p }, ip)

  unfoldable pub free_container_address : Environment V → Ip → Environment V
  free_container_address env ip =
      if is_nil (to4 ip)
      then if is_nil (to16 ip) then env else record env { pool_v6 = give_back ip env.pool_v6 }
      else record env { pool = give_back ip env.pool }
