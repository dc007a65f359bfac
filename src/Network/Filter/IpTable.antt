-- ===== src/Network/Filter/IpTable.antt =====
-- node-net-manager/network/iptables.go: the tables of the packet filter over the library go-iptables, and
-- with the files and commands of the system the tables that the rules of network/Nat.go need.
use oakestra_net.Base.{Bool, true, false, List, Bytes, Outcome, returns, panic}
use oakestra_net.Network.Filter.{
  Version, Call, append_unique, delete, add_chain, delete_chain, write_file, run, Tables,
}

-- The methods of `iptables.IPTables` for each protocol, with whether there is an error, and the calls on
-- files and commands.
pub record GoIptables : Type 1 where
  pub World : Type 0
  pub new_with_protocol : Version → World → World × Bool
  pub lib_append : Version → Bytes → Bytes → List Bytes → World → World × Bool
  pub lib_append_unique : Version → Bytes → Bytes → List Bytes → World → World × Bool
  pub lib_delete : Version → Bytes → Bytes → List Bytes → World → World × Bool
  pub clear_and_delete_chain : Version → Bytes → Bytes → World → World × Bool
  pub new_chain : Version → Bytes → Bytes → World → World × Bool
  pub os_write_file : Bytes → Bytes → World → World × Bool
  pub exec_run : List Bytes → World → World × Bool
  pub net_interfaces : World → List Bytes

module _ (g : GoIptables) where
  open g use {
    World, new_with_protocol, lib_append, lib_append_unique, lib_delete, clear_and_delete_chain,
    new_chain, os_write_file, exec_run, net_interfaces,
  }

  -- `NewOakestraIPTable`, which ends the process on an error.
  abbrev made : World × Bool → Outcome World
  made (w, true) = panic
  made (w, false) = returns w

  unfoldable pub new_oakestra_ip_table : Version → World → Outcome World
  new_oakestra_ip_table v w = made (new_with_protocol v w)

  -- The methods of `oakestraIpTable`.
  abbrev pub ip_table_append : Version → Bytes → Bytes → List Bytes → World → World × Bool
  ip_table_append v table chain params w = lib_append v table chain params w

  abbrev pub ip_table_append_unique : Version → Bytes → Bytes → List Bytes → World → World × Bool
  ip_table_append_unique v table chain params w = lib_append_unique v table chain params w

  abbrev pub ip_table_delete : Version → Bytes → Bytes → List Bytes → World → World × Bool
  ip_table_delete v table chain params w = lib_delete v table chain params w

  -- The chain is emptied first.
  abbrev pub ip_table_delete_chain : Version → Bytes → Bytes → World → World × Bool
  ip_table_delete_chain v table chain w = clear_and_delete_chain v table chain w

  abbrev pub ip_table_add_chain : Version → Bytes → Bytes → World → World × Bool
  ip_table_add_chain v table chain w = new_chain v table chain w

  unfoldable pub perform_call : Call → World → World × Bool
  perform_call (append_unique v table chain params) w =
      ip_table_append_unique v table chain params w
  perform_call (delete v table chain params) w = ip_table_delete v table chain params w
  perform_call (add_chain v table chain) w = ip_table_add_chain v table chain w
  perform_call (delete_chain v table chain) w = ip_table_delete_chain v table chain w
  perform_call (write_file path text) w = os_write_file path text w
  perform_call (run command) w = exec_run command w

  -- The tables as the interface that the rules take.
  abbrev pub ip_tables : Tables
  ip_tables = record { World = World; perform = perform_call; interfaces = net_interfaces }
