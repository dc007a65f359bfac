-- ===== src/Env/Entries.antt =====
-- node-net-manager/env/EnvironmentManager.go: what the environment does with its translation table.
-- The cluster, which answers table queries, and the registration of interests and the events, which
-- go on beside the table, are the parameter `Cluster`.
pub mod Refresh
pub mod Pools
use oakestra_net.Base.{
  ℕ, Bool, true, false, ◌&&◌, ◌||◌, Option, none, some, List, [], ◌∷◌, Bytes, length, ltb, any,
  if◌then◌else◌, Outcome, returns, panic, ◌>>=◌,
}
use oakestra_net.Net.{Ip, addr, equal}
use oakestra_net.Table.{
  TableEntry, TableManager, ServiceIp, zero_entry, has_service_ip, remove_by_nsip,
  remove_by_job_name, search_by_service_ip, search_by_ns_ip, search_by_node_ip,
}
use oakestra_net.Table
use oakestra_net.Env.{Environment}
use oakestra_net.Tunnel.{is_instance_number}

pub record Cluster : Type 1 where
  pub World : Type 0
  -- `tableQueryByIP` and `tableQueryByJobName`, `none` for an error.
  pub table_query_by_ip : Ip → World → World × Option (List TableEntry)
  pub table_query_by_job_name : Bytes → World → World × Option (List TableEntry)
  -- `mqtt.MqttRegisterInterest` and `Emit` of a `TableQuery` event.
  pub register_interest : Bytes → World → World
  pub emit_table_query : Bytes → World → World
  -- `ip.String()`.
  pub ip_string : Ip → Bytes

abbrev set_table : {V : Type 0} → Environment V → TableManager → Environment V
set_table env t = record env { translation_table = t }

-- The inner loop of `GetTableEntryByInstanceIP`.
abbrev pub has_instance_ip : Ip → TableEntry → Bool
has_instance_ip ip e = any (λ s. is_instance_number s.ip_type && has_service_ip ip s) e.service_ip

abbrev pub first_instance : Ip → List TableEntry → TableEntry × Bool
first_instance ip [] = (zero_entry, false)
first_instance ip (e ∷ es) =
    let rest = first_instance ip es in if has_instance_ip ip e then (e, true) else rest

-- The interest of an answer: that of its first entry.
abbrev pub register_first : (c : Cluster) → List TableEntry → c.World → c.World
register_first c [] w = w
register_first c (e ∷ es) w = c.register_interest e.job_name w

module _ {V : Type 0} where
  -- For the address of the node, parsed.
  abbrev pub get_table_entries_on_node : Environment V → Ip → List TableEntry
  get_table_entries_on_node env node_public_address =
      search_by_node_ip env.translation_table node_public_address

  abbrev pub get_table_entry_by_ns_ip : Environment V → Ip → TableEntry × Bool
  get_table_entry_by_ns_ip env ip = search_by_ns_ip env.translation_table ip

  unfoldable pub get_table_entry_by_instance_ip : Environment V → Ip → TableEntry × Bool
  get_table_entry_by_instance_ip env ip =
      first_instance ip (search_by_service_ip env.translation_table ip)

  -- `AddTableQueryEntry`; the errors of the removal and of the addition are dropped.
  unfoldable pub add_table_query_entry : Environment V → TableEntry → Outcome (Environment V)
  add_table_query_entry env entry = remove_by_nsip env.translation_table entry.nsip >>= λ (t, err).
      returns (set_table env (Table.add t entry).0)

  unfoldable pub add_entries : Environment V → List TableEntry → Outcome (Environment V)
  unfolding add_table_query_entry
  add_entries env [] = returns env
  add_entries env (e ∷ es) = add_table_query_entry env e >>= λ env'. add_entries env' es

  unfoldable pub remove_service_entries : Environment V → Bytes → Outcome (Environment V)
  remove_service_entries env jobname =
      remove_by_job_name env.translation_table jobname >>= λ (t, err). returns (set_table env t)

  -- `net.IP(nsip)` is the bytes of the string themselves.
  unfoldable pub remove_ns_ip_entries : Environment V → Bytes → Outcome (Environment V)
  remove_ns_ip_entries env nsip =
      remove_by_nsip env.translation_table (addr nsip) >>= λ (t, err). returns (set_table env t)

  module _ (c : Cluster) where
    open c use {
      World, table_query_by_ip, table_query_by_job_name, register_interest, emit_table_query,
      ip_string,
    }

    -- `GetTableEntryByServiceIP`.
    unfoldable pub get_table_entry_by_service_ip :
        World → Environment V → Ip → Outcome (World × Environment V × List TableEntry)
    unfolding add_entries
    get_table_entry_by_service_ip w env ip = elim (search_by_service_ip env.translation_table ip) [
      | e ∷ es ↦ returns (emit_table_query e.job_name w, env, e ∷ es)
      | [] ↦
          let (w', answer) = table_query_by_ip ip w in
          elim answer [
            | none ↦ returns (w', env, [])
            | some entries ↦ add_entries env entries >>= λ env'. returns (
              register_interest (ip_string ip) (register_first c entries w'),
              env',
              search_by_service_ip env'.translation_table ip,
            )
          ]
    ]

    -- `RefreshServiceTable`.
    unfoldable pub refresh_service_table :
        World → Environment V → Bytes → Outcome (World × Environment V)
    unfolding remove_service_entries add_entries
    refresh_service_table w env jobname =
        let (w', answer) = table_query_by_job_name jobname w in
        elim answer [
          | none ↦ returns (w', env)
          | some entries ↦ remove_service_entries env jobname >>= λ env'.
              add_entries env' entries >>= λ env''. returns (w', env'')
        ]
