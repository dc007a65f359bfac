-- ===== src/Env/Entries/Pools.antt =====
-- What changes of the translation table leave alone: the pools of addresses.
use oakestra_net.Base.{◌≡◌, refl, inl, inr, Option-cases, List, [], ◌∷◌, Bytes, returns}
use oakestra_net.Table.{TableEntry}
use oakestra_net.Table
use oakestra_net.Table.Remove.{remove_by_nsip_returns, remove_by_job_name_lem}
use oakestra_net.Env.{Environment}
use oakestra_net.Env.Entries.{
  Cluster, add_table_query_entry, add_entries, remove_service_entries, refresh_service_table,
}

module _ {V : Type 0} where
  -- The pools are the same.
  abbrev pub SamePools : Environment V → Environment V → Type 0
  SamePools env env' = (env'.pool ≡ env.pool) × (env'.pool_v6 ≡ env.pool_v6)

  pub add_entries-SamePools :
      (env : Environment V) (es : List TableEntry)
      → (env' : Environment V) × (add_entries env es ≡ returns env') × SamePools env env'
  unfolding add_entries add_table_query_entry
  add_entries-SamePools env [] = (env, refl, (refl, refl))
  add_entries-SamePools env (e ∷ es) =
      let (t, err, q) = remove_by_nsip_returns env.translation_table e.nsip in
      let (env', r, s) =
        add_entries-SamePools (record env { translation_table = (Table.add t e).0 }) es in
      (env', rw (q) r, s)

  pub refresh_service_table-SamePools :
      (c : Cluster) (w : c.World) (env : Environment V) (jobname : Bytes)
      → (w' : c.World) × (env' : Environment V) × (refresh_service_table c w env jobname
          ≡ returns (w', env'))
        × SamePools env env'
  unfolding refresh_service_table remove_service_entries
  refresh_service_table-SamePools c w env jobname =
      let (t, e, p) = remove_by_job_name_lem env.translation_table jobname in
      elim (Option-cases (c.table_query_by_job_name jobname w).1) [
        | inl a ↦ (
          (c.table_query_by_job_name jobname w).0,
          env,
          rw (a, refresh_service_table) refl,
          (refl, refl),
        )
        | inr (answer, a) ↦
            let (env', r, s) =
              add_entries-SamePools (record env { translation_table = t }) answer in
            (
              (c.table_query_by_job_name jobname w).0,
              env',
              rw (a, refresh_service_table) (rw (e) (rw (r) refl)),
              s,
            )
      ]
