-- ===== src/Env/Directory.antt =====
-- node-net-manager/env/EnvironmentManager.go as the interface `EnvironmentManager` that the tunnel of
-- node-net-manager/proxy/ProxyTunnel.go takes.
use mathlib.Core.List.{mem-cons_self, mem-cons_of_mem}
use oakestra_net.Base.{
  ℕ, ◌<◌, ◌≡◌, inl, inr, refl, sym, ◌∙◌, Bool, true, Bool-cases, List-cases, Option-cases, some,
  List, [], ◌∷◌, Mem, any, length, arith, returns, panic,
}
use oakestra_net.Net.{Ip}
use oakestra_net.Table.{TableEntry, has_ns_ip, search_by_service_ip, is_namespace_still_valid}
use oakestra_net.Table.Search.{serves, search_by_service_ip_iff, is_namespace_still_valid-any}
use oakestra_net.Env.{Environment}
use oakestra_net.Env.Entries.{
  Cluster, register_first, get_table_entry_by_ns_ip, get_table_entry_by_service_ip,
}
use oakestra_net.Env.Entries.Pools.{add_entries-SamePools}
use oakestra_net.ProxyCache.{ConversionEntry}
use oakestra_net.ProxyCache.Invariant.{IsValid}
use oakestra_net.Packets.{
  GoPacket, NetworkPacket, TransportLayer, get_source_port, get_dest_ip, serialize_packet,
}
use oakestra_net.Tunnel.{
  EnvironmentManager, Rand, Proxy, outgoing_proxy, is_semantic, convert_to_instance_ip,
}
use oakestra_net.Tunnel.Outgoing.{asked, sends, outgoing_proxy_routes}

any-mem :
    {A : Type 0} (p : A → Bool) (xs : List A) → any p xs ≡ true → (x : A) × Mem x xs × (p x ≡ true)
any-mem p [] h = absurd (ground arith)
any-mem p (x ∷ xs) h = elim (Bool-cases (p x)) [
  | inl t ↦ (x, mem-cons_self, t)
  | inr f ↦ let (y, m, t) = any-mem p xs (rw (f) at h) in (y, mem-cons_of_mem _ m, t)
]

module _ {V : Type 0} where
  -- `GetTableEntryByServiceIP` does not panic, whatever the cluster answers, and what it returns is what
  -- a search of the table that it leaves finds for the address.
  pub get_table_entry_by_service_ip-search :
      (c : Cluster) (w : c.World) (env : Environment V) (ip : Ip)
      → (w' : c.World) × (env' : Environment V) × (get_table_entry_by_service_ip c w env ip
          ≡ returns (w', env', search_by_service_ip env'.translation_table ip))
  unfolding get_table_entry_by_service_ip
  get_table_entry_by_service_ip-search c w env ip =
      elim (List-cases (search_by_service_ip env.translation_table ip)) [
        | inr (e, es, h) ↦
            (c.emit_table_query e.job_name w, env, rw (h, get_table_entry_by_service_ip) refl)
        | inl h ↦ elim (Option-cases (c.table_query_by_ip ip w).1) [
          | inl a ↦ (
            (c.table_query_by_ip ip w).0,
            env,
            rw (h, get_table_entry_by_service_ip) (rw (a) refl),
          )
          | inr (entries, a) ↦
              let (env', r, s) = add_entries-SamePools env entries in
              (
                c.register_interest (c.ip_string ip)
                    (register_first c entries (c.table_query_by_ip ip w).0),
                env',
                rw (h, get_table_entry_by_service_ip) (rw (a) (rw (r) refl)),
              )
        ]
      ]

-- The environment with the world that it queries; it does not panic.
abbrev pub environment_manager : Type 0 → Cluster → EnvironmentManager
environment_manager V c = record {
  Env = c.World × Environment V;
  get_table_entry_by_service_ip = λ s ip. elim (get_table_entry_by_service_ip c s.0 s.1 ip) [
    | returns (w, env, entries) ↦ ((w, env), entries)
    | panic ↦ (s, [])
  ];
  get_table_entry_by_ns_ip = λ s ip. get_table_entry_by_ns_ip s.1 ip;
}

module _ (g : GoPacket) (r : Rand) (V : Type 0) (c : Cluster) where
  -- The destination of a translated packet: a namespace address of an entry that the table left by
  -- the lookup has, and that serves the address.
  unfoldable pub LeadsTo : c.World × Environment V → Ip → ConversionEntry → Type 0
  LeadsTo (w, env) ip flow =
      (s : c.World × Environment V) × (entries : List TableEntry) × (get_table_entry_by_service_ip c
          w env ip
        ≡ returns (s.0, s.1, entries))
      × (e : TableEntry) × Mem e s.1.translation_table.translation_table
      × (serves ip e ≡ true)
      × (has_ns_ip flow.dstip e ≡ true)

  alive-LeadsTo :
      (s : c.World × Environment V) (ip : Ip) (flow : ConversionEntry)
      → is_namespace_still_valid flow.dstip
          ((environment_manager V c).get_table_entry_by_service_ip s ip).1
        ≡ true
      → LeadsTo s ip flow
  unfolding LeadsTo
  alive-LeadsTo (w, env) ip flow alive =
      let (w', env', e) = get_table_entry_by_service_ip-search c w env ip in
      let found : any (has_ns_ip flow.dstip) (search_by_service_ip env'.translation_table ip)
          ≡ true =
        sym (is_namespace_still_valid-any flow.dstip _) ∙ (rw (e, environment_manager) at alive) in
      let (x, m, h) =
        any-mem (has_ns_ip flow.dstip) (search_by_service_ip env'.translation_table ip) found in
      let (n, o) = (search_by_service_ip_iff env'.translation_table ip x).0 m in
      ((w', env'), search_by_service_ip env'.translation_table ip, e, x, n, o, h)

  -- The tunnel with the environment of the node: a packet from a local instance to a service with an
  -- instance is sent on, with no panic, whatever the cluster answers. It goes to a namespace address
  -- of an entry that is in the table after the lookup and serves the address that was dialled.
  pub outgoing_proxy-environment_manager :
      (proxy : Proxy (c.World × Environment V) r.Rng) (now : ℕ) (ip : NetworkPacket)
      (t : TransportLayer) (inst : Ip)
      → is_semantic proxy ip ≡ true
      → 0 < length (asked g (environment_manager V c) r proxy ip).1
      → convert_to_instance_ip g
          (environment_manager V c)
          r
          (asked g (environment_manager V c) r proxy ip).0
          ip
        ≡ some inst
      → IsValid proxy.proxycache
      → proxy.proxycache.cache_len ≡ 65536
      → get_source_port t < 65536
      → (proxy' : Proxy (c.World × Environment V) r.Rng) × (flow : ConversionEntry)
        × (outgoing_proxy g (environment_manager V c) r proxy now ip (some t)
            ≡ returns (
                sends g
                  (environment_manager V c)
                  r
                  proxy'
                  (serialize_packet g ip flow.dstip flow.src_instance_ip t)))
        × LeadsTo proxy.environment (get_dest_ip ip) flow
  outgoing_proxy-environment_manager proxy now ip t inst semantic known local valid size port =
      let (proxy', flow, sent, found) =
        outgoing_proxy_routes g (environment_manager V c) r proxy now ip t inst semantic known local
          valid size port in
      (proxy', flow, sent, alive-LeadsTo proxy.environment (get_dest_ip ip) flow found.alive)
