-- ===== src/Tunnel/Flow.antt =====
-- The flow of an outgoing packet: what is stored for it, and where it leads.
use oakestra_net.Base.{
  ℕ, ◌<◌, ◌≡◌, refl, ◌∙◌, inl, inr, true, not, ◌||◌, some, List, length, get_elem?-lt, find?,
  Bool-cases, arith, returns, ==_refl,
}
use oakestra_net.Base.Int.{ℤ, pos, ==ℤ_refl}
use oakestra_net.Net.{Ip}
use oakestra_net.Net.Equal.{equal_refl}
use oakestra_net.Table.{TableEntry, is_namespace_still_valid}
use oakestra_net.ProxyCache.{ConversionEntry, is_flow, is_reply, write_at, make_slots}
use oakestra_net.ProxyCache.Invariant.{
  IsValid, add-IsValid, write_at-IsValid, make_slots-IsListValid, touch-IsListValid,
}
use oakestra_net.ProxyCache.Flows.{
  find?-some, find?_same, find?-add_to_conversion_list, is_flow_narrow, is_reply_narrow,
}
use oakestra_net.Packets.{GoPacket, NetworkPacket, get_dest_ip, get_src_ip}
use oakestra_net.Tunnel.{
  EnvironmentManager, Rand, Proxy, below_one, new_entry, choose_entry, find_entry,
}
use oakestra_net.Tunnel.Found.{IsFound, new_entry-alive, retrieve_cases, is_flow-is_reply}

module _ (g : GoPacket) (m : EnvironmentManager) (r : Rand) where
  open m use {Env}
  open r use {Rng, intn}

  choose_entry-IsFound :
      (proxy : Proxy Env Rng) (now p : ℕ) (ip : NetworkPacket) (d : ℤ) (inst : Ip)
      (table : List TableEntry)
      → IsValid proxy.proxycache
      → p < proxy.proxycache.cache_len
      → 0 < length table
      → (proxy' : Proxy Env Rng) × (entry : ConversionEntry) × (choose_entry g m r proxy now ip
            (pos p)
            d
            inst
            table
          ≡ returns (proxy', entry))
        × IsFound proxy.proxycache.cache_len p
            (get_src_ip ip)
            inst
            (get_dest_ip ip)
            d
            table
            proxy'
            entry
  unfolding choose_entry
  choose_entry-IsFound proxy now p ip d inst table v small h =
      let (i, s) = intn proxy.randseed (length table) in
      let (te, at_i) = get_elem?-lt table i (r.intn-lt proxy.randseed (length table) h) in
      let entry = new_entry ip (pos p) d inst te in
      let (l, eq, added, v') = add-IsValid proxy.proxycache now p entry v refl small in
      let (w, n, k) =
        make_slots-IsListValid proxy.proxycache.conversion_list_max_size (proxy.proxycache.cache p)
          v.room (v.lists p) in
      (
        record proxy { proxycache = write_at proxy.proxycache p l; randseed = s },
        entry,
        rw (at_i, choose_entry) (rw added refl),
        record {
          valid = v';
          same_size = refl;
          flow =
              rw
                (
                  ==ℤ_refl d,
                  equal_refl (get_dest_ip ip),
                  equal_refl (get_src_ip ip),
                  equal_refl inst,
                )
                refl;
          alive = new_entry-alive ip (pos p) d inst table i te at_i;
          kept = λ ne. rw (==_refl p) (
              find?-add_to_conversion_list (is_flow (get_src_ip ip) inst (get_dest_ip ip) d) d
                (is_flow_narrow (get_src_ip ip) inst (get_dest_ip ip) d)
                proxy.proxycache.conversion_list_max_size now entry
                (make_slots proxy.proxycache.conversion_list_max_size (proxy.proxycache.cache p)) l
                refl ne w n k eq
              ∙ rw
                  (
                    ==ℤ_refl d,
                    equal_refl (get_dest_ip ip),
                    equal_refl (get_src_ip ip),
                    equal_refl inst,
                  )
                  refl);
          stored = λ ne. rw (==_refl p) (
              find?-add_to_conversion_list (is_reply (get_src_ip ip) d) d
                (is_reply_narrow (get_src_ip ip) d) proxy.proxycache.conversion_list_max_size now
                entry
                (make_slots proxy.proxycache.conversion_list_max_size (proxy.proxycache.cache p)) l
                refl ne w n k eq
              ∙ rw (==ℤ_refl d, equal_refl (get_src_ip ip)) refl);
        },
      )

  -- A stored flow that may be used again.
  reuse-IsFound :
      (proxy : Proxy Env Rng) (now p : ℕ) (src inst dst : Ip) (d : ℤ) (table : List TableEntry)
      (e : ConversionEntry)
      → IsValid proxy.proxycache
      → find? (is_flow src inst dst d) (proxy.proxycache.cache p).conversion_list ≡ some e
      → is_namespace_still_valid e.dstip table ≡ true
      → IsFound proxy.proxycache.cache_len p src inst dst d table
          (record proxy {
            proxycache =
                write_at proxy.proxycache p (record (proxy.proxycache.cache p) { last_used = now });
          })
          e
  reuse-IsFound proxy now p src inst dst d table e v there living =
      let flow =
        find?-some (is_flow src inst dst d) (proxy.proxycache.cache p).conversion_list e there in
      record {
        valid =
            write_at-IsValid proxy.proxycache p _ v
              (touch-IsListValid _ now (proxy.proxycache.cache p) (v.lists p));
        same_size = refl;
        flow = flow;
        alive = living;
        kept = λ ne. rw (==_refl p) there;
        stored = λ ne. rw (==_refl p) (
            find?_same (is_flow src inst dst d) (is_reply src d) d (is_flow_narrow src inst dst d)
              (is_reply_narrow src d) (proxy.proxycache.cache p).conversion_list e
              ((v.lists p).distinct d ne) there (is_flow-is_reply src inst dst d e flow));
      }

  -- A packet to a known service gets a flow to an instance that lives.
  pub find_entry-IsFound :
      (proxy : Proxy Env Rng) (now p : ℕ) (ip : NetworkPacket) (d : ℤ) (inst : Ip)
      (table : List TableEntry)
      → IsValid proxy.proxycache
      → p < proxy.proxycache.cache_len
      → 0 < length table
      → (proxy' : Proxy Env Rng) × (entry : ConversionEntry) × (find_entry g m r proxy now ip
            (pos p)
            d
            inst
            table
          ≡ returns (proxy', entry))
        × IsFound proxy.proxycache.cache_len p
            (get_src_ip ip)
            inst
            (get_dest_ip ip)
            d
            table
            proxy'
            entry
  unfolding find_entry
  find_entry-IsFound proxy now p ip d inst table v small h =
      elim (retrieve_cases proxy.proxycache now p (get_src_ip ip) inst (get_dest_ip ip) d small) [
        | inl miss ↦
            let (proxy', e, eq, found) =
              choose_entry-IsFound proxy now p ip d inst table v small h in
            (proxy', e, rw miss eq, found)
        | inr (e, there, hit) ↦
            let touched = record proxy {
              proxycache =
                  write_at proxy.proxycache p
                    (record (proxy.proxycache.cache p) { last_used = now });
            } in
            elim (Bool-cases
              (below_one e.dstport || not (is_namespace_still_valid e.dstip table))) [
                | inl again ↦
                    let (proxy', e', eq, found) =
                      choose_entry-IsFound touched now p ip d inst table
                        (write_at-IsValid proxy.proxycache p _ v
                          (touch-IsListValid _ now (proxy.proxycache.cache p) (v.lists p)))
                        small h in
                    (proxy', e', rw hit (rw again eq), found)
                | inr keep ↦ (
                  touched,
                  e,
                  rw hit (rw keep refl),
                  reuse-IsFound proxy now p (get_src_ip ip) inst (get_dest_ip ip) d table e v there
                      (ground arith),
                )
              ]
      ]
