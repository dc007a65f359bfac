-- ===== src/ProxyCache/Eviction.antt =====
-- The eviction job: which lists it clears, and that it and the retrievals keep the cache valid.
use oakestra_net.Base.{
  ℕ, ◌+◌, ◌<◌, ◌≡◌, ◌⊎◌, refl, true, false, returns, inl, inr, ◌&&◌, [], Bool-cases, arith, ltb,
  ◌==◌, not, ◌-◌,
}
use oakestra_net.Base.Int.{ℤ, pos}
use oakestra_net.Net.{Ip}
use oakestra_net.ProxyCache.{
  ConversionList, ProxyCache, zero_conversion, evict_list, evict_old_entries,
  retrieve_by_service_ip, retrieve_by_instance_ip,
}
use oakestra_net.ProxyCache.Invariant.{IsValid, IsListValid, count_dstport}

-- The list was used, and not within the timeout.
abbrev pub IsStale : ℕ → ℕ → ConversionList → Type 0
IsStale now timeout l = (0 < l.last_used) × (l.last_used + timeout < now)

IsStale-cases :
    (now timeout : ℕ) (l : ConversionList)
    → (IsStale now timeout l
        × (evict_list now timeout l
            ≡ record { next_entry = 0; last_used = 0; conversion_list = [] }))
      ⊎ ((¬ IsStale now timeout l) × (evict_list now timeout l ≡ l))
IsStale-cases now timeout l =
    elim (Bool-cases (not (l.last_used == 0) && ltb timeout (now - l.last_used))) [
      | inl t ↦ inl (ground arith, rw t refl)
      | inr f ↦ inr (λ s. ground arith, rw f refl)
    ]

-- One run of the job keeps the cache valid. Where the list of a port was used, but not within the
-- timeout, no outgoing packet from that port and no reply to it finds a flow then; the list of every
-- other port is left as it was.
pub evict_old_entries_lem :
    (c : ProxyCache) (now timeout p later : ℕ) (srcip instance_ip service_ip : Ip) (dstport : ℤ)
    → IsValid c
    → p < c.cache_len
    → IsValid (evict_old_entries c now timeout)
      × ((IsStale now timeout (c.cache p)
            × (retrieve_by_service_ip
                  (evict_old_entries c now timeout)
                  later
                  srcip
                  instance_ip
                  (pos p)
                  service_ip
                  dstport
                ≡ returns (evict_old_entries c now timeout, zero_conversion, false))
            × (retrieve_by_instance_ip (evict_old_entries c now timeout) later srcip (pos p) dstport
                ≡ returns (evict_old_entries c now timeout, zero_conversion, false)))
          ⊎ ((¬ IsStale now timeout (c.cache p))
              × ((evict_old_entries c now timeout).cache p ≡ c.cache p)))
unfolding evict_old_entries count_dstport retrieve_by_service_ip retrieve_by_instance_ip
evict_old_entries_lem c now timeout p later srcip instance_ip service_ip dstport v small = (
  record {
    room = v.room;
    lists = λ q. elim (IsStale-cases now timeout (c.cache q)) [
      | inl (_, e) ↦ rw e (cleared c.conversion_list_max_size)
      | inr (_, e) ↦ rw e (v.lists q)
    ];
  },
  elim (IsStale-cases now timeout (c.cache p)) [
    | inl (s, e) ↦
        let in_range : ltb p c.cache_len ≡ true = ground arith in
        inl (s, rw (in_range) (rw (e) refl), rw (in_range) (rw (e) refl))
    | inr (n, e) ↦ inr (n, e)
  ],
)
  where
    cleared :
        (m : ℕ) → IsListValid m (record { next_entry = 0; last_used = 0; conversion_list = [] })
    cleared m = record { slots = inl refl; distinct = λ d ne. omega arith }
