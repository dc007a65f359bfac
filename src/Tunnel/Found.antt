-- ===== src/Tunnel/Found.antt =====
-- What is known of a stored flow: that its destination lives, and what a look in the cache finds,
-- node-net-manager/proxy/ProxyTunnel.go and proxyCache.go.
use oakestra_net.Base.{
  ℕ, zero, suc, ◌<◌, ◌≡◌, ◌≢◌, ◌⊎◌, refl, inl, inr, true, false, some, List, [], ◌∷◌, get_elem?,
  find?, Bool-cases, Option-cases, arith, returns, ltb, ◌==◌,
}
use oakestra_net.Base.Int.{ℤ, pos}
use oakestra_net.Net.{Ip}
use oakestra_net.Net.Equal.{equal_refl}
use oakestra_net.Table.{TableEntry, has_ns_ip, is_namespace_still_valid}
use oakestra_net.ProxyCache.{
  ConversionEntry, ProxyCache, zero_conversion, retrieve_by_service_ip, is_flow, is_reply, write_at,
}
use oakestra_net.ProxyCache.Invariant.{IsValid}
use oakestra_net.Packets.{NetworkPacket, get_protocol_version}
use oakestra_net.Tunnel.{Proxy, new_entry}

is_still_valid-get_elem? :
    (ip : Ip) (es : List TableEntry) (i : ℕ) (e : TableEntry)
    → get_elem? es i ≡ some e
    → has_ns_ip ip e ≡ true
    → is_namespace_still_valid ip es ≡ true
unfolding is_namespace_still_valid
is_still_valid-get_elem? ip [] i e g h = cc
is_still_valid-get_elem? ip (x ∷ es) zero e g h = ground arith
is_still_valid-get_elem? ip (x ∷ es) (suc i) e g h =
    ground (arith, is_still_valid-get_elem? ip es i e)

pub new_entry-alive :
    (ip : NetworkPacket) (p d : ℤ) (inst : Ip) (table : List TableEntry) (i : ℕ) (te : TableEntry)
    → get_elem? table i ≡ some te
    → is_namespace_still_valid (new_entry ip p d inst te).dstip table ≡ true
new_entry-alive ip p d inst table i te at_i = elim (Bool-cases (get_protocol_version ip == 4)) [
  | inl e ↦
      rw e (is_still_valid-get_elem? te.nsip table i te at_i (ground (arith, equal_refl te.nsip)))
  | inr e ↦
      rw e
        (is_still_valid-get_elem? te.nsipv6 table i te at_i (ground (arith, equal_refl te.nsipv6)))
]

-- What a search for the flow of a packet leaves: a valid cache of the same size, and an entry of this
-- flow, whose destination is in the list of living instances and which answers for the reply.
pub record IsFound {E R : Type 0} (size : ℕ) (p : ℕ) (src inst dst : Ip) (d : ℤ)
    (table : List TableEntry) (proxy : Proxy E R) (entry : ConversionEntry) : Type 0 where
  pub valid : IsValid proxy.proxycache
  pub same_size : proxy.proxycache.cache_len ≡ size
  pub flow : is_flow src inst dst d entry ≡ true
  pub alive : is_namespace_still_valid entry.dstip table ≡ true
  pub kept :
      d ≢ pos 0
      → find? (is_flow src inst dst d) (proxy.proxycache.cache p).conversion_list ≡ some entry
  pub stored :
      d ≢ pos 0 → find? (is_reply src d) (proxy.proxycache.cache p).conversion_list ≡ some entry

pub retrieve_cases :
    (c : ProxyCache) (now p : ℕ) (src inst dst : Ip) (d : ℤ)
    → p < c.cache_len
    → (retrieve_by_service_ip c now src inst (pos p) dst d ≡ returns (c, zero_conversion, false))
      ⊎ ((e : ConversionEntry) × (find? (is_flow src inst dst d) (c.cache p).conversion_list
            ≡ some e)
          × (retrieve_by_service_ip c now src inst (pos p) dst d
              ≡ returns (write_at c p (record (c.cache p) { last_used = now }), e, true)))
unfolding retrieve_by_service_ip
retrieve_cases c now p src inst dst d small =
    let in_range : ltb p c.cache_len ≡ true = ground arith in
    elim (Option-cases (find? (is_flow src inst dst d) (c.cache p).conversion_list)) [
      | inl none_there ↦ inl (rw in_range (rw none_there refl))
      | inr (e, there) ↦ inr (e, there, rw in_range (rw there refl))
    ]

pub is_flow-is_reply :
    (src inst dst : Ip) (d : ℤ) (e : ConversionEntry)
    → is_flow src inst dst d e ≡ true
    → is_reply src d e ≡ true
is_flow-is_reply src inst dst d e h = ground arith
