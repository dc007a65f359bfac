-- ===== src/ProxyCache.antt =====
-- node-net-manager/proxy/proxyCache.go: the table of active flows, one short list for each source
-- port. Each method holds the cache's lock to its return, so it is one step. The atomic time stamp
-- is a field that every method writes whole. `now` is what `time.Now().Unix()` gives in the call.
-- The array of lists is its length and the function from an index below it to the list there.
pub mod Invariant
pub mod Flows
pub mod Eviction
use oakestra_net.Base.{
  ℕ, zero, suc, ◌+◌, ◌-◌, ◌%◌, Bool, true, false, not, ◌&&◌, Option, none, some, List, [], ◌∷◌,
  length, get_elem?, set, replicate, find?, ltb, ◌==◌, if◌then◌else◌, Outcome, returns, panic,
  ◌>>=◌,
}
use oakestra_net.Base.Int.{ℤ, pos, negsuc, ◌==ℤ◌}
use oakestra_net.Net.{Ip, nil, equal}

pub record ConversionEntry : Type 0 where
  pub srcip : Ip
  pub dstip : Ip
  pub dst_service_ip : Ip
  pub src_instance_ip : Ip
  pub srcport : ℤ
  pub dstport : ℤ

-- `ConversionEntry{}`.
abbrev pub zero_conversion : ConversionEntry
zero_conversion = record {
  srcip = nil;
  dstip = nil;
  dst_service_ip = nil;
  src_instance_ip = nil;
  srcport = pos 0;
  dstport = pos 0;
}

-- The code treats a nil list and an empty one alike, and both are `[]`.
pub record ConversionList : Type 0 where
  pub next_entry : ℕ
  pub last_used : ℕ
  pub conversion_list : List ConversionEntry

pub record ProxyCache : Type 0 where
  pub cache : ℕ → ConversionList
  pub cache_len : ℕ
  pub conversion_list_max_size : ℕ

-- Without the eviction job, which is `evict_old_entries` at times that the clock chooses.
unfoldable pub new_proxy_cache : ProxyCache
new_proxy_cache = record {
  cache = λ _. record { next_entry = 0; last_used = 0; conversion_list = [] };
  cache_len = 65536;
  conversion_list_max_size = 10;
}

-- `&cache.cache[port]`.
abbrev pub list_at : ProxyCache → ℤ → Outcome (ℕ × ConversionList)
list_at c (pos p) = if ltb p c.cache_len then returns (p, c.cache p) else panic
list_at c (negsuc n) = panic

-- A write through the pointer to the list of port `p`.
abbrev pub write_at : ProxyCache → ℕ → ConversionList → ProxyCache
write_at c p l = record c { cache = λ q. if q == p then l else c.cache q }

-- The body of the eviction loop. The difference of the times is negative in Go where the clock went
-- back, and then not above the timeout, as here.
abbrev pub evict_list : ℕ → ℕ → ConversionList → ConversionList
evict_list now timeout_seconds l =
    if not (l.last_used == 0) && ltb timeout_seconds (now - l.last_used)
    then record { next_entry = 0; last_used = 0; conversion_list = [] }
    else l

unfoldable pub evict_old_entries : ProxyCache → ℕ → ℕ → ProxyCache
evict_old_entries c now timeout_seconds = record c {
  cache = λ p. evict_list now timeout_seconds (c.cache p);
}

-- The end of both retrievals: a hit stores the time of use.
abbrev pub answer :
    ProxyCache
    → ℕ
    → ℕ
    → ConversionList
    → Option ConversionEntry
    → ProxyCache × ConversionEntry × Bool
answer c now p l none = (c, zero_conversion, false)
answer c now p l (some e) = (write_at c p (record l { last_used = now }), e, true)

-- The four tests of `RetrieveByServiceIP`.
abbrev pub is_flow : Ip → Ip → Ip → ℤ → ConversionEntry → Bool
is_flow srcip instance_ip dst_service_ip dstport e =
    e.dstport ==ℤ dstport
    && equal e.dst_service_ip dst_service_ip
    && equal e.srcip srcip
    && equal e.src_instance_ip instance_ip

unfoldable pub retrieve_by_service_ip :
    ProxyCache → ℕ → Ip → Ip → ℤ → Ip → ℤ → Outcome (ProxyCache × ConversionEntry × Bool)
retrieve_by_service_ip c now srcip instance_ip srcport dst_service_ip dstport =
    list_at c srcport >>= λ (p, l).
    returns (
      answer c now p l (find? (is_flow srcip instance_ip dst_service_ip dstport) l.conversion_list))

-- The two tests of `RetrieveByInstanceIp`.
abbrev pub is_reply : Ip → ℤ → ConversionEntry → Bool
is_reply srcip dstport e = e.dstport ==ℤ dstport && equal e.srcip srcip

unfoldable pub retrieve_by_instance_ip :
    ProxyCache → ℕ → Ip → ℤ → ℤ → Outcome (ProxyCache × ConversionEntry × Bool)
retrieve_by_instance_ip c now srcip srcport dstport = list_at c srcport >>= λ (p, l).
    returns (answer c now p l (find? (is_reply srcip dstport) l.conversion_list))

-- The position of the first entry with the destination port.
unfoldable pub find_dstport : ℤ → List ConversionEntry → Option ℕ
find_dstport dstport [] = none
find_dstport dstport (e ∷ es) =
    let rest : Option ℕ = elim (find_dstport dstport es) [ none ↦ none | some i ↦ some (suc i) ] in
    if e.dstport ==ℤ dstport then some 0 else rest

-- `addToConversionList`, on the list that both methods point at.
unfoldable pub add_to_conversion_list :
    ℕ → ℕ → ConversionEntry → ConversionList → Outcome ConversionList
unfolding find_dstport
add_to_conversion_list max_size now entry elem =
    elim (find_dstport entry.dstport elem.conversion_list) [
      | some i ↦
          returns
            (record elem { last_used = now; conversion_list = set elem.conversion_list i entry })
      | none ↦
          if ltb elem.next_entry (length elem.conversion_list)
          then returns (record {
            next_entry = (elem.next_entry + 1) % max_size;
            last_used = now;
            conversion_list = set elem.conversion_list elem.next_entry entry;
          })
          else panic
    ]

-- The first half of `Add`: an empty list gets its slots.
abbrev pub make_slots : ℕ → ConversionList → ConversionList
make_slots max_size l =
    if length l.conversion_list == 0
    then record l { next_entry = 0; conversion_list = replicate max_size zero_conversion }
    else l

unfoldable pub add : ProxyCache → ℕ → ConversionEntry → Outcome ProxyCache
unfolding add_to_conversion_list
add c now entry = list_at c entry.srcport >>= λ (p, l).
    add_to_conversion_list c.conversion_list_max_size now entry
      (make_slots c.conversion_list_max_size l)
    >>= λ l'. returns (write_at c p l')
