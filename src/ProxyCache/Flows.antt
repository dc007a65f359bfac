-- ===== src/ProxyCache/Flows.antt =====
-- What the two retrievals answer after an `Add` to the same list.
use oakestra_net.Base.{
  ℕ, zero, suc, ◌≤◌, ◌<◌, ◌≡◌, ◌≢◌, ◌⊎◌, refl, inl, inr, Bool, true, false, none, some, List, [],
  ◌∷◌, length, set, find?, Bool-cases, Option-cases, arith, returns, if◌then◌else◌, ltb, ==_refl,
}
use oakestra_net.Base.Int.{ℤ, pos, ◌==ℤ◌, ==ℤ_refl}
use oakestra_net.Net.{Ip, equal}
use oakestra_net.ProxyCache.{
  ConversionEntry, ConversionList, ProxyCache, find_dstport, add_to_conversion_list, add, write_at,
  zero_conversion, is_flow, is_reply, retrieve_by_service_ip, retrieve_by_instance_ip,
}
use oakestra_net.ProxyCache.Invariant.{
  IsValid, IsListValid, count_dstport, find_dstport-none, make_slots-IsListValid, add-IsValid,
}

-- A test that passes only entries with the destination port `d`.
module _ (test : ConversionEntry → Bool) (d : ℤ)
    (narrow : (x : ConversionEntry) → test x ≡ true → (x.dstport ==ℤ d) ≡ true) where
  find?-none : (es : List ConversionEntry) → count_dstport d es ≡ 0 → find? test es ≡ none
  unfolding count_dstport
  find?-none [] h = refl
  find?-none (x ∷ es) h = ground (arith, narrow x, find?-none es)

  find?-set_new :
      (es : List ConversionEntry) (i : ℕ) (e : ConversionEntry)
      → i < length es
      → count_dstport d es ≡ 0
      → find? test (set es i e) ≡ (if test e then some e else none)
  unfolding count_dstport
  find?-set_new [] i e h c = elim h [ ]
  find?-set_new (x ∷ es) zero e h c = ground (arith, find?-none es)
  find?-set_new (x ∷ es) (suc i) e h c = ground (arith, narrow x, find?-set_new es i e)

  find?-set_old :
      (es : List ConversionEntry) (i : ℕ) (e : ConversionEntry)
      → find_dstport d es ≡ some i
      → count_dstport d es ≤ 1
      → find? test (set es i e) ≡ (if test e then some e else none)
  unfolding count_dstport find_dstport
  find?-set_old [] i e h c = cc
  find?-set_old (x ∷ es) zero e h c = ground (arith, find?-none es)
  find?-set_old (x ∷ es) (suc i) e h c = ground (arith, narrow x, find?-set_old es i e)

  pub find?-add_to_conversion_list :
      (m now : ℕ) (e : ConversionEntry) (l l' : ConversionList)
      → e.dstport ≡ d
      → d ≢ pos 0
      → IsListValid m l
      → length l.conversion_list ≡ m
      → l.next_entry < m
      → add_to_conversion_list m now e l ≡ returns l'
      → find? test l'.conversion_list ≡ (if test e then some e else none)
  unfolding add_to_conversion_list
  find?-add_to_conversion_list m now e l l' p ne v n k h =
      elim (Option-cases (find_dstport e.dstport l.conversion_list)) [
        | inl free ↦
            let zero_yet : count_dstport d l.conversion_list ≡ 0 =
              find_dstport-none d _ (rw (p) at free) in
            ground (
              arith,
              free,
              h,
              find?-set_new l.conversion_list l.next_entry e (omega arith) zero_yet,
            )
        | inr (i, taken) ↦ ground (
          arith,
          taken,
          h,
          find?-set_old l.conversion_list i e (rw (p) at taken) (v.distinct d ne),
        )
      ]

pub find?-some :
    (test : ConversionEntry → Bool) (es : List ConversionEntry) (e : ConversionEntry)
    → find? test es ≡ some e
    → test e ≡ true
find?-some test [] e h = cc
find?-some test (x ∷ es) e h = ground (arith, find?-some test es e)

-- Where one entry has the destination port, every narrow test that passes it finds it.
pub find?_same :
    (test other : ConversionEntry → Bool) (d : ℤ)
    → ((x : ConversionEntry) → test x ≡ true → (x.dstport ==ℤ d) ≡ true)
    → ((x : ConversionEntry) → other x ≡ true → (x.dstport ==ℤ d) ≡ true)
    → (es : List ConversionEntry) (e : ConversionEntry) → count_dstport d es ≤ 1
    → find? test es ≡ some e
    → other e ≡ true
    → find? other es ≡ some e
unfolding count_dstport
find?_same test other d narrow narrow' [] e c h o = cc
find?_same test other d narrow narrow' (x ∷ es) e c h o = elim (Bool-cases (test x)) [
  | inl t ↦ ground (arith, h, t, o)
  | inr f ↦ ground (
    arith,
    f,
    h,
    o,
    narrow' x,
    find?-none test d narrow es,
    find?_same test other d narrow narrow' es e,
  )
]

pub is_flow_narrow :
    (s i v : Ip) (d : ℤ) (x : ConversionEntry) → is_flow s i v d x ≡ true → (x.dstport ==ℤ d) ≡ true
is_flow_narrow s i v d x h = ground arith

pub is_reply_narrow :
    (s : Ip) (d : ℤ) (x : ConversionEntry) → is_reply s d x ≡ true → (x.dstport ==ℤ d) ≡ true
is_reply_narrow s d x h = ground arith

module _ (c : ProxyCache) (now later p : ℕ) (e : ConversionEntry) (valid : IsValid c)
    (port : e.srcport ≡ pos p) (small : p < c.cache_len) (used : e.dstport ≢ pos 0) where
  -- What a narrow test finds in the list of the port after the addition.
  after-add :
      (test : ConversionEntry → Bool)
      → ((x : ConversionEntry) → test x ≡ true → (x.dstport ==ℤ e.dstport) ≡ true)
      → (l : ConversionList) × (add c now e ≡ returns (write_at c p l))
        × (find? test l.conversion_list ≡ (if test e then some e else none))
  after-add test narrow =
      let (w, n, k) =
        make_slots-IsListValid c.conversion_list_max_size (c.cache p) valid.room (valid.lists p) in
      let (l, eq, h, _) = add-IsValid c now p e valid port small in
      (
        l,
        h,
        find?-add_to_conversion_list test e.dstport narrow c.conversion_list_max_size now e _ l refl
            used w n k eq,
      )

  in_range : ltb p c.cache_len ≡ true
  in_range = ground arith

  -- A flow with a destination port other than 0 that was just added answers for its source and
  -- destination port: a packet with its source, its instance and its service address finds it, and
  -- the time of use is stored; any other packet with these two ports finds nothing, whatever was
  -- stored for it before.
  pub retrieve_by_service_ip-add :
      (srcip instance_ip service_ip : Ip)
      → (c' : ProxyCache) × (add c now e ≡ returns c')
        × ((((equal e.srcip srcip ≡ true)
                × (equal e.src_instance_ip instance_ip ≡ true)
                × (equal e.dst_service_ip service_ip ≡ true))
              × (retrieve_by_service_ip c' later srcip instance_ip e.srcport service_ip e.dstport
                  ≡ returns (write_at c' p (record (c'.cache p) { last_used = later }), e, true)))
            ⊎ ((¬ (
                  (equal e.srcip srcip ≡ true)
                  × (equal e.src_instance_ip instance_ip ≡ true)
                  × (equal e.dst_service_ip service_ip ≡ true)))
                × (retrieve_by_service_ip c' later srcip instance_ip e.srcport service_ip e.dstport
                    ≡ returns (c', zero_conversion, false))))
  unfolding retrieve_by_service_ip
  retrieve_by_service_ip-add srcip instance_ip service_ip =
      let test = is_flow srcip instance_ip service_ip e.dstport in
      let (l, h, hit) = after-add test (is_flow_narrow srcip instance_ip service_ip e.dstport) in
      let same = ==ℤ_refl e.dstport in
      (
        write_at c p l,
        h,
        elim (Bool-cases (test e)) [
          | inl t ↦ inl (
            (ground (arith, t), ground (arith, t), ground (arith, t)),
            simp (port, in_range, ==_refl p, hit, t),
          )
          | inr f ↦ inr (
            λ (a, b, d). absurd (ground (arith, f, a, b, d, same)),
            simp (port, in_range, ==_refl p, hit, f),
          )
        ],
      )

  -- The same for the way back: the reply to a flow with a destination port other than 0 that was just
  -- added finds it by its source address and its two ports, and a reply with these ports to any
  -- other address finds nothing.
  pub retrieve_by_instance_ip-add :
      (srcip : Ip)
      → (c' : ProxyCache) × (add c now e ≡ returns c')
        × (((equal e.srcip srcip ≡ true)
              × (retrieve_by_instance_ip c' later srcip e.srcport e.dstport
                  ≡ returns (write_at c' p (record (c'.cache p) { last_used = later }), e, true)))
            ⊎ ((equal e.srcip srcip ≡ false)
                × (retrieve_by_instance_ip c' later srcip e.srcport e.dstport
                    ≡ returns (c', zero_conversion, false))))
  unfolding retrieve_by_instance_ip
  retrieve_by_instance_ip-add srcip =
      let test = is_reply srcip e.dstport in
      let (l, h, hit) = after-add test (is_reply_narrow srcip e.dstport) in
      let same = ==ℤ_refl e.dstport in
      (
        write_at c p l,
        h,
        elim (Bool-cases (equal e.srcip srcip)) [
          | inl t ↦
              let t' : test e ≡ true = ground (arith, t, same) in
              inl (t, simp (port, in_range, ==_refl p, hit, t'))
          | inr f ↦
              let f' : test e ≡ false = ground (arith, f, same) in
              inr (f, simp (port, in_range, ==_refl p, hit, f'))
        ],
      )
