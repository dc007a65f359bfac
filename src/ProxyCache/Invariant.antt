-- ===== src/ProxyCache/Invariant.antt =====
-- What holds of the cache between two calls, and that no call panics on a port of 16 bits.
use oakestra_net.Base.{
  ℕ, zero, suc, ◌+◌, ◌%◌, ◌≤◌, ◌<◌, ◌≡◌, ◌≢◌, ◌⊎◌, refl, sym, inl, inr, Bool, true, false, none,
  some, List, [], ◌∷◌, length, set, replicate, length-set, length-replicate, Bool-cases,
  Option-cases, arith, returns, ltb, ◌==◌,
}
use oakestra_net.Base.Int.{ℤ, pos, ◌==ℤ◌, ==ℤ_sound}
use oakestra_net.ProxyCache.{
  ConversionEntry, ConversionList, ProxyCache, zero_conversion, new_proxy_cache, find_dstport,
  add_to_conversion_list, make_slots, add, write_at,
}

abbrev bit : Bool → ℕ
bit true = 1
bit false = 0

-- How many entries have the destination port.
unfoldable pub count_dstport : ℤ → List ConversionEntry → ℕ
count_dstport d [] = 0
count_dstport d (e ∷ es) = bit (e.dstport ==ℤ d) + count_dstport d es

-- A list has no slots yet, or all of them; the next slot is one of them; and no two entries have the
-- same destination port, except for 0, which unused slots have.
pub record IsListValid (max_size : ℕ) (l : ConversionList) : Type 0 where
  pub slots :
      (l.conversion_list ≡ []) ⊎ ((length l.conversion_list ≡ max_size) × (l.next_entry < max_size))
  pub distinct : (d : ℤ) → d ≢ pos 0 → count_dstport d l.conversion_list ≤ 1

pub record IsValid (c : ProxyCache) : Type 0 where
  pub room : 0 < c.conversion_list_max_size
  pub lists : (p : ℕ) → IsListValid c.conversion_list_max_size (c.cache p)

pub find_dstport-none :
    (d : ℤ) (es : List ConversionEntry) → find_dstport d es ≡ none → count_dstport d es ≡ 0
unfolding find_dstport count_dstport
find_dstport-none d [] h = refl
find_dstport-none d (e ∷ es) h = ground (arith, find_dstport-none d es)

count_dstport-set_new :
    (d : ℤ) (es : List ConversionEntry) (i : ℕ) (e : ConversionEntry)
    → count_dstport d (set es i e) ≤ bit (e.dstport ==ℤ d) + count_dstport d es
unfolding count_dstport
count_dstport-set_new d [] i e = omega arith
count_dstport-set_new d (x ∷ es) zero e = omega arith
count_dstport-set_new d (x ∷ es) (suc i) e = omega (arith, count_dstport-set_new d es i e)

count_dstport-set_old :
    (d : ℤ) (es : List ConversionEntry) (i : ℕ) (e : ConversionEntry)
    → find_dstport e.dstport es ≡ some i
    → count_dstport d (set es i e) ≡ count_dstport d es
unfolding find_dstport count_dstport
count_dstport-set_old d [] i e h = cc
count_dstport-set_old d (x ∷ es) zero e h = elim (Bool-cases (x.dstport ==ℤ e.dstport)) [
  | inl t ↦ rw (==ℤ_sound x.dstport e.dstport t) refl
  | inr f ↦ ground arith
]
count_dstport-set_old d (x ∷ es) (suc i) e h = ground (arith, count_dstport-set_old d es i e)

pub count_dstport-replicate :
    (d : ℤ) (n : ℕ) → d ≢ pos 0 → count_dstport d (replicate n zero_conversion) ≡ 0
unfolding count_dstport
count_dstport-replicate d zero h = refl
count_dstport-replicate d (suc n) h = elim (Bool-cases (pos 0 ==ℤ d)) [
  | inl t ↦ absurd (h (sym (==ℤ_sound (pos 0) d t)))
  | inr f ↦ rw f (omega (arith, count_dstport-replicate d n h))
]

pub make_slots-IsListValid :
    (m : ℕ) (l : ConversionList)
    → 0 < m
    → IsListValid m l
    → IsListValid m (make_slots m l)
      × (length (make_slots m l).conversion_list ≡ m)
      × ((make_slots m l).next_entry < m)
make_slots-IsListValid m l h v = elim v.slots [
  | inl e ↦ rw e (
    record {
      slots = inr (length-replicate m zero_conversion, h);
      distinct = λ d ne. omega (arith, count_dstport-replicate d m ne);
    },
    length-replicate m zero_conversion,
    h,
  )
  | inr (n, k) ↦
      let some_slots : (length l.conversion_list == 0) ≡ false = ground arith in
      rw some_slots (v, n, k)
]

set_free :
    (d : ℤ) (es : List ConversionEntry) (i : ℕ) (e : ConversionEntry)
    → find_dstport e.dstport es ≡ none
    → count_dstport d es ≤ 1
    → count_dstport d (set es i e) ≤ 1
set_free d es i e free h = elim (Bool-cases (e.dstport ==ℤ d)) [
  | inl t ↦
      let same : e.dstport ≡ d = ==ℤ_sound e.dstport d t in
      let none_yet : count_dstport d es ≡ 0 = find_dstport-none d es (rw (same) at free) in
      omega (arith, rw (t) at (count_dstport-set_new d es i e), none_yet)
  | inr f ↦ omega (arith, rw (f) at (count_dstport-set_new d es i e))
]

-- A valid list with its slots takes any entry.
pub add_to_conversion_list-IsListValid :
    (m now : ℕ) (e : ConversionEntry) (l : ConversionList)
    → 0 < m
    → IsListValid m l
    → length l.conversion_list ≡ m
    → l.next_entry < m
    → (l' : ConversionList) × (add_to_conversion_list m now e l ≡ returns l') × IsListValid m l'
unfolding add_to_conversion_list
add_to_conversion_list-IsListValid m now e l h v n k =
    elim (Option-cases (find_dstport e.dstport l.conversion_list)) [
      | inl free ↦ (
        record {
          next_entry = (l.next_entry + 1) % m;
          last_used = now;
          conversion_list = set l.conversion_list l.next_entry e;
        },
        rw (free, add_to_conversion_list) (ground arith),
        record {
          slots = inr (omega (arith, length-set l.conversion_list l.next_entry e), omega arith);
          distinct = λ d ne. set_free d l.conversion_list l.next_entry e free (v.distinct d ne);
        },
      )
      | inr (i, taken) ↦ (
        record l { last_used = now; conversion_list = set l.conversion_list i e },
        rw (taken, add_to_conversion_list) refl,
        record {
          slots = inr (omega (arith, length-set l.conversion_list i e), k);
          distinct = λ d ne.
              omega (arith, count_dstport-set_old d l.conversion_list i e taken, v.distinct d ne);
        },
      )
    ]

pub new_proxy_cache-IsValid : IsValid new_proxy_cache
unfolding new_proxy_cache count_dstport
new_proxy_cache-IsValid = record {
  room = omega arith;
  lists = λ p. record { slots = inl refl; distinct = λ d ne. omega arith };
}

pub write_at-IsValid :
    (c : ProxyCache) (p : ℕ) (l : ConversionList)
    → IsValid c
    → IsListValid c.conversion_list_max_size l
    → IsValid (write_at c p l)
write_at-IsValid c p l v w = record {
  room = v.room;
  lists = λ q. elim (Bool-cases (q == p)) [ inl t ↦ rw t w | inr f ↦ rw f (v.lists q) ];
}

pub touch-IsListValid :
    (n now : ℕ) (l : ConversionList)
    → IsListValid n l
    → IsListValid n (record l { last_used = now })
touch-IsListValid n now l v = record { slots = v.slots; distinct = v.distinct }

-- `Add` on a valid cache never panics for a source port below the size of the cache, and leaves it
-- valid: only the list of that port changes, and it becomes what `addToConversionList` makes of it.
pub add-IsValid :
    (c : ProxyCache) (now p : ℕ) (e : ConversionEntry)
    → IsValid c
    → e.srcport ≡ pos p
    → p < c.cache_len
    → (l : ConversionList) × (add_to_conversion_list c.conversion_list_max_size now e
          (make_slots c.conversion_list_max_size (c.cache p))
        ≡ returns l)
      × (add c now e ≡ returns (write_at c p l))
      × IsValid (write_at c p l)
unfolding add
add-IsValid c now p e v port small =
    let (w, n, k) =
      make_slots-IsListValid c.conversion_list_max_size (c.cache p) v.room (v.lists p) in
    let (l, eq, u) =
      add_to_conversion_list-IsListValid c.conversion_list_max_size now e _ v.room w n k in
    let in_range : ltb p c.cache_len ≡ true = ground arith in
    (l, eq, simp (port, in_range, eq), write_at-IsValid c p l v u)
