-- ===== src/Table/Search.antt =====
-- The searches: what they return, and how they answer after an addition or a removal.
use mathlib.Core.Logic.Or
use mathlib.Core.List.{
  mem-append, mem-append_left, mem-append_right, mem-cons, mem-cons_self, not-mem-nil,
}
use mathlib.Core.List.Perm
use mathlib.Core.HLevel.{×_prop}
use oakestra_net.Base.{
  ℕ, suc, ◌≡◌, ◌≢◌, ◌↔◌, ◌⊎◌, refl, sym, ap, ◌∙◌, inl, inr, Bool, true, false, none, some, List, [],
  ◌∷◌, ◌||◌, Perm, Mem, Bytes, get_elem?, subst, take, filter, any, filter-perm, Bool-cases, ◌=ᵇ◌,
  =ᵇ_sound, returns, arith,
}
use oakestra_net.Net.{Ip, equal}
use oakestra_net.Table.{
  TableEntry, TableManager, ServiceIp, zero_entry, has_ns_ip, has_service_ip, append_each,
  search_by_service_ip, search_service_ip, search_by_ns_ip, search_ns_ip, search_by_job_name,
  search_job_name, is_namespace_still_valid, add, is_valid, remove_by_job_name,
}
use oakestra_net.Table.Remove.{keeps, remove_by_job_name_lem}

-- A service address of the entry is the address, in its IPv4 or in its IPv6 form.
abbrev pub serves : Ip → TableEntry → Bool
serves ip e = any (λ s. equal s.address ip || equal s.address_v6 ip) e.service_ip

mem-append_each :
    (ip : Ip) (x e : TableEntry) (ss : List ServiceIp)
    → Mem x (append_each ip e ss)
    → Mem x (e ∷ []) × (any (has_service_ip ip) ss ≡ true)
mem-append_each ip x e [] m = absurd (not-mem-nil m)
mem-append_each ip x e (s ∷ ss) m = elim (Bool-cases (has_service_ip ip s)) [
  | inl t ↦ rw t (
    Or.elim squash₁ (mem-cons.0 (rw (t) at m)) (λ p. mem-cons.1 (Or.inl p))
        (λ n. (mem-append_each ip x e ss n).0),
    refl,
  )
  | inr f ↦ rw f (mem-append_each ip x e ss (rw (f) at m))
]

append_each-mem :
    (ip : Ip) (e : TableEntry) (ss : List ServiceIp)
    → any (has_service_ip ip) ss ≡ true
    → Mem e (append_each ip e ss)
append_each-mem ip e [] h = cc
append_each-mem ip e (s ∷ ss) h = elim (Bool-cases (has_service_ip ip s)) [
  | inl t ↦ rw t mem-cons_self
  | inr f ↦ rw f (append_each-mem ip e ss (rw (f) at h))
]

is_true_prop : (b : Bool) → IsProp (b ≡ true)
is_true_prop b = hlevel

found_prop : (x : TableEntry) (es : List TableEntry) (b : Bool) → IsProp (Mem x es × (b ≡ true))
found_prop x es b = ×_prop squash₁ (is_true_prop b)

search_service_ip_sound :
    (ip : Ip) (x : TableEntry) (es : List TableEntry)
    → Mem x (search_service_ip ip es)
    → Mem x es × (serves ip x ≡ true)
unfolding search_service_ip
search_service_ip_sound ip x [] m = absurd (not-mem-nil m)
search_service_ip_sound ip x (e ∷ es) m =
    Or.elim (found_prop x (e ∷ es) (serves ip x)) (mem-append.0 m)
      (λ a.
        let (one, h) = mem-append_each ip x e e.service_ip a in
        Or.elim (found_prop x (e ∷ es) (serves ip x)) (mem-cons.0 one)
          (λ p. (mem-cons.1 (Or.inl p), ap (serves ip) p ∙ h)) (λ n. absurd (not-mem-nil n)))
      (λ b. let (n, h) = search_service_ip_sound ip x es b in (mem-cons.1 (Or.inr n), h))

search_service_ip_complete :
    (ip : Ip) (x : TableEntry) (es : List TableEntry)
    → Mem x es
    → serves ip x ≡ true
    → Mem x (search_service_ip ip es)
unfolding search_service_ip
search_service_ip_complete ip x [] m h = absurd (not-mem-nil m)
search_service_ip_complete ip x (e ∷ es) m h =
    Or.elim squash₁ (mem-cons.0 m)
      (λ p. mem-append_left (search_service_ip ip es) (
        subst (λ y. Mem x (append_each ip y y.service_ip)) p (append_each-mem ip x x.service_ip h)))
      (λ n. mem-append_right _ (search_service_ip_complete ip x es n h))

-- `SearchByServiceIP` returns exactly the entries of the table one of whose service addresses is the
-- address, in its IPv4 or in its IPv6 form.
pub search_by_service_ip_iff :
    (t : TableManager) (ip : Ip) (e : TableEntry)
    → Mem e (search_by_service_ip t ip) ↔ (Mem e t.translation_table × (serves ip e ≡ true))
unfolding search_by_service_ip
search_by_service_ip_iff t ip e = (
  search_service_ip_sound ip e t.translation_table,
  λ (m, h). search_service_ip_complete ip e t.translation_table m h,
)

-- An accepted entry is found under each of its service addresses.
pub search_by_service_ip-add :
    (t : TableManager) (e : TableEntry) (ip : Ip)
    → is_valid e ≡ true
    → serves ip e ≡ true
    → Mem e (search_by_service_ip (add t e).0 ip)
unfolding add
search_by_service_ip-add t e ip v h =
    (search_by_service_ip_iff (add t e).0 ip e).1
      (rw v (mem-append_right t.translation_table mem-cons_self), h)

search_ns_ip_cases :
    (ip : Ip) (es : List TableEntry)
    → ((any (has_ns_ip ip) es ≡ false) × (search_ns_ip ip es ≡ (zero_entry, false)))
      ⊎ ((k : ℕ) × (e : TableEntry) × (get_elem? es k ≡ some e)
          × (has_ns_ip ip e ≡ true)
          × (any (has_ns_ip ip) (take k es) ≡ false)
          × (search_ns_ip ip es ≡ (e, true)))
unfolding search_ns_ip
search_ns_ip_cases ip [] = inl (refl, refl)
search_ns_ip_cases ip (e ∷ es) = elim (Bool-cases (has_ns_ip ip e)) [
  | inl t ↦ inr (0, e, refl, t, refl, rw t refl)
  | inr f ↦ elim (search_ns_ip_cases ip es) [
    | inl (a, p) ↦ inl (rw f a, rw f p)
    | inr (k, e', g, t, a, p) ↦ inr (suc k, e', g, t, rw f a, rw f p)
  ]
]

-- `SearchByNsIP` returns the first entry with the namespace address, or the zero entry and false
-- when no entry has it.
pub search_by_ns_ip_cases :
    (t : TableManager) (ip : Ip)
    → ((any (has_ns_ip ip) t.translation_table ≡ false)
        × (search_by_ns_ip t ip ≡ (zero_entry, false)))
      ⊎ ((k : ℕ) × (e : TableEntry) × (get_elem? t.translation_table k ≡ some e)
          × (has_ns_ip ip e ≡ true)
          × (any (has_ns_ip ip) (take k t.translation_table) ≡ false)
          × (search_by_ns_ip t ip ≡ (e, true)))
unfolding search_by_ns_ip
search_by_ns_ip_cases t ip = search_ns_ip_cases ip t.translation_table

search_job_name-filter :
    (j : Bytes) (es : List TableEntry) → search_job_name j es ≡ filter (λ e. e.job_name =ᵇ j) es
unfolding search_job_name
search_job_name-filter j [] = refl
search_job_name-filter j (e ∷ es) = rw (search_job_name-filter j es) refl

pub search_by_job_name-filter :
    (t : TableManager) (j : Bytes)
    → search_by_job_name t j ≡ filter (λ e. e.job_name =ᵇ j) t.translation_table
unfolding search_by_job_name
search_by_job_name-filter t j = search_job_name-filter j t.translation_table

pub is_namespace_still_valid-any :
    (ip : Ip) (es : List TableEntry) → is_namespace_still_valid ip es ≡ any (has_ns_ip ip) es
unfolding is_namespace_still_valid
is_namespace_still_valid-any ip [] = refl
is_namespace_still_valid-any ip (e ∷ es) = rw (is_namespace_still_valid-any ip es) refl

filter-keeps_same :
    (j : Bytes) (es : List TableEntry) → filter (λ e. e.job_name =ᵇ j) (filter (keeps j) es) ≡ []
filter-keeps_same j [] = refl
filter-keeps_same j (e ∷ es) = elim (Bool-cases (e.job_name =ᵇ j)) [
  | inl t ↦ rw t (filter-keeps_same j es)
  | inr f ↦ rw (f) (rw (f) (filter-keeps_same j es))
]

filter-keeps_other :
    (j k : Bytes) (es : List TableEntry)
    → k ≢ j
    → filter (λ e. e.job_name =ᵇ k) (filter (keeps j) es) ≡ filter (λ e. e.job_name =ᵇ k) es
filter-keeps_other j k [] h = refl
filter-keeps_other j k (e ∷ es) h =
    ground (arith, filter-keeps_other j k es h, =ᵇ_sound e.job_name j, =ᵇ_sound e.job_name k)

-- After `RemoveByJobName` the job is found no more, and a search for any other job returns the same
-- entries as before, each as often, in some order.
pub search_by_job_name-remove_by_job_name :
    (t : TableManager) (j k : Bytes)
    → k ≢ j
    → (t' : TableManager) × (remove_by_job_name t j ≡ returns (t', none))
      × (search_by_job_name t' j ≡ [])
      × Perm (search_by_job_name t k) (search_by_job_name t' k)
unfolding search_by_job_name
search_by_job_name-remove_by_job_name t j k ne =
    let (t', e, p) = remove_by_job_name_lem t j in
    (
      t',
      e,
      search_job_name-filter j t'.translation_table
          ∙ sym (
              Perm.nil-eq (
                subst (λ l. Perm l (filter (λ e. e.job_name =ᵇ j) t'.translation_table))
                  (filter-keeps_same j t.translation_table)
                  (filter-perm (λ e. e.job_name =ᵇ j) p))),
      rw
          (
            search_job_name-filter k t.translation_table,
            search_job_name-filter k t'.translation_table,
          )
          (subst (λ l. Perm l (filter (λ e. e.job_name =ᵇ k) t'.translation_table))
            (filter-keeps_other j k t.translation_table ne) (filter-perm (λ e. e.job_name =ᵇ k) p)),
    )
