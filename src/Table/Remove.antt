-- ===== src/Table/Remove.antt =====
-- The two removals: which entries are gone, and that no index is out of range.
use mathlib.Core.List.Perm
use oakestra_net.Base.{Option}
use oakestra_net.Base.{
  ℕ, zero, suc, ◌+◌, ◌≡◌, ◌⊎◌, refl, ap, ◌∙◌, inl, inr, Bool, true, false, not, none, some, List,
  [], ◌∷◌, ◌++◌, Perm, Bytes, length, get_elem?, take, swap_remove, swap_remove-perm, filter, any,
  filter-perm, get_elem?-lt, take-swap_remove, length-swap_remove, take_all, take-suc, any-append,
  Bool-cases, ◌=ᵇ◌, returns, arith,
}
use native.Mathlib.Numerals.{add-one}
use oakestra_net.Base.Int.{pos, negsuc}
use oakestra_net.Net.{Ip}
use oakestra_net.Table.{
  TableEntry, TableManager, Error, entry_not_found, has_ns_ip, remove_by_index, find_ns_ip,
  remove_by_nsip, remove_job_loop, remove_by_job_name,
}

-- What `find_ns_ip` finds, from index `i` on.
find_ns_ip_cases :
    (ip : Ip) (i : ℕ) (es : List TableEntry)
    → ((any (has_ns_ip ip) es ≡ false) × (find_ns_ip ip i es ≡ negsuc 0))
      ⊎ ((k : ℕ) × (e : TableEntry) × (find_ns_ip ip i es ≡ pos (i + k))
          × (get_elem? es k ≡ some e)
          × (has_ns_ip ip e ≡ true)
          × (any (has_ns_ip ip) (take k es) ≡ false))
unfolding find_ns_ip
find_ns_ip_cases ip i [] = inl (refl, refl)
find_ns_ip_cases ip i (e ∷ es) = elim (Bool-cases (has_ns_ip ip e)) [
  | inl t ↦ inr (0, e, rw t (ap pos (omega arith)), refl, t, refl)
  | inr f ↦ elim (find_ns_ip_cases ip (i + 1) es) [
    | inl (a, p) ↦ inl (rw f a, rw f p)
    | inr (k, e', p, g, t, a) ↦ inr (suc k, e', rw f (p ∙ ap pos (omega arith)), g, t, rw f a)
  ]
]

add-zero_left : (k : ℕ) → 0 + k ≡ k
add-zero_left k = omega arith

-- `RemoveByNsip` never panics. If an entry has the address, then exactly the first such entry is
-- taken out, the others stay in some order, and the error is nil; otherwise the table is unchanged
-- and the error is "entry not found".
pub remove_by_nsip_cases :
    (t : TableManager) (ip : Ip)
    → ((any (has_ns_ip ip) t.translation_table ≡ false)
        × (remove_by_nsip t ip ≡ returns (t, some entry_not_found)))
      ⊎ ((k : ℕ) × (e : TableEntry) × (t' : TableManager) × (get_elem? t.translation_table k
            ≡ some e)
          × (has_ns_ip ip e ≡ true)
          × (any (has_ns_ip ip) (take k t.translation_table) ≡ false)
          × (remove_by_nsip t ip ≡ returns (t', none))
          × Perm t.translation_table (e ∷ t'.translation_table))
unfolding remove_by_nsip
remove_by_nsip_cases t ip = elim (find_ns_ip_cases ip 0 t.translation_table) [
  | inl (a, p) ↦ inl (a, rw p refl)
  | inr (k, e, p, g, h, a) ↦ inr (
    k,
    e,
    record { translation_table = swap_remove t.translation_table k },
    g,
    h,
    a,
    rw (p ∙ ap pos (add-zero_left k), remove_by_index) (rw g refl),
    swap_remove-perm t.translation_table k e g,
  )
]

pub remove_by_nsip_returns :
    (t : TableManager) (ip : Ip)
    → (t' : TableManager) × (o : Option Error) × (remove_by_nsip t ip ≡ returns (t', o))
remove_by_nsip_returns t ip = elim (remove_by_nsip_cases t ip) [
  | inl (a, e) ↦ (t, some entry_not_found, e)
  | inr (k, x, t', g, h, a, e, p) ↦ (t', none, e)
]

abbrev pub keeps : Bytes → TableEntry → Bool
keeps jobname e = not (e.job_name =ᵇ jobname)

module _ (jobname : Bytes) (k i : ℕ) (t : TableManager) (e : TableEntry)
    (found : get_elem? t.translation_table i ≡ some e) where
  remove_job_loop_match :
      (e.job_name =ᵇ jobname) ≡ true
      → remove_job_loop jobname (suc k) i t
        ≡ remove_job_loop jobname k i
            (record t { translation_table = swap_remove t.translation_table i })
  unfolding remove_job_loop
  remove_job_loop_match m = rw (found, remove_job_loop) (rw m (rw (found, remove_by_index) refl))

  remove_job_loop_skip :
      (e.job_name =ᵇ jobname) ≡ false
      → remove_job_loop jobname (suc k) i t ≡ remove_job_loop jobname k (i + 1) t
  unfolding remove_job_loop
  remove_job_loop_skip m = rw (found, remove_job_loop) (rw m refl)

abbrev has_job : Bytes → TableEntry → Bool
has_job jobname e = e.job_name =ᵇ jobname

any_snoc :
    (jobname : Bytes) (xs : List TableEntry) (e : TableEntry)
    → any (has_job jobname) xs ≡ false
    → has_job jobname e ≡ false
    → any (has_job jobname) (xs ++ e ∷ []) ≡ false
any_snoc jobname xs e a m = any-append (has_job jobname) xs (e ∷ []) a ∙ (rw m refl)

any_suc :
    (jobname : Bytes) (xs : List TableEntry) (i : ℕ) (e : TableEntry)
    → get_elem? xs i ≡ some e
    → any (has_job jobname) (take i xs) ≡ false
    → has_job jobname e ≡ false
    → any (has_job jobname) (take (i + 1) xs) ≡ false
any_suc jobname xs i e g a m =
    ap (λ n. any (has_job jobname) (take n xs)) (add-one i)
    ∙ ap (any (has_job jobname)) (take-suc xs i g)
    ∙ any_snoc jobname (take i xs) e a m

drop_match :
    (jobname : Bytes) (e : TableEntry) (xs : List TableEntry) {ys : List TableEntry}
    → has_job jobname e ≡ true
    → Perm ys (e ∷ xs)
    → Perm (filter (keeps jobname) ys) (filter (keeps jobname) xs)
drop_match jobname e xs m p = rw (m) at (filter-perm (keeps jobname) p)

filter_keeps_none :
    (jobname : Bytes) (xs : List TableEntry)
    → any (has_job jobname) xs ≡ false
    → filter (keeps jobname) xs ≡ xs
filter_keeps_none jobname [] a = refl
filter_keeps_none jobname (x ∷ xs) a = ground (arith, filter_keeps_none jobname xs)

-- What is left of the loop at index `i`, after which `k` entries follow, none before `i` having the
-- name.
remove_job_loop_lem :
    (jobname : Bytes) (k i : ℕ) (t : TableManager)
    → length t.translation_table ≡ i + k
    → any (has_job jobname) (take i t.translation_table) ≡ false
    → (t' : TableManager) × (remove_job_loop jobname k i t ≡ returns (t', none))
      × Perm (filter (keeps jobname) t.translation_table) t'.translation_table
unfolding remove_job_loop
remove_job_loop_lem jobname zero i t n a = (
  t,
  refl,
  rw
      (filter_keeps_none jobname t.translation_table
        (rw (take_all t.translation_table i (omega arith)) at a))
      Perm.rfl,
)
remove_job_loop_lem jobname (suc k) i t n a =
    let (e, g) = get_elem?-lt t.translation_table i (omega arith) in
    elim (Bool-cases (e.job_name =ᵇ jobname)) [
      | inl m ↦
          let next : TableManager = record {
            translation_table = swap_remove t.translation_table i;
          } in
          let (t', p, q) =
            remove_job_loop_lem jobname k i next
              (omega (arith, length-swap_remove t.translation_table i))
              (ap (any (has_job jobname)) (take-swap_remove t.translation_table i (omega arith))
                ∙ a) in
          (
            t',
            remove_job_loop_match jobname k i t e g m ∙ p,
            Perm.trans (drop_match jobname e _ m (swap_remove-perm t.translation_table i e g)) q,
          )
      | inr m ↦
          let (t', p, q) =
            remove_job_loop_lem jobname k (i + 1) t (omega arith)
              (any_suc jobname t.translation_table i e g a m) in
          (t', remove_job_loop_skip jobname k i t e g m ∙ p, q)
    ]

-- `RemoveByJobName` never panics and returns no error: exactly the entries of the job are gone, and
-- all others stay, each as often as before.
pub remove_by_job_name_lem :
    (t : TableManager) (jobname : Bytes)
    → (t' : TableManager) × (remove_by_job_name t jobname ≡ returns (t', none))
      × Perm (filter (keeps jobname) t.translation_table) t'.translation_table
unfolding remove_by_job_name
remove_by_job_name_lem t jobname =
    remove_job_loop_lem jobname (length t.translation_table) 0 t (omega arith) refl
