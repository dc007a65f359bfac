-- ===== src/Table/Bag.antt =====
-- The abstract view of the translation table, a collection of entries without an order, and the calls
-- that change it as steps on the view.
use mathlib.Core.List.Perm
use mathlib.Core.Quot
use mathlib.Core.Quot.{Quot, Quot-set}
use oakestra_net.Base.{
  ◌≡◌, inl, inr, refl, sym, ap, subst, ◌++◌, Bool, true, false, Bool-cases, Option, none, some,
  List, [], ◌∷◌, Perm, Bytes, ◌=ᵇ◌, filter, filter-perm, filter-any, perm_snoc, Outcome, returns,
  ◌>>=◌,
}
use oakestra_net.Net.{Ip}
use oakestra_net.Table.{
  TableEntry, TableManager, Error, entry_not_found, invalid_entry, is_valid, has_ns_ip,
  remove_by_nsip, remove_by_job_name, search_by_job_name,
}
use oakestra_net.Table
use oakestra_net.Table.Remove.{keeps, remove_by_nsip_cases, remove_by_job_name_lem}
use oakestra_net.Table.Search.{search_by_job_name-filter}

-- Lists of entries that differ by their order only are one.
abbrev pub Bag : Type 0
Bag = Quot {α = List TableEntry} Perm

abbrev pub empty : Bag
empty = Quot.mk []

unfoldable pub put : TableEntry → Bag → Bag
put e = Quot.lift Quot-set (λ es. Quot.mk (e ∷ es)) (λ xs ys h. Quot.sound (Perm.cons e h))

-- The entries that pass a test.
unfoldable pub only : (TableEntry → Bool) → Bag → Bag
only p = Quot.lift Quot-set (λ es. Quot.mk (filter p es)) (λ xs ys h. Quot.sound (filter-perm p h))

abbrev pub view : TableManager → Bag
view t = Quot.mk t.translation_table

-- The calls that change the table.
pub data Call : Type 0 where
  add_call : TableEntry → Call
  remove_nsip_call : Ip → Call
  remove_job_call : Bytes → Call

-- What a call may do to the view and what error it returns. Which of several entries with one namespace
-- address is removed is left open.
pub data Step : Bag → Call → Option Error → Bag → Type 0 where
  added : (e : TableEntry) (b : Bag) → is_valid e ≡ true → Step b (add_call e) none (put e b)
  refused :
      (e : TableEntry) (b : Bag) → is_valid e ≡ false → Step b (add_call e) (some invalid_entry) b
  taken :
      (ip : Ip) (e : TableEntry) (b b' : Bag)
      → has_ns_ip ip e ≡ true
      → b ≡ put e b'
      → Step b (remove_nsip_call ip) none b'
  missing :
      (ip : Ip) (b : Bag)
      → only (has_ns_ip ip) b ≡ empty
      → Step b (remove_nsip_call ip) (some entry_not_found) b
  dropped : (j : Bytes) (b : Bag) → Step b (remove_job_call j) none (only (keeps j) b)

pub data Steps : Bag → List Call → List (Option Error) → Bag → Type 0 where
  finished : (b : Bag) → Steps b [] [] b
  then_step :
      {b b' b'' : Bag} {c : Call} {cs : List Call} {o : Option Error} {os : List (Option Error)}
      → Step b c o b'
      → Steps b' cs os b''
      → Steps b (c ∷ cs) (o ∷ os) b''

unfoldable pub perform : Call → TableManager → Outcome (TableManager × Option Error)
perform (add_call e) t = returns (Table.add t e)
perform (remove_nsip_call ip) t = remove_by_nsip t ip
perform (remove_job_call j) t = remove_by_job_name t j

unfoldable pub perform_all : List Call → TableManager → Outcome (TableManager × List (Option Error))
unfolding perform
perform_all [] t = returns (t, [])
perform_all (c ∷ cs) t =
    perform c t >>= λ (t', o). perform_all cs t' >>= λ (t'', os). returns (t'', o ∷ os)

perform-Step :
    (c : Call) (t : TableManager)
    → (t' : TableManager) × (o : Option Error) × (perform c t ≡ returns (t', o))
      × Step (view t) c o (view t')
unfolding perform put only Table.add
perform-Step (add_call e) t = elim (Bool-cases (is_valid e)) [
  | inl v ↦ (
    record t { translation_table = t.translation_table ++ e ∷ [] },
    none,
    rw (v, Table.add) refl,
    subst (λ b. Step (view t) (add_call e) none b)
        (sym (Quot.sound (perm_snoc t.translation_table e))) (added e (view t) v),
  )
  | inr v ↦ (t, some invalid_entry, rw (v, Table.add) refl, refused e (view t) v)
]
perform-Step (remove_nsip_call ip) t = elim (remove_by_nsip_cases t ip) [
  | inl (a, e) ↦ (
    t,
    some entry_not_found,
    e,
    missing ip (view t) (ap (λ es. Quot.mk es) (filter-any (has_ns_ip ip) t.translation_table a)),
  )
  | inr (k, x, t', g, h, a, e, p) ↦ (t', none, e, taken ip x (view t) (view t') h (Quot.sound p))
]
perform-Step (remove_job_call j) t =
    let (t', e, p) = remove_by_job_name_lem t j in
    (
      t',
      none,
      e,
      subst (λ b. Step (view t) (remove_job_call j) none b) (Quot.sound p) (dropped j (view t)),
    )

-- Any sequence of additions and removals, from any table, returns without a panic, and is a sequence
-- of steps on the view with the same errors: the table implements the collection of entries in which
-- an addition puts a valid entry, a removal by name takes out all of the job, and a removal by address
-- takes out one entry with the address, or none and only if there is none.
pub perform_all-Steps :
    (cs : List Call) (t : TableManager)
    → (t' : TableManager) × (os : List (Option Error)) × (perform_all cs t ≡ returns (t', os))
      × Steps (view t) cs os (view t')
unfolding perform_all
perform_all-Steps [] t = (t, [], refl, finished (view t))
perform_all-Steps (c ∷ cs) t =
    let (t', o, e, s) = perform-Step c t in
    let (t'', os, e', ss) = perform_all-Steps cs t' in
    (t'', o ∷ os, rw (e) (rw (e') refl), then_step s ss)

-- What `SearchByJobName` finds is, in the view, the entries of the job: tables with one view give the
-- same answer up to its order.
pub search_by_job_name-only :
    (t : TableManager) (j : Bytes)
    → Quot.mk (search_by_job_name t j) ≡ only (λ e. e.job_name =ᵇ j) (view t)
unfolding only
search_by_job_name-only t j = ap (λ es. Quot.mk es) (search_by_job_name-filter t j)
