-- ===== src/Env/Entries/Refresh.antt =====
-- What a refresh leaves of a job in the translation table.
use mathlib.Core.Logic.{∥∥₁_elim}
use mathlib.Core.List.{not-mem-nil, mem-cons_self, mem-cons_of_mem, eq-or-mem_of_mem-cons}
use mathlib.Core.List.Perm
use oakestra_net.Base.{
  ◌≡◌, inl, inr, refl, sym, ap, ◌∙◌, subst, Bool, true, Bool-cases, Option, none, some, List, [],
  ◌∷◌, Mem, Bytes, ◌=ᵇ◌, =ᵇ_sound, =ᵇ_complete, filter, All, perm_snoc, arith, returns,
}
use oakestra_net.Net.{Ip}
use oakestra_net.Table.{
  TableEntry, TableManager, is_valid, remove_by_nsip, remove_by_job_name, search_by_job_name,
}
use oakestra_net.Table
use oakestra_net.Table.Remove.{remove_by_nsip_cases, remove_by_job_name_lem, keeps}
use oakestra_net.Table.Search.{search_by_job_name-filter}
use oakestra_net.Env.{Environment}
use oakestra_net.Env.Entries.{
  Cluster, add_table_query_entry, add_entries, remove_service_entries, refresh_service_table,
}

module _ {A : Type 0} where
  mem-filter : (p : A → Bool) (xs : List A) (a : A) → Mem a (filter p xs) → Mem a xs × (p a ≡ true)
  mem-filter p [] a m = absurd (not-mem-nil m)
  mem-filter p (x ∷ xs) a m = elim (Bool-cases (p x)) [
    | inr f ↦ let (n, t) = mem-filter p xs a (rw (f) at m) in (mem-cons_of_mem _ n, t)
    | inl t ↦ ∥∥₁_elim (eq-or-mem_of_mem-cons (rw (t) at m)) (hlevel) (λ c. elim c [
      | inl e ↦ (subst (λ y. Mem y (x ∷ xs)) (sym e) mem-cons_self, ap p e ∙ t)
      | inr m' ↦ let (n, t') = mem-filter p xs a m' in (mem-cons_of_mem _ n, t')
    ])
  ]

  All-mem : {P : A → Type 0} (xs : List A) → ((a : A) → Mem a xs → P a) → All P xs
  All-mem [] h = tt
  All-mem (x ∷ xs) h = (h x mem-cons_self, All-mem xs (λ a m. h a (mem-cons_of_mem _ m)))

-- The entries of the job in a table are all in an answer.
abbrev OnlyFrom : Bytes → List TableEntry → TableManager → Type 0
OnlyFrom job answer t =
    (e : TableEntry) → Mem e t.translation_table → e.job_name ≡ job → Mem e answer

remove_by_nsip-OnlyFrom :
    (job : Bytes) (answer : List TableEntry) (t : TableManager) (ip : Ip)
    → OnlyFrom job answer t
    → (t' : TableManager) × (o : Option Table.Error) × (remove_by_nsip t ip ≡ returns (t', o))
      × OnlyFrom job answer t'
remove_by_nsip-OnlyFrom job answer t ip h = elim (remove_by_nsip_cases t ip) [
  | inl (a, e) ↦ (t, _, e, h)
  | inr (k, x, t', g, y, a, e, p) ↦
      (t', none, e, λ z m. h z ((Perm.mem_iff p).1 (mem-cons_of_mem _ m)))
]

add-OnlyFrom :
    (job : Bytes) (answer : List TableEntry) (t : TableManager) (x : TableEntry)
    → Mem x answer
    → OnlyFrom job answer t
    → OnlyFrom job answer (Table.add t x).0
unfolding Table.add
add-OnlyFrom job answer t x i h = elim (Bool-cases (is_valid x)) [
  | inr f ↦ rw (f) h
  | inl v ↦ rw (v) (λ z m j.
      ∥∥₁_elim (eq-or-mem_of_mem-cons ((Perm.mem_iff (perm_snoc t.translation_table x)).0 m))
        (hlevel) (λ c. elim c [ inl e ↦ subst (λ y. Mem y answer) (sym e) i | inr m' ↦ h z m' j ]))
]

module _ {V : Type 0} (job : Bytes) (answer : List TableEntry) where
  add_entries-OnlyFrom :
      (env : Environment V) (es : List TableEntry)
      → ((e : TableEntry) → Mem e es → Mem e answer)
      → OnlyFrom job answer env.translation_table
      → (env' : Environment V) × (add_entries env es ≡ returns env')
        × OnlyFrom job answer env'.translation_table
  unfolding add_entries add_table_query_entry
  add_entries-OnlyFrom env [] i h = (env, refl, h)
  add_entries-OnlyFrom env (e ∷ es) i h =
      let (t, o, q, k) = remove_by_nsip-OnlyFrom job answer env.translation_table e.nsip h in
      let (env', r, l) =
        add_entries-OnlyFrom (record env { translation_table = (Table.add t e).0 }) es
          (λ x m. i x (mem-cons_of_mem _ m)) (add-OnlyFrom job answer t e (i e mem-cons_self) k) in
      (env', rw (q) r, l)

  remove_service_entries-OnlyFrom :
      (env : Environment V)
      → (env' : Environment V) × (remove_service_entries env job ≡ returns env')
        × OnlyFrom job answer env'.translation_table
  unfolding remove_service_entries
  remove_service_entries-OnlyFrom env =
      let (t, e, p) = remove_by_job_name_lem env.translation_table job in
      (
        record env { translation_table = t },
        rw (e) refl,
        λ x m j. absurd (kept x j (mem-filter (keeps job) _ x ((Perm.mem_iff p).1 m)).1),
      )
    where
      kept : (x : TableEntry) → x.job_name ≡ job → keeps job x ≡ true → ⊥
      kept x j k = ground (arith, =ᵇ_complete x.job_name job j, k)

  -- If the query for the job is answered, `RefreshServiceTable` does not panic, and afterwards every
  -- entry that the table has for the job is one of the answer: no instance that the cluster does not
  -- name any more is left.
  pub refresh_service_table-answer :
      (c : Cluster) (w : c.World) (env : Environment V)
      → (c.table_query_by_job_name job w).1 ≡ some answer
      → (env' : Environment V) × (refresh_service_table c w env job
          ≡ returns ((c.table_query_by_job_name job w).0, env'))
        × All (λ e. Mem e answer) (search_by_job_name env'.translation_table job)
  unfolding refresh_service_table
  refresh_service_table-answer c w env a =
      let (env1, e1, h1) = remove_service_entries-OnlyFrom env in
      let (env2, e2, h2) = add_entries-OnlyFrom env1 answer (λ e m. m) h1 in
      (
        env2,
        rw (a, refresh_service_table) (rw (e1) (rw (e2) refl)),
        found env2.translation_table h2,
      )
    where
      found :
          (t : TableManager)
          → OnlyFrom job answer t
          → All (λ e. Mem e answer) (search_by_job_name t job)
      found t h = rw (search_by_job_name-filter t job) (
          All-mem _ (λ e m.
            let (n, j) = mem-filter (λ x. x.job_name =ᵇ job) t.translation_table e m in
            h e n (=ᵇ_sound e.job_name job j)))
