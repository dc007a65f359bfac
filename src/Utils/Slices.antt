-- ===== src/Utils/Slices.antt =====
-- What adding to a shared slice and removing from it do to its contents.
use mathlib.Core.List.{not-mem-nil, eq-or-mem_of_mem-cons, mem-cons_self}
use mathlib.Core.List.Perm
use mathlib.Core.Logic.{∥∥₁_elim}
use oakestra_net.Base.{
  sym, subst, Mem, ◌↔◌, ℕ, suc, ◌+◌, ◌≡◌, ◌⊎◌, inl, inr, refl, ap, ◌∙◌, Bool, true, false,
  Bool-cases, List, [], ◌∷◌, Perm, some, length, get_elem?, swap_remove-perm,
  lt-length_of_get_elem?, ltb, arith,
}
use oakestra_net.Base.Int.{pos, negsuc}
use oakestra_net.Utils.{Slice, find_from, exists, remove_elem, remove_locked}

module _ {A : Type 0} (eq : A → A → Bool) (sound : (x y : A) → eq x y ≡ true → x ≡ y) where
  find_from-cases :
      (i : ℕ) (xs : List A) (elem : A)
      → (find_from eq i xs elem ≡ negsuc 0)
        ⊎ ((j : ℕ) × (find_from eq i xs elem ≡ pos (i + j)) × (get_elem? xs j ≡ some elem))
  unfolding find_from
  find_from-cases i [] elem = inl refl
  find_from-cases i (x ∷ xs) elem = elim (Bool-cases (eq x elem)) [
    | inl t ↦ inr (0, rw (t) (ap pos (omega arith)), ap some (sound x elem t))
    | inr f ↦ elim (find_from-cases (i + 1) xs elem) [
      | inl e ↦ inl (rw (f, e) refl)
      | inr (j, e, g) ↦ inr (suc j, rw (f) (e ∙ ap pos (omega arith)), g)
    ]
  ]

  removed :
      (s : Slice A) (j : ℕ) (elem : A)
      → get_elem? s.elements j ≡ some elem
      → Perm s.elements (elem ∷ (remove_locked s (pos j)).elements)
  unfolding remove_locked
  removed s j elem g =
      let inside : ltb j (length s.elements) ≡ true =
        ground (arith, lt-length_of_get_elem? s.elements j g) in
      rw (inside) (swap_remove-perm s.elements j elem g)

  -- Where the comparison of elements is sound: if `Exists` does not find the element, `RemoveElem`
  -- changes nothing; if it does, the slice from before is, up to order, the element and the slice from
  -- after, so that one occurrence is gone and nothing else.
  pub remove_elem_cases :
      (s : Slice A) (elem : A)
      → ((exists eq s elem ≡ false) × (remove_elem eq s elem ≡ s))
        ⊎ ((exists eq s elem ≡ true) × Perm s.elements (elem ∷ (remove_elem eq s elem).elements))
  unfolding exists remove_elem
  remove_elem_cases s elem = elim (find_from-cases 0 s.elements elem) [
    | inl e ↦ inl (rw (e) refl, rw (e) refl)
    | inr (j, e, g) ↦
        let at : find_from eq 0 s.elements elem ≡ pos j = e ∙ ap pos (omega arith) in
        inr (rw (at) refl, rw (at) (removed s j elem g))
  ]

  find_from-mem :
      (complete : (x : A) → eq x x ≡ true) (i : ℕ) (xs : List A) (elem : A)
      → find_from eq i xs elem ≡ negsuc 0
      → ¬ Mem elem xs
  unfolding find_from
  find_from-mem complete i [] elem h m = not-mem-nil m
  find_from-mem complete i (x ∷ xs) elem h m = elim (Bool-cases (eq x elem)) [
    | inl t ↦ pos-negsuc (rw (t) at h)
    | inr f ↦ ∥∥₁_elim (eq-or-mem_of_mem-cons m) (hlevel) (λ c. elim c [
      | inl e ↦ true-false (sym (complete x) ∙ subst (λ y. eq x y ≡ false) e f)
      | inr n ↦ find_from-mem complete (i + 1) xs elem (rw (f) at h) n
    ])
  ]
    where
      pos-negsuc : pos i ≡ negsuc 0 → ⊥
      pos-negsuc e = cc

      true-false : true ≡ false → ⊥
      true-false e = cc

  -- Where the comparison is equality, `Exists` tells whether the element is in the slice.
  pub exists_iff :
      (complete : (x : A) → eq x x ≡ true) (s : Slice A) (elem : A)
      → (exists eq s elem ≡ true) ↔ Mem elem s.elements
  unfolding exists
  exists_iff complete s elem = elim (find_from-cases 0 s.elements elem) [
    | inl e ↦ (
      λ h. absurd (false-true (rw (e) at h)),
      λ m. absurd (find_from-mem complete 0 s.elements elem e m),
    )
    | inr (j, e, g) ↦ (λ h. (Perm.mem_iff (removed s j elem g)).1 mem-cons_self, λ m. rw (e) refl)
  ]
    where
      false-true : false ≡ true → ⊥
      false-true e = cc
