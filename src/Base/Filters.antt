-- ===== src/Base/Filters.antt =====
-- Selection from a slice by a Boolean test, and what a permutation does to it.
use mathlib.Core.Path.{◌≡◌, refl}
use mathlib.Core.Logic.{∥∥₁_elim, inl, inr}
use mathlib.Core.Bool.{Bool, true, false}
use mathlib.Core.Option.{Option, none, some}
use mathlib.Core.List.{List, [], ◌∷◌, ◌++◌, Perm, Permᴰ}
use mathlib.Core.List.Perm
use native.Mathlib.Omega.{arith}
use oakestra_net.Base.Tests.{if◌then◌else◌, Bool-cases}

module _ {ℓ} {A : Type ℓ} where
  abbrev pub filter : (A → Bool) → List A → List A
  filter p [] = []
  filter p (x ∷ xs) = let rest = filter p xs in if p x then x ∷ rest else rest

  -- The first entry that passes, as a `for` loop that returns it.
  abbrev pub find? : (A → Bool) → List A → Option A
  find? p [] = none
  find? p (x ∷ xs) = let rest = find? p xs in if p x then some x else rest

  abbrev pub any : (A → Bool) → List A → Bool
  any p [] = false
  any p (x ∷ xs) = let rest = any p xs in if p x then true else rest

  abbrev pub All {κ} : (A → Type κ) → List A → Type κ
  All P [] = Unit
  All P (x ∷ xs) = P x × All P xs

  pub All_mono {κ ι} :
      (P : A → Type κ) (Q : A → Type ι) (xs : List A) → ((a : A) → P a → Q a) → All P xs → All Q xs
  All_mono P Q [] f h = tt
  All_mono P Q (x ∷ xs) f h = (f x h.0, All_mono P Q xs f h.1)

  pub All_middle {κ} :
      (P : A → Type κ) (before rest : List A) (x : A) → All P (before ++ x ∷ rest) → P x
  All_middle P [] rest x h = h.0
  All_middle P (b ∷ before) rest x h = All_middle P before rest x h.1

  pub All-append {κ} : (P : A → Type κ) (xs ys : List A) → All P xs → All P ys → All P (xs ++ ys)
  All-append P [] ys h k = k
  All-append P (x ∷ xs) ys h k = (h.0, All-append P xs ys h.1 k)

  pub All_replace {κ ι} :
      (P : A → Type κ) (Q : A → Type ι) (before rest : List A) (x y : A)
      → ((a : A) → P a → Q a)
      → All P (before ++ x ∷ rest)
      → (P x → Q y)
      → All Q (before ++ y ∷ rest)
  All_replace P Q [] rest x y f h g = (g h.0, All_mono P Q rest f h.1)
  All_replace P Q (b ∷ before) rest x y f h g = (f b h.0, All_replace P Q before rest x y f h.1 g)

  pub filter_idem : (p : A → Bool) (xs : List A) → filter p (filter p xs) ≡ filter p xs
  filter_idem p [] = refl
  filter_idem p (x ∷ xs) = elim (Bool-cases (p x)) [
    | inl e ↦ rw (e) (rw (e) (rw (filter_idem p xs) refl))
    | inr e ↦ rw (e) (filter_idem p xs)
  ]

  pub filter_comm : (p q : A → Bool) (xs : List A) → filter p (filter q xs) ≡ filter q (filter p xs)
  filter_comm p q [] = refl
  filter_comm p q (x ∷ xs) = ground (arith, filter_comm p q xs)

  pub filter-append :
      (p : A → Bool) (xs ys : List A) → filter p (xs ++ ys) ≡ filter p xs ++ filter p ys
  filter-append p [] ys = refl
  filter-append p (x ∷ xs) ys = elim (Bool-cases (p x)) [
    | inl e ↦ rw (e, filter-append p xs ys)
    | inr e ↦ rw (e, filter-append p xs ys)
  ]

  pub any-append : (p : A → Bool) (xs ys : List A) → any p xs ≡ false → any p (xs ++ ys) ≡ any p ys
  any-append p [] ys h = refl
  any-append p (x ∷ xs) ys h = ground (arith, any-append p xs ys)

  pub filter-any : (p : A → Bool) (xs : List A) → any p xs ≡ false → filter p xs ≡ []
  filter-any p [] h = refl
  filter-any p (x ∷ xs) h = ground (arith, filter-any p xs)

  swapped :
      (p : A → Bool) (c d : A) (l : List A) → Perm (filter p (d ∷ c ∷ l)) (filter p (c ∷ d ∷ l))
  swapped p c d l = elim (Bool-cases (p c)) [
    | inl t ↦ elim (Bool-cases (p d)) [
      | inl u ↦ rw (t, u) (Perm.swap c d _)
      | inr u ↦ rw (t, u) Perm.rfl
    ]
    | inr t ↦ elim (Bool-cases (p d)) [ inl u ↦ rw (t, u) Perm.rfl | inr u ↦ rw (t, u) Perm.rfl ]
  ]

  filter-permᴰ : (p : A → Bool) {xs ys : List A} → Permᴰ xs ys → Perm (filter p xs) (filter p ys)
  filter-permᴰ p Permᴰ.nil = Perm.nil
  filter-permᴰ p (Permᴰ.cons {a = a} {b = b} e d) = elim (Bool-cases (p b)) [
    | inl t ↦ rw (e, t) (Perm.cons b (filter-permᴰ p d))
    | inr t ↦ rw (e, t) (filter-permᴰ p d)
  ]
  filter-permᴰ p (Permᴰ.swap {a = a} {b = b} {a' = c} {b' = d} {l = l} e f) =
      rw (e, f) (swapped p c d l)
  filter-permᴰ p (Permᴰ.trans d e) = Perm.trans (filter-permᴰ p d) (filter-permᴰ p e)

  pub filter-perm : (p : A → Bool) {xs ys : List A} → Perm xs ys → Perm (filter p xs) (filter p ys)
  filter-perm p h = ∥∥₁_elim h squash₁ (filter-permᴰ p)
