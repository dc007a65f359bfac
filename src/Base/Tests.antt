-- ===== src/Base/Tests.antt =====
-- Boolean tests on numbers and on byte strings. A Go `string` is read as the list of its bytes.
use Prim.Native.Nat.{ℕ, compare, Ordering}
use Prim.Native.Char.{code}
use Prim.Native.String.{String}
use mathlib.Core.Path.{◌≡◌, refl, sym, ◌∙◌}
use mathlib.Core.Logic.{◌⊎◌, inl, inr}
use mathlib.Core.Bool.{Bool, true, false, ◌&&◌}
use mathlib.Core.Option.{Option, none, some}
use mathlib.Core.List.{List, [], ◌∷◌}
use native.Mathlib.Omega.{arith}

abbrev pub ltb : ℕ → ℕ → Bool
ltb a b = elim (compare a b) [ Ordering.lt ↦ true | _ ↦ false ]

abbrev pub leb : ℕ → ℕ → Bool
leb a b = elim (compare a b) [ Ordering.gt ↦ false | _ ↦ true ]

infix 50 ◌==◌ ◌=ᵇ◌
abbrev pub ◌==◌ : ℕ → ℕ → Bool
a == b = elim (compare a b) [ Ordering.eq ↦ true | _ ↦ false ]

infix 1 if◌then◌else◌
abbrev pub if◌then◌else◌ {ℓ} : {A : Type ℓ} → Bool → A → A → A
if true then x else y = x
if false then x else y = y

pub ==_refl : (a : ℕ) → (a == a) ≡ true
==_refl a = ground arith

pub Bool-cases : (b : Bool) → (b ≡ true) ⊎ (b ≡ false)
Bool-cases true = inl refl
Bool-cases false = inr refl

pub Option-cases {ℓ} : {A : Type ℓ} (o : Option A) → (o ≡ none) ⊎ ((a : A) × (o ≡ some a))
Option-cases none = inl refl
Option-cases (some a) = inr (a, refl)

-- The bytes of a Go string.
abbrev pub Bytes : Type 0
Bytes = List ℕ

-- `==` on strings, `bytealg.Equal` on slices.
unfoldable pub ◌=ᵇ◌ : Bytes → Bytes → Bool
[] =ᵇ [] = true
[] =ᵇ (y ∷ ys) = false
(x ∷ xs) =ᵇ [] = false
(x ∷ xs) =ᵇ (y ∷ ys) = x == y && xs =ᵇ ys

pub =ᵇ_sound : (xs ys : Bytes) → (xs =ᵇ ys) ≡ true → xs ≡ ys
unfolding ◌=ᵇ◌
=ᵇ_sound [] [] h = refl
=ᵇ_sound [] (y ∷ ys) h = cc
=ᵇ_sound (x ∷ xs) [] h = cc
=ᵇ_sound (x ∷ xs) (y ∷ ys) h = ground (arith, =ᵇ_sound xs ys)

pub =ᵇ_refl : (xs : Bytes) → (xs =ᵇ xs) ≡ true
unfolding ◌=ᵇ◌
=ᵇ_refl [] = refl
=ᵇ_refl (x ∷ xs) = ground (arith, =ᵇ_refl xs)

pub =ᵇ_complete : (xs ys : Bytes) → xs ≡ ys → (xs =ᵇ ys) ≡ true
=ᵇ_complete xs ys e = rw e (=ᵇ_refl ys)

pub =ᵇ_comm : (xs ys : Bytes) → (xs =ᵇ ys) ≡ (ys =ᵇ xs)
=ᵇ_comm xs ys = elim (Bool-cases (xs =ᵇ ys)) [
  | inl e ↦ e ∙ sym (=ᵇ_complete ys xs (sym (=ᵇ_sound xs ys e)))
  | inr e ↦ elim (Bool-cases (ys =ᵇ xs)) [
    | inl f ↦ let h : (xs =ᵇ ys) ≡ true = =ᵇ_complete xs ys (sym (=ᵇ_sound ys xs f)) in cc
    | inr f ↦ e ∙ sym f
  ]
]

-- The bytes of an ASCII text.
abbrev pub codes : String → Bytes
codes String.[] = []
codes (String.◌∷◌ c s) = code c ∷ codes s
