-- ===== src/Base/Lists.antt =====
-- Go slices as lists: indexing and length over the native numbers, and removal by a swap.
use Prim.Native.Nat.{ℕ, zero, suc, ◌+◌, ◌≤◌, ◌<◌}
use mathlib.Core.Path.{◌≡◌, refl, ap}
use mathlib.Core.Logic.{◌⊎◌, inl, inr}
use mathlib.Core.Option.{Option, none, some}
use mathlib.Core.List.{List, [], ◌∷◌, ◌++◌, Perm}
use mathlib.Core.List.Perm
use native.Mathlib.Omega.{arith}

module _ {ℓ} {A : Type ℓ} where
  abbrev pub length : List A → ℕ
  length [] = 0
  length (x ∷ xs) = suc (length xs)

  abbrev pub get_elem? : List A → ℕ → Option A
  get_elem? [] i = none
  get_elem? (x ∷ xs) zero = some x
  get_elem? (x ∷ xs) (suc i) = get_elem? xs i

  -- `xs[i] = v`; out of range nothing is written here, and the callers say what Go does there.
  abbrev pub set : List A → ℕ → A → List A
  set [] i v = []
  set (x ∷ xs) zero v = v ∷ xs
  set (x ∷ xs) (suc i) v = x ∷ set xs i v

  abbrev pub take : ℕ → List A → List A
  take zero xs = []
  take (suc n) [] = []
  take (suc n) (x ∷ xs) = x ∷ take n xs

  abbrev pub drop : ℕ → List A → List A
  drop zero xs = xs
  drop (suc n) [] = []
  drop (suc n) (x ∷ xs) = drop n xs

  abbrev pub replicate : ℕ → A → List A
  replicate zero a = []
  replicate (suc n) a = a ∷ replicate n a

  -- `xs[len(xs)-1]` and `xs[:len(xs)-1]`.
  abbrev pub get_last : A → List A → A
  get_last x [] = x
  get_last x (y ∷ ys) = get_last y ys

  abbrev pub init : A → List A → List A
  init x [] = []
  init x (y ∷ ys) = x ∷ init y ys

  pub List-cases : (xs : List A) → (xs ≡ []) ⊎ ((a : A) × (rest : List A) × (xs ≡ a ∷ rest))
  List-cases [] = inl refl
  List-cases (x ∷ xs) = inr (x, xs, refl)

  pub length-append : (xs ys : List A) → length (xs ++ ys) ≡ length xs + length ys
  length-append [] ys = omega arith
  length-append (x ∷ xs) ys = omega (arith, length-append xs ys)

  pub length-set : (xs : List A) (i : ℕ) (v : A) → length (set xs i v) ≡ length xs
  length-set [] i v = refl
  length-set (x ∷ xs) zero v = refl
  length-set (x ∷ xs) (suc i) v = omega (arith, length-set xs i v)

  pub length-replicate : (n : ℕ) (a : A) → length (replicate n a) ≡ n
  length-replicate zero a = refl
  length-replicate (suc n) a = omega (arith, length-replicate n a)

  pub get_elem?-lt : (xs : List A) (i : ℕ) → i < length xs → (a : A) × (get_elem? xs i ≡ some a)
  get_elem?-lt [] i h = elim h [ ]
  get_elem?-lt (x ∷ xs) zero h = (x, refl)
  get_elem?-lt (x ∷ xs) (suc i) h = get_elem?-lt xs i (omega arith)

  pub lt-length_of_get_elem? :
      (xs : List A) (i : ℕ) {a : A} → get_elem? xs i ≡ some a → i < length xs
  lt-length_of_get_elem? [] i h = cc
  lt-length_of_get_elem? (x ∷ xs) zero h = omega arith
  lt-length_of_get_elem? (x ∷ xs) (suc i) h = omega (arith, lt-length_of_get_elem? xs i h)

  pub append_snoc : (xs : List A) (x : A) (ys : List A) → (xs ++ x ∷ []) ++ ys ≡ xs ++ x ∷ ys
  append_snoc [] x ys = refl
  append_snoc (z ∷ xs) x ys = cc (append_snoc xs x ys)

  -- `xs[i] = xs[len(xs)-1]; xs = xs[:len(xs)-1]`, the removal that does not keep the order.
  abbrev pub swap_remove : List A → ℕ → List A
  swap_remove [] i = []
  swap_remove (x ∷ xs) i = elim (set (x ∷ xs) i (get_last x xs)) [ [] ↦ [] | y ∷ ys ↦ init y ys ]

  pub perm_middle : (xs : List A) (a : A) (ys : List A) → Perm (xs ++ a ∷ ys) (a ∷ (xs ++ ys))
  perm_middle [] a ys = Perm.refl (a ∷ ys)
  perm_middle (x ∷ xs) a ys =
      Perm.trans (Perm.cons x (perm_middle xs a ys)) (Perm.swap a x (xs ++ ys))

  pub perm_snoc : (xs : List A) (a : A) → Perm (xs ++ a ∷ []) (a ∷ xs)
  perm_snoc [] a = Perm.refl (a ∷ [])
  perm_snoc (x ∷ xs) a = Perm.trans (Perm.cons x (perm_snoc xs a)) (Perm.swap a x xs)

  get_last_perm : (x : A) (xs : List A) → Perm (x ∷ xs) (get_last x xs ∷ init x xs)
  get_last_perm x [] = Perm.refl (x ∷ [])
  get_last_perm x (y ∷ ys) =
      Perm.trans (Perm.cons x (get_last_perm y ys)) (Perm.swap (get_last y ys) x (init y ys))

  swap_remove-suc :
      (x y : A) (ys : List A) (i : ℕ)
      → swap_remove (x ∷ y ∷ ys) (suc i) ≡ x ∷ swap_remove (y ∷ ys) i
  swap_remove-suc x y ys zero = refl
  swap_remove-suc x y ys (suc i) = refl

  -- Exactly the entry at the index is gone.
  pub swap_remove-perm :
      (xs : List A) (i : ℕ) (a : A) → get_elem? xs i ≡ some a → Perm xs (a ∷ swap_remove xs i)
  swap_remove-perm [] i a h = cc
  swap_remove-perm (x ∷ []) zero a h = Perm.cons' (cc) (Perm.refl [])
  swap_remove-perm (x ∷ y ∷ ys) zero a h = Perm.cons' (cc) (get_last_perm y ys)
  swap_remove-perm (x ∷ []) (suc i) a h = cc
  swap_remove-perm (x ∷ y ∷ ys) (suc i) a h =
      rw (swap_remove-suc x y ys i)
        (Perm.trans (Perm.cons x (swap_remove-perm (y ∷ ys) i a h)) (Perm.swap a x _))

  length-init : (x : A) (xs : List A) → length (init x xs) ≡ length xs
  length-init x [] = refl
  length-init x (y ∷ ys) = omega (arith, length-init y ys)

  pub length-swap_remove :
      (xs : List A) (i : ℕ) → i < length xs → suc (length (swap_remove xs i)) ≡ length xs
  length-swap_remove [] i h = elim h [ ]
  length-swap_remove (x ∷ xs) zero h = omega (arith, length-init (get_last x xs) xs)
  length-swap_remove (x ∷ xs) (suc i) h =
      omega (arith, length-init x (set xs i (get_last x xs)), length-set xs i (get_last x xs))

  pub take-swap_remove :
      (xs : List A) (i : ℕ) → i < length xs → take i (swap_remove xs i) ≡ take i xs
  take-swap_remove xs zero h = refl
  take-swap_remove [] (suc i) h = elim h [ ]
  take-swap_remove (x ∷ []) (suc i) h = absurd (omega arith)
  take-swap_remove (x ∷ y ∷ ys) (suc i) h =
      rw (swap_remove-suc x y ys i) (ap (λ l. x ∷ l) (take-swap_remove (y ∷ ys) i (omega arith)))

  pub take_all : (xs : List A) (i : ℕ) → length xs ≤ i → take i xs ≡ xs
  take_all [] zero h = refl
  take_all [] (suc i) h = refl
  take_all (x ∷ xs) zero h = absurd (omega arith)
  take_all (x ∷ xs) (suc i) h = ap (λ l. x ∷ l) (take_all xs i (omega arith))

  pub take-suc :
      (xs : List A) (i : ℕ) {a : A}
      → get_elem? xs i ≡ some a
      → take (suc i) xs ≡ take i xs ++ a ∷ []
  take-suc [] i h = cc
  take-suc (x ∷ xs) zero h = cc
  take-suc (x ∷ xs) (suc i) h = ap (λ l. x ∷ l) (take-suc xs i h)
