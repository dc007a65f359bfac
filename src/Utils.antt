-- ===== src/Utils.antt =====
-- node-net-manager/utils/SliceApi.go: a slice shared under a lock. Each method holds the lock to its
-- return and is one step. `==` on the element type is the test `eq`.
pub mod Slices
use oakestra_net.Base.{
  ℕ, ◌+◌, Bool, true, false, not, List, [], ◌∷◌, ◌++◌, length, swap_remove, ltb, if◌then◌else◌,
}
use oakestra_net.Base.Int.{ℤ, pos, negsuc, is_neg}

-- `genericSlice`.
pub record Slice (A : Type 0) : Type 0 where
  pub elements : List A

abbrev pub new_slice : {A : Type 0} → Slice A
new_slice = record { elements = [] }

module _ {A : Type 0} where
  abbrev pub add : Slice A → A → Slice A
  add s elem = record { elements = s.elements ++ elem ∷ [] }

  unfoldable pub remove_locked : Slice A → ℤ → Slice A
  remove_locked s (pos index) =
      if ltb index (length s.elements)
      then record { elements = swap_remove s.elements index }
      else s
  remove_locked s (negsuc n) = s

  abbrev pub remove : Slice A → ℤ → Slice A
  remove s index = remove_locked s index

  abbrev pub get : Slice A → List A
  get s = s.elements

  module _ (eq : A → A → Bool) where
    -- The loop of `findLocked` from the index `i` on.
    unfoldable pub find_from : ℕ → List A → A → ℤ
    find_from i [] elem = negsuc 0
    find_from i (x ∷ xs) elem =
        let rest = find_from (i + 1) xs elem in if eq x elem then pos i else rest

    abbrev pub find_locked : Slice A → A → ℤ
    find_locked s elem = find_from 0 s.elements elem

    abbrev pub find : Slice A → A → ℤ
    find s elem = find_locked s elem

    unfoldable pub exists : Slice A → A → Bool
    exists s elem = not (is_neg (find s elem))

    unfoldable pub remove_elem : Slice A → A → Slice A
    unfolding remove_locked
    remove_elem s elem = remove_locked s (find_locked s elem)
