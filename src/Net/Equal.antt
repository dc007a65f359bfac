-- ===== src/Net/Equal.antt =====
-- `Equal` compares the forms of 16 bytes, so it is an equivalence.
use oakestra_net.Base.{
  ◌≡◌, ◌≢◌, refl, sym, ◌∙◌, true, false, ◌&&◌, [], ◌∷◌, ◌++◌, Bytes, length, take, drop, inl, inr,
  length-append, ◌==◌, ◌=ᵇ◌, if◌then◌else◌, arith, Bool-cases, =ᵇ_sound, =ᵇ_refl,
}
use oakestra_net.Net.{Ip, octets, v4_prefix, equal, equal_octets}

-- An IPv4 address in 16 bytes; all else as it stands.
abbrev pub canon : Bytes → Bytes
canon xs = if length xs == 4 then v4_prefix ++ xs else xs

=ᵇ-append :
    (p xs ys : Bytes) → (p ++ xs =ᵇ ys) ≡ (take (length p) ys =ᵇ p && xs =ᵇ drop (length p) ys)
unfolding ◌=ᵇ◌
=ᵇ-append [] xs ys = refl
=ᵇ-append (c ∷ p) xs [] = refl
=ᵇ-append (c ∷ p) xs (y ∷ ys) = ground (arith, =ᵇ-append p xs ys)

=ᵇ_length : (xs ys : Bytes) → length xs ≢ length ys → (xs =ᵇ ys) ≡ false
unfolding ◌=ᵇ◌
=ᵇ_length [] [] h = absurd (h refl)
=ᵇ_length [] (y ∷ ys) h = refl
=ᵇ_length (x ∷ xs) [] h = refl
=ᵇ_length (x ∷ xs) (y ∷ ys) h = ground (arith, =ᵇ_length xs ys (λ e. h (omega arith)))

=ᵇ_comm : (xs ys : Bytes) → (xs =ᵇ ys) ≡ (ys =ᵇ xs)
unfolding ◌=ᵇ◌
=ᵇ_comm [] [] = refl
=ᵇ_comm [] (y ∷ ys) = refl
=ᵇ_comm (x ∷ xs) [] = refl
=ᵇ_comm (x ∷ xs) (y ∷ ys) = ground (arith, =ᵇ_comm xs ys)

v4_prefix_both : (xs ys : Bytes) → (v4_prefix ++ xs =ᵇ v4_prefix ++ ys) ≡ (xs =ᵇ ys)
unfolding ◌=ᵇ◌
v4_prefix_both xs ys = refl

-- One side has 4 bytes.
v4_prefix_one :
    (xs ys : Bytes)
    → length xs ≡ 4
    → length ys ≢ 4
    → (v4_prefix ++ xs =ᵇ ys)
      ≡ (if length ys == 16 then take 12 ys =ᵇ v4_prefix && xs =ᵇ drop 12 ys else false)
v4_prefix_one xs ys h k = elim (Bool-cases (length ys == 16)) [
  | inl e ↦ rw e (=ᵇ-append v4_prefix xs ys)
  | inr e ↦ rw e (=ᵇ_length (v4_prefix ++ xs) ys (ground (arith, length-append v4_prefix xs)))
]

four : (xs : Bytes) → (length xs == 4) ≡ true → length xs ≡ 4
four xs h = ground arith

four_not : (xs : Bytes) → (length xs == 4) ≡ false → length xs ≢ 4
four_not xs h = ground arith

equal_octets-canon : (xs ys : Bytes) → equal_octets xs ys ≡ (canon xs =ᵇ canon ys)
unfolding equal_octets
equal_octets-canon xs ys = elim (Bool-cases (length xs == 4)) [
  | inl e ↦ elim (Bool-cases (length ys == 4)) [
    | inl f ↦ rw (e, f, v4_prefix_both xs ys) (rw (four xs e, four ys f))
    | inr f ↦
        rw (e, f, v4_prefix_one xs ys (four xs e) (four_not ys f))
          (rw (four xs e) (ground (arith, four_not ys f)))
  ]
  | inr e ↦ elim (Bool-cases (length ys == 4)) [
    | inl f ↦
        rw (e, f, =ᵇ_comm xs (v4_prefix ++ ys), v4_prefix_one ys xs (four ys f) (four_not xs e))
          (rw (four ys f) (ground (arith, four_not xs e, =ᵇ_comm ys (drop 12 xs))))
    | inr f ↦ rw (e, f) (ground (arith, four_not xs e, four_not ys f, =ᵇ_length xs ys))
  ]
]

pub equal-canon : (a b : Ip) → equal a b ≡ (canon (octets a) =ᵇ canon (octets b))
unfolding equal
equal-canon a b = equal_octets-canon (octets a) (octets b)

pub canon_of_equal : (a b : Ip) → equal a b ≡ true → canon (octets a) ≡ canon (octets b)
canon_of_equal a b h = =ᵇ_sound _ _ (sym (equal-canon a b) ∙ h)

pub equal_refl : (a : Ip) → equal a a ≡ true
equal_refl a = equal-canon a a ∙ =ᵇ_refl _

pub equal_comm : (a b : Ip) → equal a b ≡ equal b a
equal_comm a b = equal-canon a b ∙ =ᵇ_comm _ _ ∙ sym (equal-canon b a)

-- Equal addresses are equal to the same ones.
pub equal_congr : (a b c : Ip) → equal a b ≡ true → equal a c ≡ equal b c
equal_congr a b c h = rw (equal-canon a c, equal-canon b c, canon_of_equal a b h)
