-- ===== src/Network/Hash/Length.antt =====
-- The loop of `NameUniqueHash` ends, and the name has the size that was asked for.
use oakestra_net.Base.{
  ℕ, zero, suc, ◌+◌, ◌<◌, ◌≤◌, ◌≡◌, inl, inr, refl, ap, false, Bool-cases, some, List, [], ◌∷◌,
  ◌++◌, Bytes, codes, length, length-append, take, ltb, arith, returns,
}
use oakestra_net.Base.Int.{pos}
use oakestra_net.Network.Hash.{Hashing, slice_to, grow, name_unique_hash}

abbrev pub doubled : ℕ → Bytes → Bytes
doubled zero xs = xs
doubled (suc k) xs = doubled k (xs ++ xs)

length-take : {A : Type 0} (n : ℕ) (xs : List A) → n ≤ length xs → length (take n xs) ≡ n
length-take zero xs h = refl
length-take (suc n) [] h = absurd (omega (arith, h))
length-take (suc n) (x ∷ xs) h = omega (arith, length-take n xs (omega (arith, h)))

grow-doubled :
    (rounds size : ℕ) (xs : Bytes)
    → 0 < length xs
    → size ≤ length xs + rounds
    → (k : ℕ) × (grow rounds size xs ≡ some (doubled k xs)) × (size ≤ length (doubled k xs))
unfolding grow
grow-doubled zero size xs h b =
    let done : ltb (length xs) size ≡ false = ground (arith, b) in
    (0, rw (done, grow) refl, omega (arith, b))
grow-doubled (suc rounds) size xs h b = elim (Bool-cases (ltb (length xs) size)) [
  | inr f ↦ (0, rw (f, grow) refl, ground (arith, f))
  | inl t ↦
      let longer : length (xs ++ xs) ≡ length xs + length xs = length-append xs xs in
      let (k, e, l) =
        grow-doubled rounds size (xs ++ xs) (omega (arith, longer, h))
          (omega (arith, longer, h, b)) in
      (suc k, rw (t, grow) e, l)
]

slice_to-take :
    (s : Bytes) (size : ℕ) → size ≤ length s → slice_to s (pos size) ≡ returns (take size s)
slice_to-take s size h =
    let inside : ltb (length s) size ≡ false = ground (arith, h) in rw (inside, slice_to) refl

-- For every name, time and size that is not negative, the loop ends within as many rounds as the size
-- says, no index is out of range, and the result has the size: it is the start of the encoding of the
-- digest, which was doubled some number of times.
pub name_unique_hash-length :
    (h : Hashing) (now name : Bytes) (size : ℕ)
    → (k : ℕ) × (s : Bytes) × (name_unique_hash h now name (pos size) ≡ some (returns s))
      × (length s ≡ size)
      × (s ≡ take size (h.url_encode (doubled k (h.sha1 (now ++ codes "," ++ name)))))
unfolding name_unique_hash
name_unique_hash-length h now name size =
    let digest = h.sha1 (now ++ codes "," ++ name) in
    let (k, e, l) =
      grow-doubled size size digest (omega (arith, h.length-sha1 (now ++ codes "," ++ name)))
        (omega arith) in
    let enough : size ≤ length (h.url_encode (doubled k digest)) =
      omega (arith, l, h.length-url_encode (doubled k digest)) in
    (
      k,
      take size (h.url_encode (doubled k digest)),
      rw (e, name_unique_hash)
          (ap some (slice_to-take (h.url_encode (doubled k digest)) size enough)),
      length-take size (h.url_encode (doubled k digest)) enough,
      refl,
    )
