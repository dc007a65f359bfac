-- ===== src/Network/Hash.antt =====
-- `NameUniqueHash` of node-net-manager/network/NetUtils.go. The hash and the encoding are of the
-- standard library, and the time is a text.
pub mod Length
use oakestra_net.Base.{
  ℕ, zero, suc, ◌+◌, ◌*◌, ◌/◌, ◌≡◌, Bool, true, false, Option, none, some, List, [], ◌∷◌, ◌++◌,
  Bytes, codes, length, take, ltb, Outcome, returns, panic,
}
use oakestra_net.Base.Int.{ℤ, pos, negsuc}

-- SHA-1 gives 20 bytes, and base64 four characters for each started group of three bytes.
pub record Hashing : Type 0 where
  pub sha1 : Bytes → Bytes
  pub length-sha1 : (b : Bytes) → length (sha1 b) ≡ 20
  pub url_encode : Bytes → Bytes
  pub length-url_encode : (b : Bytes) → length (url_encode b) ≡ 4 * ((length b + 2) / 3)

-- The loop, with a bound on its rounds; `none` if they are not enough.
unfoldable pub grow : ℕ → ℕ → Bytes → Option Bytes
grow zero size hashed = elim (ltb (length hashed) size) [ true ↦ none | false ↦ some hashed ]
grow (suc rounds) size hashed = elim (ltb (length hashed) size) [
  | true ↦ grow rounds size (hashed ++ hashed)
  | false ↦ some hashed
]

-- `s[:size]`.
abbrev pub slice_to : Bytes → ℤ → Outcome Bytes
slice_to s (negsuc n) = panic
slice_to s (pos size) = elim (ltb (length s) size) [ true ↦ panic | false ↦ returns (take size s) ]

-- The size as a bound of the loop, which a negative one does not enter.
abbrev pub rounds_for : ℤ → ℕ
rounds_for (pos size) = size
rounds_for (negsuc n) = 0

-- `none` would stand for a loop that does not end in the rounds that it is given.
unfoldable pub name_unique_hash : Hashing → Bytes → Bytes → ℤ → Option (Outcome Bytes)
unfolding grow
name_unique_hash h now name size =
    elim (grow (rounds_for size) (rounds_for size) (h.sha1 (now ++ codes "," ++ name))) [
      | none ↦ none
      | some hashed ↦ some (slice_to (h.url_encode hashed) size)
    ]
