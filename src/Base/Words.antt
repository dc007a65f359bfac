-- ===== src/Base/Words.antt =====
-- The functions of Go's package `strings` that the program calls, on the bytes of a string.
use Prim.Native.Nat.{ℕ, zero, suc, ◌-◌}
use mathlib.Core.Bool.{Bool, true, false, ◌&&◌}
use mathlib.Core.List.{List, [], ◌∷◌}
use oakestra_net.Base.Tests.{Bytes, ◌==◌, if◌then◌else◌}
use oakestra_net.Base.Lists.{length}

-- `strings.Split(s, sep)` for a separator of one byte.
abbrev pub put_byte : ℕ → List Bytes → List Bytes
put_byte c [] = (c ∷ []) ∷ []
put_byte c (w ∷ ws) = (c ∷ w) ∷ ws

abbrev pub split : ℕ → Bytes → List Bytes
split sep [] = [] ∷ []
split sep (c ∷ cs) = let rest = split sep cs in if c == sep then [] ∷ rest else put_byte c rest

abbrev pub has_prefix : Bytes → Bytes → Bool
has_prefix [] s = true
has_prefix (p ∷ ps) [] = false
has_prefix (p ∷ ps) (c ∷ cs) = p == c && has_prefix ps cs

-- `strings.Contains(s, pattern)` for a pattern that is not empty.
abbrev pub contains : Bytes → Bytes → Bool
contains pattern' [] = false
contains pattern' (c ∷ cs) =
    let rest = contains pattern' cs in if has_prefix pattern' (c ∷ cs) then true else rest

-- `strings.Replace(s, pattern, "", -1)`: `k` more bytes belong to an occurrence that began before.
abbrev remove_from : Bytes → ℕ → Bytes → Bytes
remove_from pattern' k [] = []
remove_from pattern' (suc k) (c ∷ cs) = remove_from pattern' k cs
remove_from pattern' zero (c ∷ cs) =
    let inside = remove_from pattern' (length pattern' - 1) cs in
    let outside = remove_from pattern' 0 cs in
    if has_prefix pattern' (c ∷ cs) then inside else c ∷ outside

abbrev pub remove_all : Bytes → Bytes → Bytes
remove_all pattern' s = remove_from pattern' 0 s
