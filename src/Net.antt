-- ===== src/Net.antt =====
-- `net.IP` of Go's standard library, as far as the program uses it: a slice of bytes that is nil, or
-- has 4 bytes for an IPv4 address and 16 bytes for an IPv6 or an IPv4-mapped address.
pub mod Equal
use Prim.Native.Nat.{bit_and}
use oakestra_net.Base.{
  ℕ, zero, suc, Bool, true, false, ◌&&◌, List, [], ◌∷◌, ◌++◌, Bytes, length, take, drop, ◌==◌, ◌=ᵇ◌,
  if◌then◌else◌,
}

pub data Ip : Type 0 where
  nil : Ip
  addr : Bytes → Ip

-- A nil slice has length 0 and ranges over nothing.
abbrev pub octets : Ip → Bytes
octets nil = []
octets (addr bs) = bs

-- `ip == nil`.
abbrev pub is_nil : Ip → Bool
is_nil nil = true
is_nil (addr bs) = false

-- `v4InV6Prefix`.
abbrev pub v4_prefix : Bytes
v4_prefix = 0 ∷ 0 ∷ 0 ∷ 0 ∷ 0 ∷ 0 ∷ 0 ∷ 0 ∷ 0 ∷ 0 ∷ 255 ∷ 255 ∷ []

-- `func (ip IP) Equal(x IP) bool`, on the bytes.
equal_octets : Bytes → Bytes → Bool
unfolding ◌=ᵇ◌
equal_octets xs ys =
    if length xs == length ys
    then xs =ᵇ ys
    else if length xs == 4 && length ys == 16
    then take 12 ys =ᵇ v4_prefix && xs =ᵇ drop 12 ys
    else if length xs == 16 && length ys == 4
    then take 12 xs =ᵇ v4_prefix && drop 12 xs =ᵇ ys
    else false

unfoldable pub equal : Ip → Ip → Bool
unfolding equal_octets
equal a b = equal_octets (octets a) (octets b)

-- `func (ip IP) To4() IP` and `func (ip IP) To16() IP`.
to4_octets : Bytes → Ip
to4_octets xs =
    if length xs == 4
    then addr xs
    else if length xs == 16 && take 12 xs =ᵇ v4_prefix
    then addr (drop 12 xs)
    else nil

unfoldable pub to4 : Ip → Ip
unfolding to4_octets
to4 a = to4_octets (octets a)

to16_octets : Bytes → Ip
to16_octets xs =
    if length xs == 4 then addr (v4_prefix ++ xs) else if length xs == 16 then addr xs else nil

unfoldable pub to16 : Ip → Ip
unfolding to16_octets
to16 a = to16_octets (octets a)

-- `func IPv4(a, b, c, d byte) IP`, which makes the form of 16 bytes.
abbrev pub ipv4 : ℕ → ℕ → ℕ → ℕ → Ip
ipv4 a b c d = addr (v4_prefix ++ a ∷ b ∷ c ∷ d ∷ [])

abbrev and_bytes : Bytes → Bytes → Bytes
and_bytes [] ms = []
and_bytes (x ∷ xs) [] = []
and_bytes (x ∷ xs) (m ∷ ms) = bit_and x m ∷ and_bytes xs ms

mask_octets : Bytes → Bytes → Ip
mask_octets xs ms = if length xs == length ms then addr (and_bytes xs ms) else nil

abbrev v4_tail : Bytes → Bytes → Bytes
v4_tail xs ms =
    if length ms == 4 && length xs == 16 && take 12 xs =ᵇ v4_prefix then drop 12 xs else xs

abbrev ff : Bytes
ff = 255 ∷ 255 ∷ 255 ∷ 255 ∷ 255 ∷ 255 ∷ 255 ∷ 255 ∷ 255 ∷ 255 ∷ 255 ∷ 255 ∷ []

abbrev v4_mask : Bytes → Bytes → Bytes
v4_mask xs ms = if length ms == 16 && length xs == 4 && take 12 ms =ᵇ ff then drop 12 ms else ms

-- `func (ip IP) Mask(mask IPMask) IP`.
unfoldable pub mask : Ip → Bytes → Ip
unfolding mask_octets
mask a ms = let m = v4_mask (octets a) ms in mask_octets (v4_tail (octets a) m) m
