-- ===== src/Network.antt =====
-- node-net-manager/network/NetUtils.go: the next address of each IP version. `net.IPv4`, `To4` and
-- `To16` are those of Net, and `big.Int` is a number without a bound.
pub mod Filter
pub mod Interfaces
pub mod Hash
pub mod Value
pub mod Ports
use oakestra_net.Base.{
  ℕ, zero, suc, ◌+◌, ◌*◌, ◌/◌, ◌%◌, ◌^◌, List, [], ◌∷◌, ◌++◌, Bytes, ltb, if◌then◌else◌, Outcome,
  returns, panic,
}
use oakestra_net.Net.{Ip, addr, octets, to4, to16, ipv4}

-- `uint` has 64 bits. The bytes are read before the sum, so a nil address panics.
next_octets : Bytes → ℕ → Outcome Ip
next_octets [] inc = panic
next_octets (a ∷ []) inc = panic
next_octets (a ∷ b ∷ []) inc = panic
next_octets (a ∷ b ∷ c ∷ []) inc = panic
next_octets (a ∷ b ∷ c ∷ d ∷ rest) inc =
    let v = (a * 16777216 + b * 65536 + c * 256 + d + inc) % 2 ^ 64 in
    returns (ipv4 (v / 16777216 % 256) (v / 65536 % 256) (v / 256 % 256) (v % 256))

unfoldable pub next_ipv4 : Ip → ℕ → Outcome Ip
unfolding next_octets
next_ipv4 ip inc = next_octets (octets (to4 ip)) inc

-- `SetBytes`, most significant byte first, after the bytes read so far.
abbrev pub set_bytes : ℕ → Bytes → ℕ
set_bytes v [] = v
set_bytes v (b ∷ bs) = set_bytes (v * 256 + b) bs

-- `FillBytes` into a slice of `n` bytes, for a number that fits.
unfoldable pub fill_bytes : ℕ → ℕ → Bytes
fill_bytes zero v = []
fill_bytes (suc n) v = fill_bytes n (v / 256) ++ v % 256 ∷ []

-- `FillBytes` panics on a number that does not fit.
unfoldable pub next_ipv6 : Ip → ℕ → Outcome Ip
next_ipv6 ip inc =
    let v = set_bytes 0 (octets (to16 ip)) + inc in
    if ltb v (2 ^ 128) then returns (addr (fill_bytes 16 v)) else panic
