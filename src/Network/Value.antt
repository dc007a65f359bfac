-- ===== src/Network/Value.antt =====
-- The numbers that addresses stand for, and the next address as a sum of them.
use oakestra_net.Base.{
  ℕ, zero, suc, ◌+◌, ◌*◌, ◌/◌, ◌%◌, ◌^◌, ◌<◌, ◌≤◌, ◌≡◌, ◌≢◌, refl, ap, [], ◌∷◌, ◌++◌, Bytes, length,
  length-append, ◌=ᵇ◌, arith, returns,
}
use oakestra_net.Net.{Ip, nil, addr, octets, to4, to16, ipv4}
use oakestra_net.Network.{next_ipv4, next_ipv6, set_bytes, fill_bytes}

-- The number of an address, in the form of 16 bytes or of 4.
abbrev pub value : Ip → ℕ
value ip = set_bytes 0 (octets ip)

set_bytes-append :
    (v : ℕ) (xs : Bytes) (b : ℕ) → set_bytes v (xs ++ b ∷ []) ≡ set_bytes v xs * 256 + b
set_bytes-append v [] b = refl
set_bytes-append v (x ∷ xs) b = set_bytes-append (v * 256 + x) xs b

pub set_bytes-fill_bytes : (n v : ℕ) → v < 256 ^ n → set_bytes 0 (fill_bytes n v) ≡ v
unfolding fill_bytes
set_bytes-fill_bytes zero v h = omega arith
set_bytes-fill_bytes (suc n) v h = omega (
  arith,
  set_bytes-append 0 (fill_bytes n (v / 256)) (v % 256),
  set_bytes-fill_bytes n (v / 256) (omega arith),
)

-- The address of a number of 32 bits, as `net.IPv4` makes it, and of a number of 128 bits.
abbrev pub ip4 : ℕ → Ip
ip4 v = ipv4 (v / 16777216 % 256) (v / 65536 % 256) (v / 256 % 256) (v % 256)

abbrev pub ip6 : ℕ → Ip
ip6 v = addr (fill_bytes 16 v)

pub value-ip4 : (v : ℕ) → v < 2 ^ 32 → value (ip4 v) ≡ 281470681743360 + v
value-ip4 v h = omega arith

pub value-ip6 : (v : ℕ) → v < 2 ^ 128 → value (ip6 v) ≡ v
value-ip6 v h = set_bytes-fill_bytes 16 v h

digits :
    (v : ℕ)
    → v < 2 ^ 32
    → (v / 16777216 % 256 * 16777216 + v / 65536 % 256 * 65536 + v / 256 % 256 * 256 + v % 256 + 1)
        % 2 ^ 64
      ≡ v + 1
digits v h = omega arith

pub next_ipv4-ip4 : (v : ℕ) → v < 2 ^ 32 → next_ipv4 (ip4 v) 1 ≡ returns (ip4 (v + 1))
unfolding next_ipv4 to4 ◌=ᵇ◌
next_ipv4-ip4 v h = ap (λ w. returns (ip4 w)) (digits v h)

length-fill_bytes : (n v : ℕ) → length (fill_bytes n v) ≡ n
unfolding fill_bytes
length-fill_bytes zero v = refl
length-fill_bytes (suc n) v =
    omega
      (arith, length-append (fill_bytes n (v / 256)) (v % 256 ∷ []), length-fill_bytes n (v / 256))

to16-length : (bs : Bytes) → length bs ≡ 16 → to16 (addr bs) ≡ addr bs
unfolding to16
to16-length bs h = ground (arith, h)

pub to16-ip6 : (v : ℕ) → to16 (ip6 v) ≡ ip6 v
to16-ip6 v = to16-length (fill_bytes 16 v) (length-fill_bytes 16 v)

pub next_ipv6-ip6 : (v : ℕ) → v + 1 < 2 ^ 128 → next_ipv6 (ip6 v) 1 ≡ returns (ip6 (v + 1))
unfolding next_ipv6
next_ipv6-ip6 v h = rw (to16-ip6 v, set_bytes-fill_bytes 16 v (omega arith)) (ground (arith, h))

pub to4-ip4 : (v : ℕ) → to4 (ip4 v) ≢ nil
unfolding to4 ◌=ᵇ◌
to4-ip4 v e = cc

-- A number that needs all of its bytes has a first byte other than 0.
lead :
    (n v : ℕ)
    → 256 ^ n ≤ v
    → v < 256 ^ suc n
    → (b : ℕ) × (bs : Bytes) × (b ≢ 0) × (fill_bytes (suc n) v ≡ b ∷ bs)
unfolding fill_bytes
lead zero v h k = (v % 256, [], omega arith, refl)
lead (suc n) v h k =
    let (b, bs, ne, e) = lead n (v / 256) (omega arith) (omega arith) in
    (b, bs ++ v % 256 ∷ [], ne, ap (λ l. l ++ v % 256 ∷ []) e)

to4-lead : (b : ℕ) (bs : Bytes) → b ≢ 0 → length (b ∷ bs) ≡ 16 → to4 (addr (b ∷ bs)) ≡ nil
unfolding to4 ◌=ᵇ◌
to4-lead b bs ne h = ground (arith, ne, h)

pub to4-ip6 : (v : ℕ) → 2 ^ 120 ≤ v → v < 2 ^ 128 → to4 (ip6 v) ≡ nil
to4-ip6 v h k =
    let (b, bs, ne, e) = lead 15 v h k in
    rw e (to4-lead b bs ne (rw (e) at (length-fill_bytes 16 v)))
