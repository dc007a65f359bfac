-- ===== src/Table/Names.antt =====
-- `isValid` against a description of a well-formed entry that runs no code of it.
use oakestra_net.Base.{
  ℕ, ◌≤◌, ◌≡◌, ◌≢◌, ◌↔◌, ◌⊎◌, refl, true, false, List, [], ◌∷◌, Bytes, length, All, ltb, arith,
}
use oakestra_net.Base.Int.{ℤ, pos, negsuc, is_neg}
use oakestra_net.Net.{Ip, nil, addr, is_nil}
use oakestra_net.Table.{TableEntry, match_name, all_alnum, is_valid}

abbrev pub IsAlnum : ℕ → Type 0
IsAlnum c = ((b'a' ≤ c) × (c ≤ b'z')) ⊎ (((b'A' ≤ c) × (c ≤ b'Z')) ⊎ ((b'0' ≤ c) × (c ≤ b'9')))

pub record IsName (s : Bytes) : Type 0 where
  pub chars : All IsAlnum s
  pub nonempty : 1 ≤ length s
  pub short : length s ≤ 30

pub record IsWellFormed (e : TableEntry) : Type 0 where
  pub app : IsName e.appname
  pub ns : IsName e.appns
  pub service : IsName e.servicename
  pub service_ns : IsName e.servicenamespace
  pub instance_natural : (n : ℕ) × (e.instancenumber ≡ pos n)
  pub cluster_natural : (n : ℕ) × (e.cluster ≡ pos n)
  pub node : e.nodeip ≢ nil
  pub v4 : e.nsip ≢ nil
  pub v6 : e.nsipv6 ≢ nil
  pub served : e.service_ip ≢ []

all_alnum_iff : (s : Bytes) → (all_alnum s ≡ true) ↔ All IsAlnum s
all_alnum_iff [] = (λ h. tt, λ h. refl)
all_alnum_iff (c ∷ cs) =
    (λ h. ground (arith, (all_alnum_iff cs).0), λ h. ground (arith, (all_alnum_iff cs).1 h.1))

match_name_iff : (s : Bytes) → (match_name s ≡ true) ↔ IsName s
unfolding match_name
match_name_iff s =
    (λ h. ground (arith, (all_alnum_iff s).0), λ h. ground (arith, (all_alnum_iff s).1 h.chars))

natural_iff : (z : ℤ) → (is_neg z ≡ false) ↔ ((n : ℕ) × (z ≡ pos n))
natural_iff (pos n) = (λ h. (n, refl), λ h. refl)
natural_iff (negsuc n) = (λ h. cc, λ (m, e). cc)

not_nil_iff : (a : Ip) → (is_nil a ≡ false) ↔ (a ≢ nil)
not_nil_iff nil = (λ h. cc, λ h. absurd (h refl))
not_nil_iff (addr bs) = (λ h e. cc, λ h. refl)

nonempty_iff {ℓ} : {A : Type ℓ} (xs : List A) → (ltb (length xs) 1 ≡ false) ↔ (xs ≢ [])
nonempty_iff [] = (λ h. cc, λ h. absurd (h refl))
nonempty_iff (x ∷ xs) = (λ h e. cc, λ h. ground arith)

-- `Add` accepts an entry exactly when it is well formed: each of the four names has 1 to 30 letters
-- or digits, the instance and cluster numbers are not negative, the three addresses are set and
-- there is a service address.
pub is_valid_iff : (e : TableEntry) → (is_valid e ≡ true) ↔ IsWellFormed e
unfolding is_valid
is_valid_iff e = (
  λ h. record {
    app = (match_name_iff _).0 (ground arith);
    ns = (match_name_iff _).0 (ground arith);
    service = (match_name_iff _).0 (ground arith);
    service_ns = (match_name_iff _).0 (ground arith);
    instance_natural = (natural_iff _).0 (ground arith);
    cluster_natural = (natural_iff _).0 (ground arith);
    node = (not_nil_iff _).0 (ground arith);
    v4 = (not_nil_iff _).0 (ground arith);
    v6 = (not_nil_iff _).0 (ground arith);
    served = (nonempty_iff _).0 (ground arith);
  },
  λ w.
      rw
        (
          (match_name_iff _).1 w.app,
          (match_name_iff _).1 w.ns,
          (match_name_iff _).1 w.service,
          (match_name_iff _).1 w.service_ns,
          (natural_iff _).1 w.instance_natural,
          (natural_iff _).1 w.cluster_natural,
          (not_nil_iff _).1 w.node,
          (not_nil_iff _).1 w.v4,
          (not_nil_iff _).1 w.v6,
          (nonempty_iff _).1 w.served,
        )
        refl,
)
