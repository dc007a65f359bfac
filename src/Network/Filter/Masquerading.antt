-- ===== src/Network/Filter/Masquerading.antt =====
-- Which interfaces EnableMasquerading gives further rules, node-net-manager/network/Nat.go.
use mathlib.Core.Logic.Or
use mathlib.Core.Logic.{∥∥₁_elim}
use mathlib.Core.HLevel.{×_prop}
use mathlib.Core.List.{
  mem-append, mem-append_left, mem-append_right, mem-cons, mem-cons_self, mem-cons_of_mem,
  not-mem-nil,
}
use oakestra_net.Base.{
  ◌≡◌, ◌↔◌, inl, inr, sym, ap, ◌∙◌, subst, Bool, true, not, ◌&&◌, Bool-cases, List, [], ◌∷◌, Mem,
  Bytes, codes, any, ◌=ᵇ◌, arith,
}
use oakestra_net.Base.Words.{contains}
use oakestra_net.Network.Filter.{
  Version, v4, v6, append_unique, Action, must, both_rules, pattern_rules, interface_rules, ifaces,
}

-- The version and the interface of a rule.
abbrev version_of : Action → Version
version_of (must (append_unique v t c ps)) = v
version_of _ = v4

abbrev second : List Bytes → Bytes
second (a ∷ b ∷ c ∷ d ∷ ds) = d
second _ = []

abbrev ifce_of : Action → Bytes
ifce_of (must (append_unique v t c ps)) = second ps
ifce_of _ = []

-- An interface that is not the one with the default route, and whose name contains `en`, `eth` or `wl`.
abbrev pub is_further : Bytes → Bytes → Bool
is_further internet_ifce name =
    not (name =ᵇ internet_ifce)
    && any (λ p. contains p name) (codes "en" ∷ codes "eth" ∷ codes "wl" ∷ [])

v4-v6 : v4 ≡ v6 → ⊥
v4-v6 h = cc

is_true_prop : (b : Bool) → IsProp (b ≡ true)
is_true_prop b = hlevel

module _ (source source_v6 internet_ifce : Bytes) where
  -- The arguments of `iptables` for packets of a network that leave by an interface.
  abbrev leaving : Bytes → Bytes → List Bytes
  leaving network name =
      codes "-s" ∷ network ∷ codes "-o" ∷ name ∷ codes "-j" ∷ codes "MASQUERADE" ∷ []

  -- The rule of a version for an interface.
  abbrev pub rule : Version → Bytes → Action
  rule v4 name = must (append_unique v4 (codes "nat") (codes "POSTROUTING") (leaving source name))
  rule v6 name =
      must (append_unique v6 (codes "nat") (codes "POSTROUTING") (leaving source_v6 name))

  mem-both_rules :
      (v : Version) (a name : Bytes)
      → Mem (rule v a) (both_rules source source_v6 name)
      → ∥ a ≡ name ∥₁
  mem-both_rules v4 a name m =
      Or.elim squash₁ (mem-cons.0 m) (λ e. ∣ ap ifce_of e ∣₁)
        (λ n.
          Or.elim squash₁ (mem-cons.0 n) (λ e. absurd (v4-v6 (ap version_of e)))
            (λ n. absurd (not-mem-nil n)))
  mem-both_rules v6 a name m =
      Or.elim squash₁ (mem-cons.0 m) (λ e. absurd (v4-v6 (sym (ap version_of e))))
        (λ n. Or.elim squash₁ (mem-cons.0 n) (λ e. ∣ ap ifce_of e ∣₁) (λ n. absurd (not-mem-nil n)))

  both_rules-mem :
      (v : Version) (name : Bytes) → Mem (rule v name) (both_rules source source_v6 name)
  both_rules-mem v4 name = mem-cons_self
  both_rules-mem v6 name = mem-cons_of_mem _ mem-cons_self

  abbrev passes : Bytes → List Bytes → Bool
  passes name ps = not (name =ᵇ internet_ifce) && any (λ p. contains p name) ps

  pattern_rules_sound :
      (v : Version) (a name : Bytes) (ps : List Bytes)
      → Mem (rule v a) (pattern_rules source source_v6 internet_ifce name ps)
      → ∥ a ≡ name ∥₁ × (passes name ps ≡ true)
  pattern_rules_sound v a name [] m = absurd (not-mem-nil m)
  pattern_rules_sound v a name (p ∷ ps) m =
      elim (Bool-cases (not (name =ᵇ internet_ifce) && contains p name)) [
        | inl t ↦
            Or.elim (×_prop squash₁ (is_true_prop (passes name (p ∷ ps))))
              (mem-append.0 (rw (t) at m)) (λ n. (mem-both_rules v a name n, ground (arith, t)))
              (λ n. let (e, h) = pattern_rules_sound v a name ps n in (e, ground (arith, h)))
        | inr f ↦
            let (e, h) = pattern_rules_sound v a name ps (rw (f) at m) in (e, ground (arith, h))
      ]

  pattern_rules_complete :
      (v : Version) (name : Bytes) (ps : List Bytes)
      → passes name ps ≡ true
      → Mem (rule v name) (pattern_rules source source_v6 internet_ifce name ps)
  pattern_rules_complete v name [] h = absurd (ground (arith, h))
  pattern_rules_complete v name (p ∷ ps) h =
      elim (Bool-cases (not (name =ᵇ internet_ifce) && contains p name)) [
        | inl t ↦ rw (t) (mem-append_left _ (both_rules-mem v name))
        | inr f ↦ rw (f) (pattern_rules_complete v name ps (ground (arith, h, f)))
      ]

  interface_rules_sound :
      (v : Version) (a : Bytes) (names : List Bytes)
      → Mem (rule v a) (interface_rules source source_v6 internet_ifce names)
      → Mem a names × (is_further internet_ifce a ≡ true)
  interface_rules_sound v a [] m = absurd (not-mem-nil m)
  interface_rules_sound v a (name ∷ names) m =
      let both =
        ×_prop {A = Mem a (name ∷ names)} squash₁ (is_true_prop (is_further internet_ifce a)) in
      Or.elim both (mem-append.0 m)
        (λ n.
          let (e, h) = pattern_rules_sound v a name ifaces n in
          ∥∥₁_elim e both (λ q. (mem-cons.1 (Or.inl q), ap (is_further internet_ifce) q ∙ h)))
        (λ n. let (k, h) = interface_rules_sound v a names n in (mem-cons_of_mem _ k, h))

  interface_rules_complete :
      (v : Version) (a : Bytes) (names : List Bytes)
      → Mem a names
      → is_further internet_ifce a ≡ true
      → Mem (rule v a) (interface_rules source source_v6 internet_ifce names)
  interface_rules_complete v a [] m h = absurd (not-mem-nil m)
  interface_rules_complete v a (name ∷ names) m h =
      Or.elim squash₁ (mem-cons.0 m)
        (λ e. mem-append_left _ (
          subst (λ n. Mem (rule v a) (pattern_rules source source_v6 internet_ifce n ifaces)) e
            (pattern_rules_complete v a ifaces h)))
        (λ n. mem-append_right _ (interface_rules_complete v a names n h))

  -- Beside the rules for the interface of the default route, `EnableMasquerading` adds a rule of a
  -- version for an interface of the node exactly where this is another interface and its name
  -- contains `en`, `eth` or `wl`: the rule masquerades the packets of the network of the version that
  -- leave by the interface.
  pub interface_rules_iff :
      (v : Version) (a : Bytes) (names : List Bytes)
      → Mem (rule v a) (interface_rules source source_v6 internet_ifce names)
        ↔ (Mem a names × (is_further internet_ifce a ≡ true))
  interface_rules_iff v a names =
      (interface_rules_sound v a names, λ (m, h). interface_rules_complete v a names m h)
