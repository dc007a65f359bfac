-- ===== src/Env/Addresses.antt =====
-- The addresses for containers: none is given to two of them, and none is lost.
use mathlib.Core.Logic.{∥∥₁_elim}
use mathlib.Core.List.{Nodup, not-mem-nil, mem-cons_self, Pairwise, eq-or-mem_of_mem-cons}
use mathlib.Core.List.Perm
use oakestra_net.Base.{
  ℕ, zero, suc, ◌+◌, ◌≤◌, ◌<◌, ◌≡◌, ◌≢◌, inl, inr, refl, sym, ap, ◌∙◌, subst, Bool, Bool-cases,
  Option, none, some, List, [], ◌∷◌, ◌++◌, Mem, Perm, List-cases, perm_middle, perm_snoc,
  append_assoc, arith, Outcome, returns, ltb,
}
use oakestra_net.Net.{Ip}
use oakestra_net.Env.{AddressPool, take_address, give_back}

-- The first `n` addresses of a sequence.
abbrev pub handed : (ℕ → Ip) → ℕ → List Ip
handed at zero = []
handed at (suc n) = at n ∷ handed at n

-- The addresses in use and the free ones are together those that the pool has made so far, each
-- once; `tot_next_addr` is one more than their number.
pub record IsPool (at : ℕ → Ip) (max : ℕ) (p : AddressPool) (used : List Ip) : Type 0 where
  pub made : ℕ
  pub tot : p.tot_next_addr ≡ suc made
  pub bounded : made < max
  pub next : p.next_container_ip ≡ at made
  pub kept : Perm (used ++ p.addr_cache) (handed at made)

-- The result of taking an address while others are in use.
abbrev pub IsTaken : (ℕ → Ip) → ℕ → AddressPool → List Ip → AddressPool → Option Ip → Type 0
IsTaken at max p used p' none = (p' ≡ p) × (p.addr_cache ≡ []) × (p.tot_next_addr ≡ max)
IsTaken at max p used p' (some ip) =
    IsPool at max p' (ip ∷ used) × Nodup (ip ∷ used ++ p'.addr_cache)

-- A sequence of addresses that are different up to a bound, which `next` goes through.
module _ (at : ℕ → Ip) (max : ℕ) (next : Ip → ℕ → Outcome Ip)
    (distinct : (i j : ℕ) → i < j → j < max → at i ≢ at j)
    (step : (i : ℕ) → suc i < max → next (at i) 1 ≡ returns (at (suc i))) where
  not_handed : (n i : ℕ) → n ≤ i → i < max → Mem (at i) (handed at n) → ⊥
  not_handed zero i h k m = not-mem-nil m
  not_handed (suc n) i h k m = ∥∥₁_elim (eq-or-mem_of_mem-cons m) (hlevel) (λ c. elim c [
    | inl e ↦ distinct n i (omega arith) k (sym e)
    | inr m' ↦ not_handed n i (omega arith) k m'
  ])

  handed-Nodup : (n : ℕ) → n ≤ max → Nodup (handed at n)
  handed-Nodup zero h = Pairwise.nil
  handed-Nodup (suc n) h =
      Pairwise.cons
        (λ a m e.
          not_handed n n (omega arith) (omega arith) (subst (λ x. Mem x (handed at n)) (sym e) m))
        (handed-Nodup n (omega arith))

  reused :
      (p : AddressPool) (used : List Ip) (v : IsPool at max p used) (a : Ip) (rest : List Ip)
      → p.addr_cache ≡ a ∷ rest
      → IsTaken at max p used (record p { addr_cache = rest }) (some a)
  reused p used v a rest e =
      let moved : Perm (a ∷ used ++ rest) (handed at v.made) =
        Perm.trans (Perm.symm (perm_middle used a rest))
          (subst (λ l. Perm (used ++ l) (handed at v.made)) e v.kept) in
      (
        record { made = v.made; tot = v.tot; bounded = v.bounded; next = v.next; kept = moved },
        Perm.nodup (Perm.symm moved) (handed-Nodup v.made (omega (arith, v.bounded))),
      )

  fresh :
      (p : AddressPool) (used : List Ip) (v : IsPool at max p used)
      → p.addr_cache ≡ []
      → suc v.made < max
      → IsTaken at max p used
          (record p { tot_next_addr = p.tot_next_addr + 1; next_container_ip = at (suc v.made) })
          (some p.next_container_ip)
  fresh p used v e h =
      let moved : Perm (p.next_container_ip ∷ used ++ p.addr_cache) (handed at (suc v.made)) =
        Perm.cons' v.next v.kept in
      (
        record {
          made = suc v.made;
          tot = omega (arith, v.tot);
          bounded = h;
          next = refl;
          kept = moved;
        },
        Perm.nodup (Perm.symm moved) (handed-Nodup (suc v.made) (omega arith)),
      )

  pub take_address-IsPool :
      (p : AddressPool) (used : List Ip)
      → IsPool at max p used
      → (p' : AddressPool) × (o : Option Ip) × (take_address max next p ≡ returns (p', o))
        × IsTaken at max p used p' o
  unfolding take_address
  take_address-IsPool p used v = elim (List-cases p.addr_cache) [
    | inr (a, rest, e) ↦
        (record p { addr_cache = rest }, some a, simp (take_address, e), reused p used v a rest e)
    | inl e ↦ elim (Bool-cases (ltb p.tot_next_addr max)) [
      | inl t ↦ (
        _,
        some p.next_container_ip,
        simp (take_address, e, t, v.next, step v.made (ground (arith, v.tot, t))),
        fresh p used v e (ground (arith, v.tot, t)),
      )
      | inr f ↦ (p, none, simp (take_address, e, f), (refl, e, ground (arith, v.tot, v.bounded, f)))
    ]
  ]

  pub give_back-IsPool :
      (p : AddressPool) (used used' : List Ip) (ip : Ip)
      → IsPool at max p used
      → Perm used (ip ∷ used')
      → IsPool at max (give_back ip p) used'
  give_back-IsPool p used used' ip v h = record {
    made = v.made;
    tot = v.tot;
    bounded = v.bounded;
    next = v.next;
    kept =
        Perm.trans
          (subst (λ l. Perm l (ip ∷ used' ++ p.addr_cache))
            (append_assoc used' p.addr_cache (ip ∷ [])) (perm_snoc (used' ++ p.addr_cache) ip))
          (Perm.trans (Perm.symm (Perm.append_right p.addr_cache h)) v.kept);
  }

  -- What is true of all addresses of the sequence is true of one in use.
  module _ (test : Ip → Bool) (v : Bool) (all : (i : ℕ) → i < max → test (at i) ≡ v) where
    handed-test : (n : ℕ) (a : Ip) → n ≤ max → Mem a (handed at n) → test a ≡ v
    handed-test zero a h m = absurd (not-mem-nil m)
    handed-test (suc n) a h m =
        ∥∥₁_elim (eq-or-mem_of_mem-cons m) (hlevel)
          (λ c. elim c [ inl e ↦ ap test e ∙ all n h | inr m' ↦ handed-test n a (omega arith) m' ])

    pub IsPool-test :
        (p : AddressPool) (a : Ip) (used : List Ip) → IsPool at max p (a ∷ used) → test a ≡ v
    IsPool-test p a used k =
        handed-test k.made a (omega (arith, k.bounded)) ((Perm.mem_iff k.kept).0 mem-cons_self)
