-- ===== src/Network/Interfaces/Default.antt =====
-- Which link the default route leads to, and the address of the node.
use mathlib.Core.List.{mem-cons_self, mem-cons_of_mem}
use oakestra_net.Base.{
  ℕ, ◌≤◌, ◌≡◌, ◌⊎◌, inl, inr, refl, ◌∙◌, Bool, false, Bool-cases, Option-cases, Option, none, some,
  List, [], ◌∷◌, Mem, Bytes, any, length, ◌=ᵇ◌, =ᵇ_sound, arith,
}
use oakestra_net.Network.Interfaces.{Link, find_default, default_route}

module _ (link_by_index : ℕ → Option Bytes) (default_interface : Bytes) where
  abbrev pub is_default : ℕ → Bool
  is_default r = elim (link_by_index r) [ none ↦ false | some n ↦ n =ᵇ default_interface ]

  -- A link of one of the routes.
  abbrev pub IsOn : List ℕ → Link → Type 0
  IsOn rs l = (link_by_index l.index ≡ some l.name) × Mem l.index rs

  find_default_cases :
      (rs : List ℕ)
      → ((l : Link) × (find_default link_by_index default_interface rs ≡ some l)
          × IsOn rs l
          × (l.name ≡ default_interface))
        ⊎ ((find_default link_by_index default_interface rs ≡ none) × (any is_default rs ≡ false))
  unfolding find_default
  find_default_cases [] = inr (refl, refl)
  find_default_cases (r ∷ rs) = elim (Option-cases (link_by_index r)) [
    | inl e ↦ passed (rw (e, find_default) refl) (rw (e, is_default) refl) (find_default_cases rs)
    | inr (n, e) ↦ elim (Bool-cases (n =ᵇ default_interface)) [
      | inl t ↦ inl (
        record { index = r; name = n },
        rw (e, find_default) (rw (t) refl),
        (e, mem-cons_self),
        =ᵇ_sound n default_interface t,
      )
      | inr f ↦
          passed (rw (e, find_default) (rw (f) refl)) (rw (e, is_default) f) (find_default_cases rs)
    ]
  ]
    where
      passed :
          find_default link_by_index default_interface (r ∷ rs)
            ≡ find_default link_by_index default_interface rs
          → is_default r ≡ false
          → (((l : Link) × (find_default link_by_index default_interface rs ≡ some l)
                × IsOn rs l
                × (l.name ≡ default_interface))
              ⊎ ((find_default link_by_index default_interface rs ≡ none)
                  × (any is_default rs ≡ false)))
          → (((l : Link) × (find_default link_by_index default_interface (r ∷ rs) ≡ some l)
                × IsOn (r ∷ rs) l
                × (l.name ≡ default_interface))
              ⊎ ((find_default link_by_index default_interface (r ∷ rs) ≡ none)
                  × (any is_default (r ∷ rs) ≡ false)))
      passed p q (inl (l, e, (o, m), d)) = inl (l, p ∙ e, (o, mem-cons_of_mem _ m), d)
      passed p q (inr (e, a)) = inr (p ∙ e, rw (q) a)

  -- The default route, for the routes that are found. Either it is the link of one of them, and it has
  -- the name of the interface that is configured, or none is configured and there is one route only;
  -- or there is an error, and no route has a link of that name, or none is configured and there are
  -- several routes.
  pub default_route_cases :
      (rs : List ℕ)
      → ((l : Link) × (default_route link_by_index default_interface (some rs) ≡ some l)
          × IsOn rs l
          × ((l.name ≡ default_interface) ⊎ ((default_interface ≡ []) × (rs ≡ l.index ∷ []))))
        ⊎ ((default_route link_by_index default_interface (some rs) ≡ none)
            × ((any is_default rs ≡ false) ⊎ ((default_interface ≡ []) × (2 ≤ length rs))))
  unfolding default_route
  default_route_cases [] = inr (refl, inl refl)
  default_route_cases (r ∷ []) = elim (Option-cases (link_by_index r)) [
    | inl e ↦ inr (rw (e, default_route) refl, inl (rw (e, is_default) refl))
    | inr (n, e) ↦ elim (Bool-cases (default_interface =ᵇ [])) [
      | inl t ↦ inl (
        record { index = r; name = n },
        rw (e, default_route) (rw (t) refl),
        (e, mem-cons_self),
        inr (=ᵇ_sound default_interface [] t, refl),
      )
      | inr f ↦ elim (Bool-cases (n =ᵇ default_interface)) [
        | inl t ↦ inl (
          record { index = r; name = n },
          rw (e, default_route) (rw (f, t) refl),
          (e, mem-cons_self),
          inl (=ᵇ_sound n default_interface t),
        )
        | inr g ↦
            inr (rw (e, default_route) (rw (f, g) refl), inl (rw (e, is_default) (rw (g) refl)))
      ]
    ]
  ]
  default_route_cases (r ∷ r' ∷ rs) = elim (Bool-cases (default_interface =ᵇ [])) [
    | inl t ↦ inr (rw (t, default_route) refl, inr (=ᵇ_sound default_interface [] t, omega arith))
    | inr f ↦ elim (find_default_cases (r ∷ r' ∷ rs)) [
      | inl (l, e, o, d) ↦ inl (l, rw (f, default_route) e, o, inl d)
      | inr (e, a) ↦ inr (rw (f, default_route) e, inl a)
    ]
  ]
