-- ===== src/Mqtt/Queries/Changes.antt =====
-- What the operations on the cache of pending queries change, node-net-manager/mqtt/Tablequery.go.
use oakestra_net.Base.{
  ℕ, ◌+◌, ◌≡◌, ◌≤◌, ◌<◌, inl, inr, refl, sym, ap, ◌∙◌, subst, true, false, Bool-cases, Option, none,
  some, List, [], ◌∷◌, ◌++◌, All, All-append, Bytes, ◌==◌, ==_refl, ◌=ᵇ◌, =ᵇ_sound, =ᵇ_complete,
  ◌⊎◌, if◌then◌else◌, length, arith,
}
use oakestra_net.Mqtt.{TableQueryResponse, QueryCache}
use oakestra_net.Mqtt.Queries.Invariant.{Names, IsValid, Serves, Extends}

-- One lookup in a map after a write of `v` at `k`.
looked_up :
    (m : Bytes → Option ℕ) (k k' : Bytes) (v : Option ℕ) (i : ℕ)
    → (if k' =ᵇ k then v else m k') ≡ some i
    → ((k' ≡ k) × (v ≡ some i)) ⊎ (m k' ≡ some i)
looked_up m k k' v i h = elim (Bool-cases (k' =ᵇ k)) [
  | inl e ↦ inl (=ᵇ_sound k' k e, rw (e) at h)
  | inr e ↦ inr (rw (e) at h)
]

-- The cache after a new channel for a name, and after a response went into channel `i` of a name.
module _ (q : QueryCache) where
  abbrev pub opened : Bytes → QueryCache
  opened name = record {
    siprequests = λ k. if k =ᵇ name then some q.made else q.siprequests k;
    responses = λ j. if j == q.made then [] else q.responses j;
    made = q.made + 1;
  }

  abbrev filled : TableQueryResponse → Bytes → ℕ → QueryCache
  filled r key i = record q {
    siprequests = λ k. if k =ᵇ key then none else q.siprequests k;
    responses = λ j. if j == i then q.responses j ++ r ∷ [] else q.responses j;
  }

module _ (q : QueryCache) (v : IsValid q) where
  still :
      (r : TableQueryResponse) (key : Bytes) (i : ℕ) (k : Bytes) (j : ℕ)
      → (filled q r key i).siprequests k ≡ some j
      → q.siprequests k ≡ some j
  still r key i k j h = elim (looked_up q.siprequests key k none j h) [
    | inl (e, n) ↦ cc
    | inr e ↦ e
  ]

  other_channel :
      (r : TableQueryResponse) (key : Bytes) (i : ℕ) (k : Bytes) (j : ℕ)
      → q.siprequests key ≡ some i
      → (filled q r key i).siprequests k ≡ some j
      → (j == i) ≡ false
  other_channel r key i k j e h = elim (Bool-cases (j == i)) [
    | inr n ↦ n
    | inl n ↦
        let same : j ≡ i = ground arith in
        let k' : k ≡ key =
          v.own k key i (subst (λ x. q.siprequests k ≡ some x) same (still r key i k j h)) e in
        let b : (k =ᵇ key) ≡ true = =ᵇ_complete k key k' in
        let h' : none ≡ some j = rw (b) at h in cc
  ]

  pub filled-Extends :
      (r : TableQueryResponse) (key : Bytes) (i : ℕ)
      → q.siprequests key ≡ some i
      → Names key r
      → Extends q (filled q r key i)
  filled-Extends r key i e n = record {
    valid = record {
      made = λ k j h. v.made k j (still r key i k j h);
      empty = λ k j h. rw (other_channel r key i k j e h) (v.empty k j (still r key i k j h));
      own = λ k k' j h h'. v.own k k' j (still r key i k j h) (still r key i k' j h');
      room = λ j. elim (Bool-cases (j == i)) [
        | inl b ↦
            let same : j ≡ i = ground arith in
            rw (b) (rw (same) (rw (v.empty key i e) (omega arith)))
        | inr b ↦ rw (b) (v.room j)
      ];
    };
    served = λ m j s. record {
      made = s.made;
      only = λ k h. s.only k (still r key i k j h);
      said = elim (Bool-cases (j == i)) [
        | inl b ↦
            let same : j ≡ i = ground arith in
            let k' : key ≡ m = s.only key (subst (λ x. q.siprequests key ≡ some x) (sym same) e) in
            rw (b) (
              All-append (Names m) (q.responses j) (r ∷ []) s.said
                (subst (λ x. Names x r) k' n, tt))
        | inr b ↦ rw (b) s.said
      ];
    };
  }

  old_or_new :
      (name k : Bytes) (j : ℕ)
      → (opened q name).siprequests k ≡ some j
      → ((k ≡ name) × (j ≡ q.made)) ⊎ (q.siprequests k ≡ some j)
  old_or_new name k j h = elim (looked_up q.siprequests name k (some q.made) j h) [
    | inl (e, n) ↦ inl (e, cc)
    | inr e ↦ inr e
  ]

  pub opened-Extends : (name : Bytes) → Extends q (opened q name)
  opened-Extends name = record {
    valid = record {
      made = λ k j h. elim (old_or_new name k j h) [
        | inl (e, n) ↦ omega arith
        | inr e ↦ let l : j < q.made = v.made k j e in omega arith
      ];
      empty = λ k j h. elim (Bool-cases (j == q.made)) [
        | inl b ↦ rw (b) refl
        | inr b ↦ elim (old_or_new name k j h) [
          | inl (e, n) ↦ absurd (ground arith)
          | inr e ↦ rw (b) (v.empty k j e)
        ]
      ];
      own = λ k k' j h h'. elim (old_or_new name k j h) [
        | inl (e, n) ↦ elim (old_or_new name k' j h') [
          | inl (e', n') ↦ e ∙ sym e'
          | inr e' ↦ let l : j < q.made = v.made k' j e' in absurd (omega arith)
        ]
        | inr e ↦ elim (old_or_new name k' j h') [
          | inl (e', n') ↦ let l : j < q.made = v.made k j e in absurd (omega arith)
          | inr e' ↦ v.own k k' j e e'
        ]
      ];
      room = λ j. elim (Bool-cases (j == q.made)) [
        | inl b ↦ rw (b) (omega arith)
        | inr b ↦ rw (b) (v.room j)
      ];
    };
    served = λ m j s.
        let l : j < q.made = s.made in
        record {
          made = omega arith;
          only = λ k h. elim (old_or_new name k j h) [
            | inl (e, n) ↦ absurd (omega arith)
            | inr e ↦ s.only k e
          ];
          said = let b : (j == q.made) ≡ false = ground arith in rw (b) s.said;
        };
  }

  pub opened-Serves : (name : Bytes) → Serves (opened q name) name q.made
  opened-Serves name = record {
    made = omega arith;
    only = λ k h. elim (old_or_new name k q.made h) [
      | inl (e, n) ↦ e
      | inr e ↦ let l : q.made < q.made = v.made k q.made e in absurd (omega arith)
    ];
    said = rw (==_refl q.made) tt;
  }

  pub taken-Extends :
      (i : ℕ) (r : TableQueryResponse) (rs : List TableQueryResponse)
      → q.responses i ≡ r ∷ rs
      → Extends q (record q { responses = λ j. if j == i then rs else q.responses j })
  taken-Extends i r rs e = record {
    valid = record {
      made = v.made;
      empty = λ k j h. elim (Bool-cases (j == i)) [
        | inl b ↦
            let same : j ≡ i = ground arith in
            let z : q.responses i ≡ [] = subst (λ x. q.responses x ≡ []) same (v.empty k j h) in cc
        | inr b ↦ rw (b) (v.empty k j h)
      ];
      own = v.own;
      room = λ j. elim (Bool-cases (j == i)) [
        | inl b ↦
            let l : length (r ∷ rs) ≤ 1 = subst (λ x. length x ≤ 1) e (v.room i) in
            rw (b) (omega arith)
        | inr b ↦ rw (b) (v.room j)
      ];
    };
    served = λ m j s. record {
      made = s.made;
      only = s.only;
      said = elim (Bool-cases (j == i)) [
        | inl b ↦
            let same : j ≡ i = ground arith in
            let a : All (Names m) (r ∷ rs) =
              subst (λ x. All (Names m) x) (ap q.responses same ∙ e) s.said in
            rw (b) a.1
        | inr b ↦ rw (b) s.said
      ];
    };
  }
