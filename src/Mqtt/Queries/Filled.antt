-- ===== src/Mqtt/Queries/Filled.antt =====
-- What the handler of an answer, node-net-manager/mqtt/Tablequery.go, puts into a channel.
use oakestra_net.Base.{
  ℕ, ◌≡◌, ◌≢◌, inl, inr, refl, sym, ap, ◌∙◌, subst, true, false, Bool-cases, Option-cases, none,
  some, List, [], ◌∷◌, ◌++◌, any, Bytes, ◌==◌, ==_refl, ◌=ᵇ◌, =ᵇ_sound, =ᵇ_refl, =ᵇ_complete, arith,
  if◌then◌else◌,
}
use oakestra_net.Mqtt.{TableQueryResponse, QueryCache, notify, notify_all}

module _ (r : TableQueryResponse) (j : ℕ) where
  notify_keeps :
      (key k : Bytes) (q : QueryCache)
      → (notify r key q).siprequests k ≡ some j
      → q.siprequests k ≡ some j
  unfolding notify
  notify_keeps key k q h = elim (Option-cases (q.siprequests key)) [
    | inl e ↦ rw (e, notify) at h
    | inr (i, e) ↦ elim (Bool-cases (k =ᵇ key)) [
      | inl b ↦ let h' : none ≡ some j = rw (b) at (rw (e, notify) at h) in cc
      | inr b ↦ rw (b) at (rw (e, notify) at h)
    ]
  ]

  pub notify_other :
      (key k : Bytes) (q : QueryCache)
      → (k =ᵇ key) ≡ false
      → q.siprequests k ≡ some j
      → (notify r key q).siprequests k ≡ some j
  unfolding notify
  notify_other key k q b h = elim (Option-cases (q.siprequests key)) [
    | inl e ↦ rw (e, notify) h
    | inr (i, e) ↦ rw (e, notify) (rw (b) h)
  ]

  notify_silent :
      (key : Bytes) (q : QueryCache)
      → q.siprequests key ≢ some j
      → (notify r key q).responses j ≡ q.responses j
  unfolding notify
  notify_silent key q n = elim (Option-cases (q.siprequests key)) [
    | inl e ↦ rw (e, notify) refl
    | inr (i, e) ↦ elim (Bool-cases (j == i)) [
      | inl b ↦ let same : j ≡ i = ground arith in absurd (n (e ∙ ap some (sym same)))
      | inr b ↦ rw (e, notify) (rw (b) refl)
    ]
  ]

  notify_filled :
      (key : Bytes) (q : QueryCache)
      → q.siprequests key ≡ some j
      → (notify r key q).responses j ≡ q.responses j ++ r ∷ []
  unfolding notify
  notify_filled key q e = rw (e, notify) (rw (==_refl j) refl)

  notify_gone :
      (key : Bytes) (q : QueryCache)
      → q.siprequests key ≡ some j
      → (notify r key q).siprequests key ≢ some j
  unfolding notify
  notify_gone key q e h = let h' : none ≡ some j = rw (=ᵇ_refl key) at (rw (e, notify) at h) in cc

  notify_all_silent :
      (keys : List Bytes) (q : QueryCache)
      → ((k : Bytes) → q.siprequests k ≢ some j)
      → (notify_all r keys q).responses j ≡ q.responses j
  unfolding notify_all
  notify_all_silent [] q n = refl
  notify_all_silent (key ∷ keys) q n =
      notify_all_silent keys (notify r key q) (λ k h. n k (notify_keeps key k q h))
      ∙ notify_silent key q (n key)

  different : (key k : Bytes) → (key =ᵇ k) ≡ false → key ≢ k
  different key k b e = let b' : (key =ᵇ k) ≡ true = =ᵇ_complete key k e in cc

  -- An answer that does not name it leaves the channel of a name alone.
  notify_all-none :
      (k : Bytes) (keys : List Bytes) (q : QueryCache)
      → ((k' : Bytes) → q.siprequests k' ≡ some j → k' ≡ k)
      → any (λ key. key =ᵇ k) keys ≡ false
      → (notify_all r keys q).responses j ≡ q.responses j
  unfolding notify_all
  notify_all-none k [] q own h = refl
  notify_all-none k (key ∷ keys) q own h = elim (Bool-cases (key =ᵇ k)) [
    | inl b ↦ let h' : true ≡ false = rw (b) at h in cc
    | inr b ↦
        notify_all-none k keys (notify r key q) (λ k' t. own k' (notify_keeps key k' q t))
          (rw (b) at h)
        ∙ notify_silent key q (λ t. different key k b (own key t))
  ]

  -- A name with an empty channel of its own gets a response that has it among its keys exactly once.
  notify_all-once :
      (k : Bytes) (keys : List Bytes) (q : QueryCache)
      → q.siprequests k ≡ some j
      → q.responses j ≡ []
      → ((k' : Bytes) → q.siprequests k' ≡ some j → k' ≡ k)
      → any (λ key. key =ᵇ k) keys ≡ true
      → (notify_all r keys q).responses j ≡ r ∷ []
  unfolding notify_all
  notify_all-once k [] q e z own h = cc
  notify_all-once k (key ∷ keys) q e z own h = elim (Bool-cases (key =ᵇ k)) [
    | inl b ↦
        let same : key ≡ k = =ᵇ_sound key k b in
        let e' : q.siprequests key ≡ some j = subst (λ x. q.siprequests x ≡ some j) (sym same) e in
        let gone : (x : Bytes) → (notify r key q).siprequests x ≢ some j = λ x t.
          let x' : x ≡ key = own x (notify_keeps key x q t) ∙ sym same in
          notify_gone key q e' (subst (λ y. (notify r key q).siprequests y ≡ some j) x' t) in
        notify_all_silent keys (notify r key q) gone
        ∙ notify_filled key q e'
        ∙ ap (λ rs. rs ++ r ∷ []) z
    | inr b ↦
        let other : q.siprequests key ≢ some j = λ t. different key k b (own key t) in
        let b'' : (k =ᵇ key) ≡ false = elim (Bool-cases (k =ᵇ key)) [
          | inl t ↦ let b' : (key =ᵇ k) ≡ true = =ᵇ_complete key k (sym (=ᵇ_sound k key t)) in cc
          | inr f ↦ f
        ] in
        notify_all-once k keys (notify r key q) (notify_other key k q b'' e)
          (notify_silent key q other ∙ z) (λ k' t. own k' (notify_keeps key k' q t)) (rw (b) at h)
  ]

  -- What an answer leaves in the channel of a registered name.
  pub notify_all-responses :
      (k : Bytes) (keys : List Bytes) (q : QueryCache)
      → q.siprequests k ≡ some j
      → q.responses j ≡ []
      → ((k' : Bytes) → q.siprequests k' ≡ some j → k' ≡ k)
      → (notify_all r keys q).responses j ≡ (if any (λ key. key =ᵇ k) keys then r ∷ [] else [])
  notify_all-responses k keys q e z own = elim (Bool-cases (any (λ key. key =ᵇ k) keys)) [
    | inl b ↦ rw (b) (notify_all-once k keys q e z own b)
    | inr b ↦ rw (b) (notify_all-none k keys q own b ∙ z)
  ]
