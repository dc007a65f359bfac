-- ===== src/Mqtt/Interests/Topics.antt =====
-- The topics of the MQTT client, which a new connection to the broker subscribes to again.
use mathlib.Core.List.{mem-cons_self, mem-cons_of_mem, append_cancel_left, append_cancel_right}
use oakestra_net.Base.{
  ◌≡◌, inl, inr, refl, sym, ap, ◌∙◌, subst, Bool, true, false, not, ◌||◌, Bool-cases, List, [], ◌∷◌,
  ◌++◌, Mem, Bytes, codes, ◌=ᵇ◌, =ᵇ_sound, =ᵇ_comm, any, filter, All, if◌then◌else◌,
}
use oakestra_net.Mqtt.Interests.{
  Phase, starting, waiting, cleaned, unsubscribed, removed, silent, Timer, topic_of,
}
use oakestra_net.Mqtt.Interests.Live.{is_live, live_jobs}

-- A goroutine that has not yet called `DeRegisterTopic`.
abbrev pub is_subscribed : Phase → Bool
is_subscribed starting = true
is_subscribed (waiting channel) = true
is_subscribed cleaned = true
is_subscribed unsubscribed = false
is_subscribed removed = false
is_subscribed silent = false

-- Whether a goroutine holds the subscription of a topic.
abbrev pub holds : Bytes → Timer → Bool
holds topic t = if is_subscribed t.phase then t.topic =ᵇ topic else false

abbrev pub HasTopic : Timer → Type 0
HasTopic t = t.topic ≡ topic_of t.job

pub any_append : (p : Timer → Bool) (xs ys : List Timer) → any p (xs ++ ys) ≡ (any p xs || any p ys)
any_append p [] ys = refl
any_append p (x ∷ xs) ys = elim (Bool-cases (p x)) [
  | inl e ↦ rw (e) refl
  | inr e ↦ rw (e) (any_append p xs ys)
]

-- A topic that is deleted, seen from any topic.
pub any_deleted :
    (topic x : Bytes) (topics : List Bytes)
    → any (λ t. t =ᵇ x) (filter (λ t. not (t =ᵇ topic)) topics)
      ≡ (if topic =ᵇ x then false else any (λ t. t =ᵇ x) topics)
any_deleted topic x [] = elim (Bool-cases (topic =ᵇ x)) [
  | inl e ↦ rw (e) refl
  | inr e ↦ rw (e) refl
]
any_deleted topic x (t ∷ ts) = elim (Bool-cases (t =ᵇ topic)) [
  | inl same ↦
      let e : (t =ᵇ x) ≡ (topic =ᵇ x) = ap (λ y. y =ᵇ x) (=ᵇ_sound t topic same) in
      rw (same, e) (any_deleted topic x ts ∙ once (topic =ᵇ x) (any (λ t. t =ᵇ x) ts))
  | inr other ↦ elim (Bool-cases (t =ᵇ x)) [
    | inr f ↦ rw (other, f) (any_deleted topic x ts)
    | inl e ↦
        let n : (topic =ᵇ x) ≡ false =
          =ᵇ_comm topic x ∙ ap (λ y. y =ᵇ topic) (sym (=ᵇ_sound t x e)) ∙ other in
        rw (other, e) (rw (n) refl)
  ]
]
  where
    once : (b c : Bool) → (if b then false else c) ≡ (if b then false else if b then true else c)
    once true c = refl
    once false c = refl

-- A topic that is written.
pub any_added :
    (topic x : Bytes) (topics : List Bytes)
    → any (λ t. t =ᵇ x) (topic ∷ filter (λ t. not (t =ᵇ topic)) topics)
      ≡ (any (λ t. t =ᵇ x) topics || topic =ᵇ x)
any_added topic x topics = elim (Bool-cases (topic =ᵇ x)) [
  | inl e ↦ rw (e) (or_true (any (λ t. t =ᵇ x) topics))
  | inr e ↦ rw (e) (any_deleted topic x topics ∙ rw (e) (or_false (any (λ t. t =ᵇ x) topics)))
]
  where
    or_true : (b : Bool) → true ≡ (b || true)
    or_true true = refl
    or_true false = refl

    or_false : (b : Bool) → b ≡ (b || false)
    or_false true = refl
    or_false false = refl

topic_of_inj : (a b : Bytes) → topic_of a ≡ topic_of b → a ≡ b
topic_of_inj a b e = append_cancel_right a b (codes "/updates_available") (
    append_cancel_left (codes "jobs/") (a ++ codes "/updates_available")
      (b ++ codes "/updates_available") (e))

pub subscribed_live : (p : Phase) → is_subscribed p ≡ true → is_live p ≡ true
subscribed_live starting e = refl
subscribed_live (waiting channel) e = refl
subscribed_live cleaned e = refl
subscribed_live unsubscribed e = cc
subscribed_live removed e = cc
subscribed_live silent e = cc

-- Without a goroutine for a job, none holds the topic of the job.
pub none_holds :
    (job : Bytes) (ts : List Timer)
    → All HasTopic ts
    → ¬ Mem job (live_jobs ts)
    → any (holds (topic_of job)) ts ≡ false
none_holds job [] h n = refl
none_holds job (t ∷ ts) h n = elim (Bool-cases (is_live t.phase)) [
  | inr over ↦
      let f : is_subscribed t.phase ≡ false = elim (Bool-cases (is_subscribed t.phase)) [
        | inl s ↦ let l : is_live t.phase ≡ true = subscribed_live t.phase s in cc
        | inr s ↦ s
      ] in
      rw (f) (none_holds job ts h.1 (rw (over) at n))
  | inl l ↦
      let n' : ¬ Mem job (t.job ∷ live_jobs ts) = rw (l) at n in
      let other : (t.topic =ᵇ topic_of job) ≡ false = elim (Bool-cases (t.topic =ᵇ topic_of job)) [
        | inr f ↦ f
        | inl e ↦
            let same : t.job ≡ job =
              topic_of_inj t.job job (sym h.0 ∙ =ᵇ_sound t.topic (topic_of job) e) in
            absurd (n' (subst (λ j. Mem j (t.job ∷ live_jobs ts)) same mem-cons_self))
      ] in
      let rest = none_holds job ts h.1 (λ m. n' (mem-cons_of_mem t.job m)) in
      elim (Bool-cases (is_subscribed t.phase)) [ inl s ↦ rw (s, other) rest | inr s ↦ rw (s) rest ]
]
