-- ===== src/Mqtt/Interests/Moves.antt =====
-- What a step of a goroutine of node-net-manager/mqtt/MqttJobUpdates.go does to the topics of the client.
use oakestra_net.Base.{
  ℕ, ◌≡◌, ◌⊎◌, inl, inr, refl, ap, ◌∙◌, Bool, true, false, not, ◌||◌, Bool-cases, Option, none,
  some, List, [], ◌∷◌, ◌++◌, Bytes, ◌=ᵇ◌, any, filter, All, if◌then◌else◌, Outcome, returns, panic,
  ◌>>=◌,
}
use oakestra_net.Events.{Events, table_query, de_register}
use oakestra_net.Mqtt.Interests.{
  Surroundings, Phase, starting, waiting, cleaned, unsubscribed, removed, silent, Timer, Interests,
  Wake, event_received, time_out, wait_step, timer_step, replaced,
}
use oakestra_net.Mqtt.Interests.Topics.{is_subscribed, holds, HasTopic, any_append}

abbrev pub holds_after : Bytes → Option Timer → Bool
holds_after x none = false
holds_after x (some t) = holds x t

abbrev pub HasTopicAfter : Option Timer → Type 0
HasTopicAfter none = Unit
HasTopicAfter (some t) = HasTopic t

pub any-replaced :
    (x : Bytes) (before rest : List Timer) (o : Option Timer)
    → any (holds x) (replaced before o rest)
      ≡ (any (holds x) before || (holds_after x o || any (holds x) rest))
any-replaced x before rest none = any_append (holds x) before rest
any-replaced x before rest (some t) =
    any_append (holds x) before (t ∷ rest)
    ∙ ap (λ b. any (holds x) before || b) (first (holds x t) (any (holds x) rest))
  where
    first : (b c : Bool) → (if b then true else c) ≡ (b || c)
    first true c = refl
    first false c = refl

pub All_replaced :
    (before rest : List Timer) (t : Timer) (o : Option Timer)
    → All HasTopic (before ++ t ∷ rest)
    → HasTopicAfter o
    → All HasTopic (replaced before o rest)
All_replaced [] rest t none h k = h.1
All_replaced [] rest t (some t') h k = (k, h.1)
All_replaced (b ∷ before) rest t none h k = (h.0, All_replaced before rest t none h.1 k)
All_replaced (b ∷ before) rest t (some t') h k = (h.0, All_replaced before rest t (some t') h.1 k)

pub All_without :
    (before rest : List Timer) (t : Timer)
    → All HasTopic (before ++ t ∷ rest)
    → All HasTopic (before ++ rest)
All_without before rest t h = All_replaced before rest t none h tt

module _ (s : Surroundings) where
  open s use {World}

  -- What a step of a goroutine does to the topics.
  abbrev pub KeepsTopics : Interests World → Timer → Interests World × Option Timer → Type 0
  KeepsTopics i t r =
      (r.0.topics ≡ i.topics)
      × ((x : Bytes) → holds_after x r.1 ≡ holds x t)
      × (HasTopic t → HasTopicAfter r.1)

  abbrev pub DropsTopic : Interests World → Timer → Interests World × Option Timer → Type 0
  DropsTopic i t r =
      (r.0.topics ≡ filter (λ y. not (y =ᵇ t.topic)) i.topics)
      × ((x : Bytes) → holds_after x r.1 ≡ false)
      × (is_subscribed t.phase ≡ true)
      × (HasTopic t → HasTopicAfter r.1)

  abbrev pub Moves : Interests World → Timer → Outcome (Interests World × Option Timer) → Type 0
  Moves i t (returns r) = KeepsTopics i t r ⊎ DropsTopic i t r
  Moves i t panic = Unit

  wait_step-Moves :
      (k : Wake) (job topic : Bytes) (channel : Option ℕ) (i : Interests World)
      → let t : Timer = record { job = job; topic = topic; phase = waiting channel } in
        Moves i t (timer_step s k t (waiting channel) i)
  unfolding timer_step wait_step
  wait_step-Moves event_received job topic none i = inl (refl, λ x. refl, λ h. h)
  wait_step-Moves event_received job topic (some c) i = inl (refl, λ x. refl, λ h. h)
  wait_step-Moves time_out job topic channel i =
      elim (Bool-cases (s.is_service_deployed job i.world)) [
        | inl d ↦ rw (d, timer_step, wait_step) (inl (refl, λ x. refl, λ h. h))
        | inr d ↦ rw (d, timer_step, wait_step) (inl (refl, λ x. refl, λ h. h))
      ]

  after_events :
      (t : Timer) (p : Phase) (i : Interests World) (o : Outcome Events)
      → is_subscribed t.phase ≡ false
      → is_subscribed p ≡ false
      → Moves i t
          (o >>= λ events. returns (record i { events = events }, some (record t { phase = p })))
  after_events t p i (returns events) e f = inl (refl, λ x. rw (e, f) refl, λ h. h)
  after_events t p i panic e f = tt

  pub timer_step-Moves :
      (k : Wake) (job topic : Bytes) (p : Phase) (i : Interests World)
      → let t : Timer = record { job = job; topic = topic; phase = p } in
        Moves i t (timer_step s k t p i)
  unfolding timer_step
  timer_step-Moves k job topic starting i = inl (refl, λ x. refl, λ h. h)
  timer_step-Moves k job topic (waiting channel) i = wait_step-Moves k job topic channel i
  timer_step-Moves k job topic cleaned i = inr (refl, λ x. refl, refl, λ h. h)
  timer_step-Moves k job topic unsubscribed i = inl (refl, λ x. refl, λ h. h)
  timer_step-Moves k job topic removed i =
      after_events (record { job = job; topic = topic; phase = removed }) silent i
        (de_register i.events table_query job) refl refl
  timer_step-Moves k job topic silent i = inl (refl, λ x. refl, λ h. tt)
