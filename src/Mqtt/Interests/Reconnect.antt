-- ===== src/Mqtt/Interests/Reconnect.antt =====
-- Which topics a new connection to the broker subscribes to, node-net-manager/mqtt/MqttJobUpdates.go and
-- MqttMainClient.go.
use mathlib.Core.List.{Nodup, Nodup-cons}
use mathlib.Core.List.Perm
use oakestra_net.Base.{
  ◌≡◌, ◌⊎◌, inl, inr, refl, sym, ap, ◌∙◌, subst, Bool, true, false, not, ◌||◌, Bool-cases, Option,
  some, List, [], ◌∷◌, ◌++◌, Mem, Bytes, ◌=ᵇ◌, =ᵇ_sound, any, filter, All, All-append, All_middle,
  if◌then◌else◌,
}
use oakestra_net.Utils.{exists}
use oakestra_net.Mqtt.Interests.{
  Surroundings, starting, Timer, Interests, mqtt_register_interest, new_interests, topic_of,
  node_topics, replaced, Step, registered, ticked, emitted, outside, Reaches, here, later,
}
use oakestra_net.Mqtt.Interests.Live.{live_jobs, live_jobs-live, is_live}
use oakestra_net.Mqtt.Interests.Topics.{
  is_subscribed, holds, HasTopic, any_append, any_deleted, any_added, none_holds, subscribed_live,
}
use oakestra_net.Mqtt.Interests.Handlers.{Reaches-IsKept}
use oakestra_net.Mqtt.Interests.Moves.{
  any-replaced, All_replaced, All_without, KeepsTopics, DropsTopic, Moves, timer_step-Moves,
}

-- Whether a topic is one of the node's own.
abbrev pub is_own : Bytes → Bytes → Bool
is_own client_id x = any (λ t. t =ᵇ x) (node_topics client_id)

is_own-topic_of : (client_id job : Bytes) → is_own client_id (topic_of job) ≡ false
unfolding ◌=ᵇ◌
is_own-topic_of client_id job = refl

swapped : (a b c : Bool) → ((a || b) || c) ≡ ((a || c) || b)
swapped true b c = refl
swapped false true true = refl
swapped false true false = refl
swapped false false true = refl
swapped false false false = refl

module _ (s : Surroundings) (client_id : Bytes) where
  open s use {World}

  -- The topics are the node's own and those of the goroutines that have not unsubscribed, seen from any
  -- topic.
  pub record IsSubscribed (i : Interests World) : Type 0 where
    pub named : All HasTopic i.timers
    pub subscribed :
        (x : Bytes) → any (λ t. t =ᵇ x) i.topics ≡ (any (holds x) i.timers || is_own client_id x)

  new_interests-IsSubscribed : (w : World) → IsSubscribed (new_interests s client_id w)
  new_interests-IsSubscribed w = record { named = tt; subscribed = λ x. refl }

  register-IsSubscribed :
      (job : Bytes) (i : Interests World)
      → IsSubscribed i
      → IsSubscribed (mqtt_register_interest s job i)
  unfolding mqtt_register_interest
  register-IsSubscribed job i v = elim (Bool-cases (exists ◌=ᵇ◌ i.running_handlers job)) [
    | inl e ↦ rw (e) (record { named = v.named; subscribed = v.subscribed })
    | inr e ↦ rw (e) (record {
      named = All-append HasTopic i.timers (_ ∷ []) v.named (refl, tt);
      subscribed = λ x.
          any_added (topic_of job) x i.topics
          ∙ ap (λ b. b || topic_of job =ᵇ x) (v.subscribed x)
          ∙ swapped (any (holds x) i.timers) (is_own client_id x) (topic_of job =ᵇ x)
          ∙ ap (λ b. b || is_own client_id x)
              (ap (λ b. any (holds x) i.timers || b) (last (topic_of job =ᵇ x))
                ∙ sym (
                    any_append (holds x) i.timers
                      (record { job = job; topic = topic_of job; phase = starting } ∷ [])));
    })
  ]
    where
      last : (b : Bool) → b ≡ (if b then true else false)
      last true = refl
      last false = refl

  -- With one goroutine for each job, the step that deletes a topic takes the last that holds it.
  dropped :
      (before rest : List Timer) (t : Timer) (topics : List Bytes) (x : Bytes)
      → All HasTopic (before ++ t ∷ rest)
      → ¬ Mem t.job (live_jobs (before ++ rest))
      → is_subscribed t.phase ≡ true
      → any (λ y. y =ᵇ x) topics ≡ (any (holds x) (before ++ t ∷ rest) || is_own client_id x)
      → any (λ y. y =ᵇ x) (filter (λ y. not (y =ᵇ t.topic)) topics)
        ≡ (any (holds x) (before ++ rest) || is_own client_id x)
  dropped before rest t topics x h n u e = elim (Bool-cases (t.topic =ᵇ x)) [
    | inl same ↦
        let own : t.topic ≡ topic_of t.job = All_middle HasTopic before rest t h in
        let none_left : any (holds x) (before ++ rest) ≡ false =
          subst (λ y. any (holds y) (before ++ rest) ≡ false) (sym own ∙ =ᵇ_sound t.topic x same)
            (none_holds t.job (before ++ rest) (All_without before rest t h) n) in
        let not_own : is_own client_id x ≡ false =
          subst (λ y. is_own client_id y ≡ false) (sym own ∙ =ᵇ_sound t.topic x same)
            (is_own-topic_of client_id t.job) in
        any_deleted t.topic x topics
        ∙ rw (same) (sym (ap (λ b. b || is_own client_id x) none_left ∙ not_own))
    | inr other ↦
        let f : holds x t ≡ false = rw (u) other in
        any_deleted t.topic x topics
        ∙ rw (other) (
            e
            ∙ ap (λ b. b || is_own client_id x)
                (any-replaced x before rest (some t)
                  ∙ rw (f) (sym (any_append (holds x) before rest))))
  ]

  ticked-IsSubscribed :
      (before rest : List Timer) (t : Timer) (o : Option Timer) (i i' : Interests World)
      → i.timers ≡ before ++ t ∷ rest
      → Nodup (live_jobs i.timers)
      → IsSubscribed i
      → KeepsTopics s i t (i', o) ⊎ DropsTopic s i t (i', o)
      → IsSubscribed (record i' { timers = replaced before o rest })
  ticked-IsSubscribed before rest t o i i' e d v (inl (same, h, k)) =
      let named : All HasTopic (before ++ t ∷ rest) = subst (λ ts. All HasTopic ts) e v.named in
      record {
        named = All_replaced before rest t o named (k (All_middle HasTopic before rest t named));
        subscribed = λ x.
            ap (λ ts. any (λ y. y =ᵇ x) ts) same
            ∙ v.subscribed x
            ∙ ap (λ b. b || is_own client_id x)
                (ap (λ ts. any (holds x) ts) e
                  ∙ any-replaced x before rest (some t)
                  ∙ ap (λ b. any (holds x) before || (b || any (holds x) rest)) (sym (h x))
                  ∙ sym (any-replaced x before rest o));
      }
  ticked-IsSubscribed before rest t o i i' e d v (inr (drops, h, u, k)) =
      let named : All HasTopic (before ++ t ∷ rest) = subst (λ ts. All HasTopic ts) e v.named in
      let live : is_live t.phase ≡ true = subscribed_live t.phase u in
      let alone : ¬ Mem t.job (live_jobs (before ++ rest)) =
        (Nodup-cons.0 (
          Perm.nodup (live_jobs-live before rest t live)
            (subst (λ ts. Nodup (live_jobs ts)) e d))).0 in
      record {
        named = All_replaced before rest t o named (k (All_middle HasTopic before rest t named));
        subscribed = λ x.
            ap (λ ts. any (λ y. y =ᵇ x) ts) drops
            ∙ dropped before rest t i.topics x named alone u
                (v.subscribed x ∙ ap (λ ts. any (holds x) ts || is_own client_id x) e)
            ∙ ap (λ b. b || is_own client_id x)
                (any_append (holds x) before rest
                  ∙ ap (λ b. any (holds x) before || (b || any (holds x) rest)) (sym (h x))
                  ∙ sym (any-replaced x before rest o));
      }

  Step-IsSubscribed :
      (i j : Interests World)
      → Nodup (live_jobs i.timers)
      → IsSubscribed i
      → Step s i j
      → IsSubscribed j
  Step-IsSubscribed _ _ d v (registered job i) = register-IsSubscribed job i v
  Step-IsSubscribed _ _ d v (ticked k before rest t o i i' e q) =
      ticked-IsSubscribed before rest t o i i' e d v
        (subst (λ r. Moves s i t r) q (timer_step-Moves s k t.job t.topic t.phase i))
  Step-IsSubscribed _ _ d v (emitted event events i q) = record {
    named = v.named;
    subscribed = v.subscribed;
  }
  Step-IsSubscribed _ _ d v (outside w i) = record { named = v.named; subscribed = v.subscribed }

  -- However the registrations, the steps of the goroutines and the events interleave: every goroutine
  -- has the topic of its own job, and a topic is on the list to which a new connection to the broker
  -- subscribes exactly when it is one of the two topics of the node, or a goroutine runs that has it
  -- and has not unsubscribed.
  pub Reaches-IsSubscribed :
      (w : World) (i : Interests World) → Reaches s (new_interests s client_id w) i → IsSubscribed i
  Reaches-IsSubscribed w _ (here _) = new_interests-IsSubscribed w
  Reaches-IsSubscribed w _ (later _ j k r t) =
      Step-IsSubscribed j k (Reaches-IsKept s client_id w j r).one_each (Reaches-IsSubscribed w j r)
        t
