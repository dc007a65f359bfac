-- ===== src/Mqtt/Interests/Effects.antt =====
-- What one step of a goroutine of node-net-manager/mqtt/MqttJobUpdates.go does.
use oakestra_net.Base.{
  ℕ, ◌≡◌, inl, inr, refl, true, false, Bool-cases, Option, none, some, Bytes, ◌=ᵇ◌, Outcome,
  returns, panic,
}
use oakestra_net.Utils.{remove_elem}
use oakestra_net.Events
use oakestra_net.Events.{Events, Event, table_query, emit, de_register}
use oakestra_net.Events.Channels.{
  ReturnsValid, call-ReturnsValid, emit_call, register_call, de_register_call, receive_call,
  new_events-IsValid,
}
use oakestra_net.Events.Channels
use oakestra_net.Mqtt.Interests.{
  Surroundings, Phase, starting, waiting, cleaned, unsubscribed, removed, silent, Timer, Interests,
  Wake, event_received, time_out, wait_step, timer_step, clean_interest_towards_job,
  de_register_topic,
}
use oakestra_net.Mqtt.Interests.Live.{is_live, CountsFor, CountsNot}

module _ (s : Surroundings) where
  open s use {World}

  -- What a step of a goroutine does to the jobs that run.
  pub data Effect (i : Interests World) (t : Timer) : Interests World → Option Timer → Type 0 where
    keeps_job :
        (i' : Interests World) (o : Option Timer)
        → i'.running_handlers ≡ i.running_handlers
        → is_live t.phase ≡ true
        → CountsFor o t.job
        → Effect i t i' o
    stays_over :
        (i' : Interests World) (o : Option Timer)
        → i'.running_handlers ≡ i.running_handlers
        → is_live t.phase ≡ false
        → CountsNot o
        → Effect i t i' o
    gives_up :
        (i' : Interests World) (o : Option Timer)
        → i'.running_handlers ≡ remove_elem ◌=ᵇ◌ i.running_handlers t.job
        → is_live t.phase ≡ true
        → CountsNot o
        → Effect i t i' o

  abbrev pub HasStepped : Wake → Timer → Interests World → Type 0
  HasStepped k t i =
      (i' : Interests World) × (o : Option Timer) × (timer_step s k t t.phase i ≡ returns (i', o))
      × Channels.IsValid i'.events
      × Effect i t i' o

  wait_step-HasStepped :
      (k : Wake) (job topic : Bytes) (channel : Option ℕ) (i : Interests World)
      → Channels.IsValid i.events
      → HasStepped k (record { job = job; topic = topic; phase = waiting channel }) i
  unfolding timer_step wait_step
  wait_step-HasStepped event_received job topic none i v = (
    i,
    some (record { job = job; topic = topic; phase = waiting none }),
    refl,
    v,
    keeps_job _ _ refl refl (refl, refl),
  )
  wait_step-HasStepped event_received job topic (some c) i v = (
    _,
    some (record { job = job; topic = topic; phase = waiting (some c) }),
    refl,
    call-ReturnsValid (receive_call c) i.events v,
    keeps_job _ _ refl refl (refl, refl),
  )
  wait_step-HasStepped time_out job topic channel i v =
      elim (Bool-cases (s.is_service_deployed job i.world)) [
        | inl d ↦ (
          i,
          some (record { job = job; topic = topic; phase = waiting channel }),
          rw (d, timer_step, wait_step) refl,
          v,
          keeps_job _ _ refl refl (refl, refl),
        )
        | inr d ↦ (
          clean_interest_towards_job s job i,
          some (record { job = job; topic = topic; phase = cleaned }),
          rw (d, timer_step, wait_step) refl,
          v,
          keeps_job _ _ refl refl (refl, refl),
        )
      ]

  returned :
      (o : Outcome Events) → ReturnsValid o → (e : Events) × (o ≡ returns e) × Channels.IsValid e
  returned (returns e) v = (e, refl, v)
  returned panic v = elim v [ ]

  pub timer_step-HasStepped :
      (k : Wake) (job topic : Bytes) (p : Phase) (i : Interests World)
      → Channels.IsValid i.events
      → HasStepped k (record { job = job; topic = topic; phase = p }) i
  unfolding timer_step
  timer_step-HasStepped k job topic starting i v = (
    _,
    some (record {
      job = job;
      topic = topic;
      phase = waiting (Events.register i.events table_query job).1;
    }),
    refl,
    call-ReturnsValid (register_call table_query job) i.events v,
    keeps_job _ _ refl refl (refl, refl),
  )
  timer_step-HasStepped k job topic (waiting channel) i v =
      wait_step-HasStepped k job topic channel i v
  timer_step-HasStepped k job topic cleaned i v = (
    de_register_topic s topic i,
    some (record { job = job; topic = topic; phase = unsubscribed }),
    refl,
    v,
    keeps_job _ _ refl refl (refl, refl),
  )
  timer_step-HasStepped k job topic unsubscribed i v = (
    record i { running_handlers = remove_elem ◌=ᵇ◌ i.running_handlers job },
    some (record { job = job; topic = topic; phase = removed }),
    refl,
    v,
    gives_up _ _ refl refl refl,
  )
  timer_step-HasStepped k job topic removed i v =
      let (e, q, u) =
        returned _ (call-ReturnsValid (de_register_call table_query job) i.events v) in
      (
        record i { events = e },
        some (record { job = job; topic = topic; phase = silent }),
        rw (q) refl,
        u,
        stays_over _ _ refl refl refl,
      )
  timer_step-HasStepped k job topic silent i v = (
    record i { world = s.remove_service_entries job i.world },
    none,
    refl,
    v,
    stays_over _ _ refl refl tt,
  )
