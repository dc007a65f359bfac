-- ===== src/Mqtt/Interests/Handlers.antt =====
-- The jobs with a registered interest and the goroutines that run for them.
use mathlib.Core.List.{Nodup, Nodup-cons, mem-cons_self}
use mathlib.Core.List.Pairwise
use mathlib.Core.List.Perm
use oakestra_net.Base.{
  ◌≡◌, ◌↔◌, inl, inr, refl, sym, ap, ◌∙◌, subst, true, false, Bool-cases, Option, List, [], ◌∷◌,
  ◌++◌, Mem, Perm, Bytes, ◌=ᵇ◌, =ᵇ_sound, =ᵇ_refl, perm_snoc, append-nil, Outcome, returns, panic,
}
use oakestra_net.Utils.{Slice, exists, remove_elem}
use oakestra_net.Utils.Slices.{remove_elem_cases, exists_iff}
use oakestra_net.Events.{Events}
use oakestra_net.Events.Channels.{
  ReturnsValid, call-ReturnsValid, emit_call, register_call, de_register_call, receive_call,
  new_events-IsValid,
}
use oakestra_net.Events.Channels
use oakestra_net.Mqtt.Interests.{
  Surroundings, starting, Timer, Interests, Wake, timer_step, mqtt_register_interest,
  mqtt_is_interest_registered, new_interests, topic_of, replaced, Step, registered, ticked, emitted,
  outside, Reaches, here, later,
}
use oakestra_net.Mqtt.Interests.Live.{
  live_jobs, live_jobs-live, live_jobs-over, live_jobs-replaced, live_jobs-replaced_not,
}
use oakestra_net.Mqtt.Interests.Effects.{
  Effect, keeps_job, stays_over, gives_up, timer_step-HasStepped,
}

module _ (s : Surroundings) where
  open s use {World}

  pub record IsValid (i : Interests World) : Type 0 where
    pub running : Perm i.running_handlers.elements (live_jobs i.timers)
    pub once : Nodup i.running_handlers.elements
    pub events : Channels.IsValid i.events

  new_interests-IsValid : (client_id : Bytes) (w : World) → IsValid (new_interests s client_id w)
  new_interests-IsValid client_id w = record {
    running = Perm.nil;
    once = Pairwise.nil;
    events = new_events-IsValid;
  }

  snoc-Nodup : (xs : List Bytes) (x : Bytes) → ¬ Mem x xs → Nodup xs → Nodup (xs ++ x ∷ [])
  snoc-Nodup xs x n d = Perm.nodup (Perm.symm (perm_snoc xs x)) (Nodup-cons.1 (n, d))

  register-IsValid :
      (job : Bytes) (i : Interests World) → IsValid i → IsValid (mqtt_register_interest s job i)
  unfolding mqtt_register_interest
  register-IsValid job i v = elim (Bool-cases (exists ◌=ᵇ◌ i.running_handlers job)) [
    | inl e ↦ rw (e) (record { running = v.running; once = v.once; events = v.events })
    | inr e ↦ rw (e) (record {
      running =
          Perm.trans (perm_snoc i.running_handlers.elements job)
            (Perm.trans (Perm.cons job v.running) (Perm.symm (grown i.timers)));
      once =
          snoc-Nodup i.running_handlers.elements job
            (λ m.
              false-true (sym e ∙ (exists_iff ◌=ᵇ◌ =ᵇ_sound =ᵇ_refl i.running_handlers job).1 m))
            v.once;
      events = v.events;
    })
  ]
    where
      false-true : false ≡ true → ⊥
      false-true e = cc

      grown :
          (ts : List Timer)
          → Perm
              (live_jobs (ts ++ record { job = job; topic = topic_of job; phase = starting } ∷ []))
              (job ∷ live_jobs ts)
      grown ts =
          subst
            (λ us.
              Perm
                (live_jobs
                  (ts ++ record { job = job; topic = topic_of job; phase = starting } ∷ []))
                (job ∷ live_jobs us))
            (append-nil ts)
            (live_jobs-live ts [] (record { job = job; topic = topic_of job; phase = starting })
              refl)

  ticked-IsValid :
      (before rest : List Timer) (t : Timer) (o : Option Timer) (i i' : Interests World)
      → i.timers ≡ before ++ t ∷ rest
      → IsValid i
      → Channels.IsValid i'.events
      → Effect s i t i' o
      → IsValid (record i' { timers = replaced before o rest })
  ticked-IsValid before rest t _ i _ e v u (keeps_job i' o r l c) =
      let same : i'.running_handlers.elements ≡ i.running_handlers.elements =
        ap (λ x. x.elements) r in
      let p : Perm i.running_handlers.elements (t.job ∷ live_jobs (before ++ rest)) =
        Perm.trans (subst (λ ts. Perm i.running_handlers.elements (live_jobs ts)) e v.running)
          (live_jobs-live before rest t l) in
      record {
        running =
            subst (λ x. Perm x (live_jobs (replaced before o rest))) (sym same)
              (Perm.trans p (Perm.symm (live_jobs-replaced before rest o t.job c)));
        once = subst (λ x. Nodup x) (sym same) v.once;
        events = u;
      }
  ticked-IsValid before rest t _ i _ e v u (stays_over i' o r l c) =
      let same : i'.running_handlers.elements ≡ i.running_handlers.elements =
        ap (λ x. x.elements) r in
      let q : live_jobs i.timers ≡ live_jobs (replaced before o rest) =
        ap live_jobs e
        ∙ live_jobs-over before rest t l
        ∙ sym (live_jobs-replaced_not before rest o c) in
      record {
        running =
            subst (λ x. Perm x (live_jobs (replaced before o rest))) (sym same)
              (subst (λ x. Perm i.running_handlers.elements x) q v.running);
        once = subst (λ x. Nodup x) (sym same) v.once;
        events = u;
      }
  ticked-IsValid before rest t _ i _ e v u (gives_up i' o r l c) =
      let same : (remove_elem ◌=ᵇ◌ i.running_handlers t.job).elements
          ≡ i'.running_handlers.elements =
        ap (λ x. x.elements) (sym r) in
      let p : Perm i.running_handlers.elements (t.job ∷ live_jobs (before ++ rest)) =
        Perm.trans (subst (λ ts. Perm i.running_handlers.elements (live_jobs ts)) e v.running)
          (live_jobs-live before rest t l) in
      let q =
        subst (λ x. Perm i.running_handlers.elements (t.job ∷ x)) same
          (removed_one i.running_handlers t.job ((Perm.mem_iff p).1 mem-cons_self)) in
      record {
        running =
            subst (λ x. Perm i'.running_handlers.elements x)
              (sym (live_jobs-replaced_not before rest o c))
              (Perm.cons_inv (Perm.trans (Perm.symm q) p));
        once = (Nodup-cons.0 (Perm.nodup q v.once)).1;
        events = u;
      }
    where
      false-true : false ≡ true → ⊥
      false-true e = cc

      removed_one :
          (r : Slice Bytes) (job : Bytes)
          → Mem job r.elements
          → Perm r.elements (job ∷ (remove_elem ◌=ᵇ◌ r job).elements)
      removed_one r job m = elim (remove_elem_cases ◌=ᵇ◌ =ᵇ_sound r job) [
        | inl (a, b) ↦ absurd (false-true (sym a ∙ (exists_iff ◌=ᵇ◌ =ᵇ_sound =ᵇ_refl r job).1 m))
        | inr (a, p) ↦ p
      ]

  ReturnsValid-returns :
      (e : Events) (o : Outcome Events) → o ≡ returns e → ReturnsValid o → Channels.IsValid e
  ReturnsValid-returns e o q v = subst ReturnsValid q v

  abbrev value :
      Interests World × Option Timer
      → Outcome (Interests World × Option Timer)
      → Interests World × Option Timer
  value d (returns r) = r
  value d panic = d

  Step-IsValid : (i j : Interests World) → IsValid i → Step s i j → IsValid j
  Step-IsValid _ _ v (registered job i) = register-IsValid job i v
  Step-IsValid _ _ v (ticked k before rest t o i i' e q) =
      let (i'', o', q', u, h) = timer_step-HasStepped s k t.job t.topic t.phase i v.events in
      let (u', h') : Channels.IsValid i'.events × Effect s i t i' o =
        subst (λ x. Channels.IsValid x.0.events × Effect s i t x.0 x.1)
          (ap (value (i', o)) (sym q' ∙ q)) (u, h) in
      ticked-IsValid before rest t o i i' e v u' h'
  Step-IsValid _ _ v (emitted event events i q) = record {
    running = v.running;
    once = v.once;
    events =
        ReturnsValid-returns events _ q (call-ReturnsValid (emit_call event) i.events v.events);
  }
  Step-IsValid _ _ v (outside w i) = record {
    running = v.running;
    once = v.once;
    events = v.events;
  }

  Reaches-IsValid : (i j : Interests World) → Reaches s i j → IsValid i → IsValid j
  Reaches-IsValid _ _ (here i) v = v
  Reaches-IsValid _ _ (later i j k r t) v = Step-IsValid j k (Reaches-IsValid i j r v) t

  -- The goroutines that have not taken their job off `runningHandlers`, the answer to whether a job is
  -- registered, and the next step of a goroutine. One that has taken its job off still deregisters its
  -- events and removes the entries of the job, and may do so beside a new one for the job.
  pub record IsKept (i : Interests World) : Type 0 where
    pub one_each : Nodup (live_jobs i.timers)
    pub told :
        (job : Bytes) → (mqtt_is_interest_registered s job i ≡ true) ↔ Mem job (live_jobs i.timers)
    pub proceeds :
        (k : Wake) (t : Timer)
        → (i' : Interests World) × (o : Option Timer) × (timer_step s k t t.phase i
            ≡ returns (i', o))

  -- From the start, with calls of `MqttRegisterInterest`, steps of the goroutines, events of the proxy
  -- and changes of the rest in any order: of the goroutines that have not yet taken their job off
  -- `runningHandlers`, no two have the same job; `MqttIsInterestRegistered` tells whether there is
  -- such a goroutine for a job; and no goroutine panics in its next step.
  pub Reaches-IsKept :
      (client_id : Bytes) (w : World) (i : Interests World)
      → Reaches s (new_interests s client_id w) i
      → IsKept i
  Reaches-IsKept client_id w i r =
      let v =
        Reaches-IsValid (new_interests s client_id w) i r (new_interests-IsValid client_id w) in
      record {
        one_each = Perm.nodup v.running v.once;
        told = λ job. (
          λ h.
              (Perm.mem_iff v.running).0
                ((exists_iff ◌=ᵇ◌ =ᵇ_sound =ᵇ_refl i.running_handlers job).0 h),
          λ m.
              (exists_iff ◌=ᵇ◌ =ᵇ_sound =ᵇ_refl i.running_handlers job).1
                ((Perm.mem_iff v.running).1 m),
        );
        proceeds = λ k t.
            let (i', o, q, u, h) = timer_step-HasStepped s k t.job t.topic t.phase i v.events in
            (i', o, q);
      }
