-- ===== src/Events/Channels.antt =====
-- The channels of the event manager: those that are registered are open, and none is over its capacity.
use oakestra_net.Base.{
  ℕ, ◌≤◌, ◌<◌, ◌≡◌, inl, inr, refl, sym, ap, false, Bool-cases, Option-cases, some, List, [], ◌∷◌,
  ◌++◌, Bytes, length, length-append, =ᵇ_sound, =ᵇ_complete, ltb, ◌==◌, arith, Outcome, returns,
  panic, ◌>>=◌, List-cases,
}
use oakestra_net.Events.{
  EventType, table_query, other, Event, Channel, Events, emit, emit_to, receive, new_events,
  register, de_register, set_channel, send,
}

-- Each registered channel was made, is open and has room or is full; two targets have two channels.
pub record IsValid (e : Events) : Type 0 where
  pub known : (k : Bytes) (i : ℕ) → e.queue k ≡ some i → i < e.made
  pub is_open : (k : Bytes) (i : ℕ) → e.queue k ≡ some i → (e.channels i).closed ≡ false
  pub bounded : (i : ℕ) → length (e.channels i).buffer ≤ 10
  pub own : (k l : Bytes) (i : ℕ) → e.queue k ≡ some i → e.queue l ≡ some i → k ≡ l

-- The call returns a valid manager, without a panic.
abbrev pub ReturnsValid : Outcome Events → Type 0
ReturnsValid (returns e) = IsValid e
ReturnsValid panic = ⊥

-- A registered channel changes its contents.
set_channel-IsValid :
    (e : Events) (i : ℕ) (c : Channel)
    → IsValid e
    → c.closed ≡ (e.channels i).closed
    → length c.buffer ≤ 10
    → IsValid (set_channel e i c)
set_channel-IsValid e i c v h k = record {
  known = v.known;
  is_open = λ l j q. ground (arith, v.is_open l j, h);
  bounded = λ j. elim (Bool-cases (j == i)) [ inl t ↦ rw (t) k | inr f ↦ rw (f) (v.bounded j) ];
  own = v.own;
}

emit_to-ReturnsValid :
    (e : Events) (event : Event) (t : EventType) → IsValid e → ReturnsValid (emit_to e event t)
unfolding emit_to
emit_to-ReturnsValid e event (other n) v = v
emit_to-ReturnsValid e event table_query v = elim (Option-cases (e.queue event.event_target)) [
  | inl q ↦ rw (q, emit_to) v
  | inr (i, q) ↦ rw (q, emit_to) (sent i (v.is_open event.event_target i q))
]
  where
    sent : (i : ℕ) → (e.channels i).closed ≡ false → ReturnsValid (send e i event)
    sent i h = elim (Bool-cases (ltb (length (e.channels i).buffer) 10)) [
      | inr f ↦ rw (f) v
      | inl t ↦
          let room : length ((e.channels i).buffer ++ event ∷ []) ≤ 10 =
            ground (arith, length-append (e.channels i).buffer (event ∷ []), t) in
          rw (t, h) (set_channel-IsValid e i _ v (sym h) room)
    ]

register-IsValid :
    (e : Events) (t : EventType) (target : Bytes) → IsValid e → IsValid (register e t target).0
unfolding register
register-IsValid e (other n) target v = v
register-IsValid e table_query target v = elim (Option-cases (e.queue target)) [
  | inr (i, q) ↦
      rw (q, register)
        (record {
          known = λ k j h. ground (arith, v.known k j, v.known target j, =ᵇ_sound k target);
          is_open = λ k j h. ground (arith, v.is_open k j, v.is_open target j, =ᵇ_sound k target);
          bounded = v.bounded;
          own = λ k l j h g. ground (
            arith,
            v.own k l j,
            v.own k target j,
            v.own target l j,
            =ᵇ_sound k target,
            =ᵇ_sound l target,
          );
        })
  | inl q ↦
      rw (q, register)
        (record {
          known = λ k j h. ground (arith, v.known k j);
          is_open = λ k j h. ground (arith, v.is_open k j);
          bounded = λ j. ground (arith, v.bounded j);
          own = λ k l j h g.
              ground (
                arith,
                v.own k l j,
                v.known k j,
                v.known l j,
                =ᵇ_sound k target,
                =ᵇ_sound l target,
              );
        })
]

de_register-ReturnsValid :
    (e : Events) (t : EventType) (target : Bytes)
    → IsValid e
    → ReturnsValid (de_register e t target)
unfolding de_register
de_register-ReturnsValid e (other n) target v = v
de_register-ReturnsValid e table_query target v = elim (Option-cases (e.queue target)) [
  | inl q ↦ rw (q, de_register) v
  | inr (i, q) ↦
      rw (q, de_register)
        (rw (v.is_open target i q) (record {
          known = λ k j h. ground (arith, v.known k j);
          is_open = λ k j h. ground (arith, v.is_open k j, v.own k target j, =ᵇ_complete k target);
          bounded = λ j. ground (arith, v.bounded j, v.bounded i);
          own = λ k l j h g. ground (arith, v.own k l j);
        }))
]

receive-IsValid : (e : Events) (i : ℕ) → IsValid e → IsValid (receive e i).0
unfolding receive
receive-IsValid e i v = elim (List-cases (e.channels i).buffer) [
  | inl q ↦ rw (q, receive) v
  | inr (event, rest, q) ↦
      let fits : length rest ≤ 10 = omega (arith, v.bounded i, ap length q) in
      rw (q, receive) (set_channel-IsValid e i _ v refl fits)
]

-- The calls of the manager, and a receiver's.
pub data Call : Type 0 where
  emit_call : Event → Call
  register_call de_register_call : EventType → Bytes → Call
  receive_call : ℕ → Call

abbrev pub call : Call → Events → Outcome Events
call (emit_call event) e = emit e event
call (register_call t target) e = returns (register e t target).0
call (de_register_call t target) e = de_register e t target
call (receive_call i) e = returns (receive e i).0

unfoldable pub run : List Call → Events → Outcome Events
run [] e = returns e
run (c ∷ cs) e = call c e >>= λ e'. run cs e'

pub call-ReturnsValid : (c : Call) (e : Events) → IsValid e → ReturnsValid (call c e)
call-ReturnsValid (emit_call event) e v = emit_to-ReturnsValid e event event.event_type v
call-ReturnsValid (register_call t target) e v = register-IsValid e t target v
call-ReturnsValid (de_register_call t target) e v = de_register-ReturnsValid e t target v
call-ReturnsValid (receive_call i) e v = receive-IsValid e i v

returned :
    (f : Events → Outcome Events)
    → ((e : Events) → IsValid e → ReturnsValid (f e))
    → (o : Outcome Events) → ReturnsValid o
    → ReturnsValid (o >>= f)
returned f h (returns e) v = h e v
returned f h panic v = v

-- From a valid manager, calls of `Emit`, `Register` and `DeRegister` and receptions in any order
-- return: none sends on a closed channel or closes one twice. Every registered channel stays open,
-- every channel holds at most the 10 events of its capacity, so that `Emit` never waits, and two
-- targets never share a channel.
pub run-ReturnsValid : (cs : List Call) (e : Events) → IsValid e → ReturnsValid (run cs e)
unfolding run
run-ReturnsValid [] e v = v
run-ReturnsValid (c ∷ cs) e v =
    returned (run cs) (run-ReturnsValid cs) (call c e) (call-ReturnsValid c e v)

pub new_events-IsValid : IsValid new_events
new_events-IsValid = record {
  known = λ k i h. cc;
  is_open = λ k i h. refl;
  bounded = λ i. omega arith;
  own = λ k l i h g. cc;
}
