-- ===== src/Events.antt =====
-- node-net-manager/events/EventManager.go: one channel of events for each target of a table query.
-- The methods hold one lock, so each is one step. A channel is a shared object that its receivers keep,
-- and is a number here; `channels` is what each of them holds.
pub mod Channels
use oakestra_net.Base.{
  ℕ, ◌+◌, Bool, true, false, Option, none, some, List, [], ◌∷◌, ◌++◌, Bytes, length, ltb, ◌==◌,
  ◌=ᵇ◌, if◌then◌else◌, Outcome, returns, panic,
}

-- `EventType` is an integer, and `TableQuery` is the one that has a name.
pub data EventType : Type 0 where
  table_query : EventType
  other : ℕ → EventType

pub record Event : Type 0 where
  pub event_type : EventType
  pub event_target : Bytes
  pub event_message : Bytes

-- A channel that `make(chan Event, 10)` made: its capacity is 10.
pub record Channel : Type 0 where
  pub buffer : List Event
  pub closed : Bool

-- `none` is the nil channel, also that of a target the map does not have.
pub record Events : Type 0 where
  pub queue : Bytes → Option ℕ
  pub channels : ℕ → Channel
  pub made : ℕ

abbrev pub new_events : Events
new_events = record {
  queue = λ target. none;
  channels = λ i. record { buffer = []; closed = false };
  made = 0;
}

abbrev pub set_channel : Events → ℕ → Channel → Events
set_channel e i c = record e { channels = λ j. if j == i then c else e.channels j }

abbrev pub set_queue : Events → Bytes → Option ℕ → Events
set_queue e target i = record e { queue = λ k. if k =ᵇ target then i else e.queue k }

-- `channel <- event` after the test of the length; a send on a closed channel panics.
abbrev pub send : Events → ℕ → Event → Outcome Events
send e i event =
    if ltb (length (e.channels i).buffer) 10
    then if (e.channels i).closed
      then panic
      else returns
          (set_channel e i (record (e.channels i) { buffer = (e.channels i).buffer ++ event ∷ [] }))
    else returns e

unfoldable pub emit_to : Events → Event → EventType → Outcome Events
emit_to e event table_query = elim (e.queue event.event_target) [
  | none ↦ returns e
  | some i ↦ send e i event
]
emit_to e event (other n) = returns e

abbrev pub emit : Events → Event → Outcome Events
emit e event = emit_to e event event.event_type

-- The channel that `Register` returns, or `none` for the error.
unfoldable pub register : Events → EventType → Bytes → Events × Option ℕ
register e table_query target = elim (e.queue target) [
  | some i ↦ (set_queue e target (some i), some i)
  | none ↦ (
    set_queue
        (record (set_channel e e.made (record { buffer = []; closed = false })) {
          made = e.made + 1;
        })
        target (some e.made),
    some e.made,
  )
]
register e (other n) target = (e, none)

-- Closing a closed channel panics.
unfoldable pub de_register : Events → EventType → Bytes → Outcome Events
de_register e table_query target = elim (e.queue target) [
  | none ↦ returns e
  | some i ↦
      if (e.channels i).closed
      then panic
      else returns
          (set_channel (set_queue e target none) i (record (e.channels i) { closed = true }))
]
de_register e (other n) target = returns e

-- A receiver takes the first event of its channel, if there is one.
unfoldable pub receive : Events → ℕ → Events × Option Event
receive e i = elim (e.channels i).buffer [
  | [] ↦ (e, none)
  | event ∷ rest ↦ (set_channel e i (record (e.channels i) { buffer = rest }), some event)
]
