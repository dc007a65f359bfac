-- ===== src/Tests/InterestRuns.antt =====
-- A node that registers an interest in a job and starts to wait for events.
use oakestra_net.Base.{ℕ, ◌+◌, ◌≡◌, refl, false, some, [], ◌∷◌, Bytes, codes, returns}
use oakestra_net.Utils.{exists, find_from}
use oakestra_net.Events
use oakestra_net.Events.{Events, table_query, new_events}
use oakestra_net.Mqtt.Interests.{
  Surroundings, Timer, Interests, starting, waiting, event_received, timer_step,
  mqtt_register_interest, new_interests, topic_of, Reaches, here, later, registered, ticked,
}
use oakestra_net.Mqtt.Interests.Handlers.{IsKept, Reaches-IsKept}
use oakestra_net.Mqtt.Interests.Reconnect.{IsSubscribed, Reaches-IsSubscribed}

abbrev surroundings : Surroundings
surroundings = record {
  World = ℕ;
  subscribe = λ t w. w + 1;
  unsubscribe = λ t w. w + 1;
  publish = λ t j w. w + 1;
  is_service_deployed = λ j w. false;
  remove_service_entries = λ j w. w + 1;
}

abbrev job : Bytes
job = codes "a.b.c.d"

abbrev started : Interests ℕ
started = mqtt_register_interest surroundings job (new_interests surroundings (codes "w1") 0)

abbrev fresh_timer : Timer
fresh_timer = record { job = job; topic = topic_of job; phase = starting }

abbrev registered_events : Events
registered_events = (Events.register new_events table_query job).0

abbrev listening : Timer
listening = record fresh_timer { phase = waiting (Events.register new_events table_query job).1 }

started_timers : started.timers ≡ fresh_timer ∷ []
unfolding mqtt_register_interest exists find_from
started_timers = refl

started_step :
    timer_step surroundings event_received fresh_timer starting started
    ≡ returns (record started { events = registered_events }, some listening)
unfolding mqtt_register_interest exists find_from timer_step Events.register
started_step = refl

abbrev waits : Interests ℕ
waits = record started { events = registered_events; timers = listening ∷ [] }

waits-Reaches : Reaches surroundings (new_interests surroundings (codes "w1") 0) waits
waits-Reaches =
    later (new_interests surroundings (codes "w1") 0) started waits
      (later (new_interests surroundings (codes "w1") 0) (new_interests surroundings (codes "w1") 0)
        started (here (new_interests surroundings (codes "w1") 0))
        (registered job (new_interests surroundings (codes "w1") 0)))
      (ticked event_received [] [] fresh_timer (some listening) started
        (record started { events = registered_events }) started_timers started_step)

Reaches-IsKept_example : IsKept surroundings waits
Reaches-IsKept_example = Reaches-IsKept surroundings (codes "w1") 0 waits waits-Reaches

Reaches-IsSubscribed_example : IsSubscribed surroundings (codes "w1") waits
Reaches-IsSubscribed_example = Reaches-IsSubscribed surroundings (codes "w1") 0 waits waits-Reaches
