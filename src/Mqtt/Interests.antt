-- ===== src/Mqtt/Interests.antt =====
-- node-net-manager/mqtt/MqttJobUpdates.go, with RegisterTopic and DeRegisterTopic of MqttMainClient.go:
-- the interest of a node in a job, and the goroutine that gives it up when nobody needs the job. The
-- broker and the environment are the parameter `Surroundings`. A goroutine goes from one call that
-- takes a lock, or waits, to the next, and other goroutines may run between two of its steps.
pub mod Live
pub mod Topics
pub mod Moves
pub mod Reconnect
pub mod Effects
pub mod Handlers
use oakestra_net.Base.{
  ℕ, Bool, true, false, Option, none, some, List, [], ◌∷◌, ◌++◌, Bytes, codes, ◌=ᵇ◌, not, filter,
  if◌then◌else◌, ◌≡◌, Outcome, returns, panic, ◌>>=◌,
}
use oakestra_net.Utils.{Slice, new_slice, add, exists, remove_elem}
use oakestra_net.Mqtt.Client.{node_topic}
use oakestra_net.Events
use oakestra_net.Events.{
  Events, Event, EventType, table_query, new_events, emit, de_register, receive,
}

pub record Surroundings : Type 1 where
  pub World : Type 0
  -- `Subscribe` and `Unsubscribe` of the MQTT client.
  pub subscribe : Bytes → World → World
  pub unsubscribe : Bytes → World → World
  -- `PublishToBroker`, for a topic and the name of the job in the request.
  pub publish : Bytes → Bytes → World → World
  pub is_service_deployed : Bytes → World → Bool
  pub remove_service_entries : Bytes → World → World

-- Where the goroutine `startSelfDestructTimeout` is: before `Register`, in its loop, or before
-- `DeRegisterTopic`, `RemoveElem`, `DeRegister` or `RemoveServiceEntries`. The channel is `none` for nil.
pub data Phase : Type 0 where
  starting : Phase
  waiting : Option ℕ → Phase
  cleaned unsubscribed removed silent : Phase

-- `jobUpdatesTimer`, as far as it is used.
pub record Timer : Type 0 where
  pub job : Bytes
  pub topic : Bytes
  pub phase : Phase

-- `runningHandlers`, the topics of the client, the event manager, and the goroutines that run.
pub record Interests (W : Type 0) : Type 0 where
  pub running_handlers : Slice Bytes
  pub topics : List Bytes
  pub events : Events
  pub timers : List Timer
  pub world : W

abbrev pub topic_of : Bytes → Bytes
topic_of job_name = codes "jobs/" ++ job_name ++ codes "/updates_available"

abbrev pub node_topics : Bytes → List Bytes
node_topics client_id =
    node_topic client_id (codes "subnetwork/result")
    ∷ node_topic client_id (codes "tablequery/result")
    ∷ []

-- What wakes a goroutine in its loop.
pub data Wake : Type 0 where
  event_received time_out : Wake

-- The goroutines after a step of one of them.
abbrev pub replaced : List Timer → Option Timer → List Timer → List Timer
replaced before none rest = before ++ rest
replaced before (some t) rest = before ++ t ∷ rest

module _ (s : Surroundings) where
  open s use {World, subscribe, unsubscribe, publish, is_service_deployed, remove_service_entries}

  -- `NetMqttClient.RegisterTopic`: a write to the map of topics, and a subscription.
  abbrev pub register_topic : Bytes → Interests World → Interests World
  register_topic topic i = record i {
    topics = topic ∷ filter (λ t. not (t =ᵇ topic)) i.topics;
    world = subscribe topic i.world;
  }

  abbrev pub de_register_topic : Bytes → Interests World → Interests World
  de_register_topic topic i = record i {
    world = unsubscribe topic i.world;
    topics = filter (λ t. not (t =ᵇ topic)) i.topics;
  }

  abbrev pub clean_interest_towards_job : Bytes → Interests World → Interests World
  clean_interest_towards_job job_name i = record i {
    world = publish (codes "interest/remove") job_name i.world;
  }

  -- `MqttIsInterestRegistered`.
  abbrev pub mqtt_is_interest_registered : Bytes → Interests World → Bool
  mqtt_is_interest_registered job_name i = exists ◌=ᵇ◌ i.running_handlers job_name

  -- `MqttRegisterInterest`, which holds the lock to its return; the new goroutine is the last.
  unfoldable pub mqtt_register_interest : Bytes → Interests World → Interests World
  mqtt_register_interest job_name i =
      let i' = register_topic (topic_of job_name) i in
      if exists ◌=ᵇ◌ i.running_handlers job_name then i else record i' {
        running_handlers = add i'.running_handlers job_name;
        timers =
            i'.timers
            ++ record { job = job_name; topic = topic_of job_name; phase = starting } ∷ [];
      }

  -- The loop of `startSelfDestructTimeout`, woken once.
  unfoldable pub wait_step : Wake → Timer → Option ℕ → Interests World → Interests World × Timer
  wait_step event_received t none i = (i, t)
  wait_step event_received t (some channel) i =
      (record i { events = (receive i.events channel).0 }, t)
  wait_step time_out t channel i =
      if is_service_deployed t.job i.world
      then (i, t)
      else (clean_interest_towards_job t.job i, record t { phase = cleaned })

  -- One step of `startSelfDestructTimeout`; the result is the goroutine after it, if it still runs.
  unfoldable pub timer_step :
      Wake → Timer → Phase → Interests World → Outcome (Interests World × Option Timer)
  unfolding wait_step
  timer_step k t starting i =
      let (events, channel) = Events.register i.events table_query t.job in
      returns (record i { events = events }, some (record t { phase = waiting channel }))
  timer_step k t (waiting channel) i =
      let (i', t') = wait_step k t channel i in returns (i', some t')
  timer_step k t cleaned i =
      returns (de_register_topic t.topic i, some (record t { phase = unsubscribed }))
  timer_step k t unsubscribed i = returns (
    record i { running_handlers = remove_elem ◌=ᵇ◌ i.running_handlers t.job },
    some (record t { phase = removed }),
  )
  timer_step k t removed i = de_register i.events table_query t.job >>= λ events.
      returns (record i { events = events }, some (record t { phase = silent }))
  timer_step k t silent i =
      returns (record i { world = remove_service_entries t.job i.world }, none)

  -- The client of `InitNetMqttClient` has the two topics of the node.
  abbrev pub new_interests : Bytes → World → Interests World
  new_interests client_id w = record {
    running_handlers = new_slice;
    topics = node_topics client_id;
    events = new_events;
    timers = [];
    world = w;
  }

  -- What may happen next: a call of `MqttRegisterInterest`, a step of any goroutine, an event from the
  -- proxy, or anything outside.
  pub data Step : Interests World → Interests World → Type 0 where
    registered :
        (job_name : Bytes) (i : Interests World) → Step i (mqtt_register_interest job_name i)
    ticked :
        (k : Wake) (before rest : List Timer) (t : Timer) (o : Option Timer)
        (i i' : Interests World)
        → i.timers ≡ before ++ t ∷ rest
        → timer_step k t t.phase i ≡ returns (i', o)
        → Step i (record i' { timers = replaced before o rest })
    emitted :
        (event : Event) (events : Events) (i : Interests World)
        → emit i.events event ≡ returns events
        → Step i (record i { events = events })
    outside : (w : World) (i : Interests World) → Step i (record i { world = w })

  pub data Reaches : Interests World → Interests World → Type 0 where
    here : (i : Interests World) → Reaches i i
    later : (i j k : Interests World) → Reaches i j → Step j k → Reaches i k
