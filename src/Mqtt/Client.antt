-- ===== src/Mqtt/Client.antt =====
-- node-net-manager/mqtt/MqttMainClient.go: the client of the MQTT broker, made once, and the dispatch of
-- the messages of its topics. The MQTT library is the parameter `Broker`. RegisterTopic and
-- DeRegisterTopic are in Mqtt.Interests.
pub mod Factors
pub mod Dispatch
use oakestra_net.Base.{
  Bool, true, false, not, Option, none, some, List, [], ◌∷◌, ◌++◌, map, filter, Bytes, codes, ◌=ᵇ◌,
  if◌then◌else◌, Outcome, returns, panic,
}
use oakestra_net.Base.Words.{contains}

pub data TopicHandler : Type 0 where
  -- `TablequeryResultMqttHandler` and `subnetworkAssignmentMqttHandler`.
  table_query_result subnetwork_result : TopicHandler
  -- The handler of `MqttRegisterInterest` for a job.
  job_updates : Bytes → TopicHandler

pub record Topic : Type 0 where
  pub name : Bytes
  pub handler : TopicHandler

pub record NetMqttClient : Type 0 where
  pub topics : List Topic
  pub client_id : Bytes
  pub broker_url : Bytes
  pub broker_port : Bytes
  pub mqtt_cert : Bytes
  pub mqtt_key : Bytes

-- The options that depend on the configuration: the brokers in the order in which they are added.
pub record ClientOptions : Type 0 where
  pub options_client_id : Bytes
  pub brokers : List Bytes
  pub has_tls : Bool

pub record Broker : Type 1 where
  pub World : Type 0
  -- `NewClient` and `Connect`, with whether there is an error.
  pub connect : ClientOptions → World → World × Bool
  pub subscribe_multiple : List Bytes → World → World
  -- A topic and a payload; the error is logged.
  pub publish : Bytes → Bytes → World → World

abbrev pub node_topic : Bytes → Bytes → Bytes
node_topic client_id topic = codes "nodes/" ++ client_id ++ codes "/net/" ++ topic

-- A write to the map of topics.
abbrev pub put_topic : Bytes → TopicHandler → List Topic → List Topic
put_topic name h topics =
    record { name = name; handler = h } ∷ filter (λ t. not (t.name =ᵇ name)) topics

abbrev pub first_topics : Bytes → List Topic
first_topics client_id =
    put_topic (node_topic client_id (codes "subnetwork/result")) subnetwork_result
      (put_topic (node_topic client_id (codes "tablequery/result")) table_query_result [])

abbrev pub broker_address : Bytes → NetMqttClient → Bytes
broker_address scheme c = scheme ++ codes "://" ++ c.broker_url ++ codes ":" ++ c.broker_port

-- The options of `InitNetMqttClient`. A certificate that cannot be loaded is logged and used as it is.
abbrev pub client_options : NetMqttClient → ClientOptions
client_options c =
    if c.mqtt_cert =ᵇ []
    then record {
      options_client_id = c.client_id;
      brokers = broker_address (codes "tcp") c ∷ [];
      has_tls = false;
    }
    else record {
      options_client_id = c.client_id;
      brokers = broker_address (codes "tcp") c ∷ broker_address (codes "tls") c ∷ [];
      has_tls = true;
    }

abbrev pub new_net_mqtt_client : Bytes → Bytes → Bytes → Bytes → Bytes → NetMqttClient
new_net_mqtt_client clientid brokerurl brokerport mqttcert mqttkey = record {
  topics = first_topics clientid;
  client_id = clientid;
  broker_url = brokerurl;
  broker_port = brokerport;
  mqtt_cert = mqttcert;
  mqtt_key = mqttkey;
}

-- `subscribeHandlerDispatcher`: the handlers of the topics whose name is part of the message's topic.
unfoldable pub dispatch : Bytes → List Topic → List TopicHandler
dispatch message_topic topics =
    map (λ t. t.handler) (filter (λ t. contains t.name message_topic) topics)

module _ (b : Broker) where
  open b use {World, connect, subscribe_multiple, publish}

  -- `connectHandler`, on every connection to the broker.
  abbrev pub on_connect : NetMqttClient → World → World
  on_connect c w = subscribe_multiple (map (λ t. t.name) c.topics) w

  -- `runMqttClient`.
  unfoldable pub run_mqtt_client : NetMqttClient → World → Outcome World
  run_mqtt_client c w =
      let (w', failed) = connect (client_options c) w in
      elim failed [ true ↦ panic | false ↦ returns w' ]

  -- `InitNetMqttClient` with the `sync.Once`: a client that was made is returned as it is. The client
  -- stands in its variable before the connection is made.
  unfoldable pub init_net_mqtt_client :
      Option NetMqttClient → NetMqttClient → World → Outcome (World × NetMqttClient)
  init_net_mqtt_client (some c) asked w = returns (w, c)
  init_net_mqtt_client none asked w = elim (run_mqtt_client asked w) [
    | panic ↦ panic
    | returns w' ↦ returns (w', asked)
  ]

  -- `PublishToBroker`, which never returns an error.
  abbrev pub publish_to_broker : NetMqttClient → Bytes → Bytes → World → World
  publish_to_broker c topic payload w = publish (node_topic c.client_id topic) payload w
