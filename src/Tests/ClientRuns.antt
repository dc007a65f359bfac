-- ===== src/Tests/ClientRuns.antt =====
-- The client of the broker: made once, with a certificate, and the messages of two jobs.
use oakestra_net.Base.{ℕ, ◌+◌, ◌≡◌, refl, none, some, [], ◌∷◌, Bytes, codes, ◌=ᵇ◌, returns, panic}
use oakestra_net.Mqtt.Client.{
  Broker, NetMqttClient, table_query_result, job_updates, first_topics, client_options,
  new_net_mqtt_client, dispatch, run_mqtt_client, init_net_mqtt_client,
}
use oakestra_net.Mqtt.Client.Dispatch.{job_topics, dispatch-topic_of}

-- The broker counts the calls, and refuses a client without a name.
abbrev broker : Broker
broker = record {
  World = ℕ;
  connect = λ o w. (w + 1, o.options_client_id =ᵇ []);
  subscribe_multiple = λ topics w. w + 10;
  publish = λ topic payload w. w + 100;
}

abbrev made_for : Bytes → NetMqttClient
made_for clientid =
    new_net_mqtt_client clientid (codes "cluster") (codes "10003") (codes "cert.pem")
      (codes "key.pem")

init_fails : init_net_mqtt_client broker none (made_for []) 0 ≡ panic
unfolding init_net_mqtt_client run_mqtt_client ◌=ᵇ◌
init_fails = refl

init_once :
    init_net_mqtt_client broker (some (made_for (codes "n1"))) (made_for (codes "n2")) 7
    ≡ returns (7, made_for (codes "n1"))
unfolding init_net_mqtt_client
init_once = refl

-- The unencrypted address is the first one, also with a certificate.
brokers_with_tls :
    (client_options (made_for (codes "n1"))).brokers
    ≡ codes "tcp://cluster:10003" ∷ codes "tls://cluster:10003" ∷ []
unfolding ◌=ᵇ◌
brokers_with_tls = refl

dispatch_result :
    dispatch (codes "nodes/n1/net/tablequery/result") (first_topics (codes "n1"))
    ≡ table_query_result ∷ []
unfolding dispatch ◌=ᵇ◌
dispatch_result = refl

dispatch-topic_of_example :
    dispatch
      (codes "jobs/a.b.c.d/updates_available")
      (job_topics (codes "a.b.c" ∷ codes "a.b.c.d" ∷ []) (first_topics (codes "n1")))
    ≡ job_updates (codes "a.b.c.d") ∷ []
unfolding ◌=ᵇ◌
dispatch-topic_of_example =
    dispatch-topic_of (codes "a.b.c.d") (codes "n1") (codes "a.b.c" ∷ codes "a.b.c.d" ∷ []) refl
      (refl, (refl, tt))
