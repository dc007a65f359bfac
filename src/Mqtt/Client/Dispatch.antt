-- ===== src/Mqtt/Client/Dispatch.antt =====
-- Which handlers a message of a job reaches, node-net-manager/mqtt/MqttMainClient.go.
use oakestra_net.Base.{
  ◌≡◌, refl, ap, ◌∙◌, subst, true, false, Bool-cases, inl, inr, List, [], ◌∷◌, map, filter, All,
  Bytes, codes, ◌=ᵇ◌, =ᵇ_sound, =ᵇ_complete, arith,
}
use oakestra_net.Base.Words.{contains}
use oakestra_net.Mqtt.Interests.{topic_of}
use oakestra_net.Mqtt.Client.{
  table_query_result, subnetwork_result, job_updates, Topic, node_topic, first_topics, dispatch,
}
use oakestra_net.Mqtt.Client.Factors.{
  slashes, contains-topic_of, contains-topic_of_self, contains-slashes, slashes-node_topic,
}

-- The topics of the client with an interest in each of the jobs, the latest first.
abbrev pub job_topics : List Bytes → List Topic → List Topic
job_topics [] first = first
job_topics (job ∷ jobs) first =
    record { name = topic_of job; handler = job_updates job } ∷ job_topics jobs first

dispatch_skips :
    (x : Bytes) (t : Topic) (topics : List Topic)
    → contains t.name (topic_of x) ≡ false
    → dispatch (topic_of x) (t ∷ topics) ≡ dispatch (topic_of x) topics
unfolding dispatch
dispatch_skips x t topics e = rw (e) refl

dispatch_takes :
    (x : Bytes) (t : Topic) (topics : List Topic)
    → contains t.name (topic_of x) ≡ true
    → dispatch (topic_of x) (t ∷ topics) ≡ t.handler ∷ dispatch (topic_of x) topics
unfolding dispatch
dispatch_takes x t topics e = rw (e) refl

node_topic_apart :
    (x client_id topic : Bytes)
    → slashes x ≡ 0
    → contains (node_topic client_id topic) (topic_of x) ≡ false
node_topic_apart x client_id topic h =
    contains-slashes x (node_topic client_id topic) h
      (omega (arith, slashes-node_topic client_id topic))

nothing : (x : Bytes) → dispatch (topic_of x) [] ≡ []
unfolding dispatch
nothing x = refl

dispatch-first_topics :
    (x client_id : Bytes) → slashes x ≡ 0 → dispatch (topic_of x) (first_topics client_id) ≡ []
dispatch-first_topics x client_id h =
    dispatch_skips x subnet _ (node_topic_apart x client_id (codes "subnetwork/result") h)
    ∙ elim (Bool-cases (query.name =ᵇ subnet.name)) [
      | inl e ↦ rw (e) (nothing x)
      | inr e ↦ rw (e) (
          dispatch_skips x query [] (node_topic_apart x client_id (codes "tablequery/result") h)
          ∙ nothing x)
    ]
  where
    subnet : Topic
    subnet = record {
      name = node_topic client_id (codes "subnetwork/result");
      handler = subnetwork_result;
    }

    query : Topic
    query = record {
      name = node_topic client_id (codes "tablequery/result");
      handler = table_query_result;
    }

-- After a reconnection a message on the topic of a job reaches the handler of that job, if there is an
-- interest in it, and no other, where no name of a job has a slash: the test whether the name of a topic
-- is part of the message's topic mixes no two jobs up, nor the two topics of the node.
pub dispatch-topic_of :
    (x client_id : Bytes) (jobs : List Bytes)
    → slashes x ≡ 0
    → All (λ job. slashes job ≡ 0) jobs
    → dispatch (topic_of x) (job_topics jobs (first_topics client_id))
      ≡ map job_updates (filter (λ job. job =ᵇ x) jobs)
dispatch-topic_of x client_id [] h hs = dispatch-first_topics x client_id h
dispatch-topic_of x client_id (job ∷ jobs) h hs =
    let rest = dispatch-topic_of x client_id jobs h hs.1 in
    let t : Topic = record { name = topic_of job; handler = job_updates job } in
    elim (Bool-cases (job =ᵇ x)) [
      | inl e ↦
          let same : job ≡ x = =ᵇ_sound job x e in
          let found : contains (topic_of job) (topic_of x) ≡ true =
            subst (λ y. contains (topic_of job) (topic_of y) ≡ true) same
              (contains-topic_of_self job) in
          rw (e) (
            dispatch_takes x t (job_topics jobs (first_topics client_id)) found
            ∙ ap (λ hs. job_updates job ∷ hs) rest)
      | inr e ↦
          rw (e) (dispatch_skips x t (job_topics jobs (first_topics client_id)) (apart e) ∙ rest)
    ]
  where
    apart : (job =ᵇ x) ≡ false → contains (topic_of job) (topic_of x) ≡ false
    apart e = elim (Bool-cases (contains (topic_of job) (topic_of x))) [
      | inr f ↦ f
      | inl c ↦
          let same : job ≡ x = contains-topic_of x job h hs.0 c in
          let e' : (job =ᵇ x) ≡ true = =ᵇ_complete job x same in cc
    ]
