-- ===== src/Tests/QueryRuns.antt =====
-- A query by service address that is published, answered and returned.
use oakestra_net.Base.{◌≡◌, ◌=ᵇ◌, refl, false, [], ◌∷◌, ◌++◌, Bytes, codes}
use oakestra_net.Mqtt.{TableQueryResponse, start_query, notify}
use oakestra_net.Mqtt.Queries.{
  QueryPhase, entered, allowed, publishing, waiting, answered, Query, await, query_step, deliver,
  Delivery, Queries, new_queries, asked_ip, moved, received, delivered, Reaches, here, later,
}
use oakestra_net.Mqtt.Queries.Answers.{AreServed, Reaches-AreServed}

abbrev service : Bytes
service = codes "10.30.0.1"

abbrev answer : TableQueryResponse
answer = record { job_name = codes "a.b.c.d"; instance_list = []; query_key = service }

abbrev asks : QueryPhase → Query
asks p = record { sip = service; sname = []; force = false; phase = p }

-- The only query takes a step, or the only call of the handler.
abbrev query_runs : Query → Queries → Queries
query_runs c s = record {
  cache = (query_step false false c c.phase s.cache).0;
  queries = record c { phase = (query_step false false c c.phase s.cache).1 } ∷ [];
  deliveries = s.deliveries;
  published = s.published ++ (query_step false false c c.phase s.cache).2;
}

abbrev handler_runs : Delivery → Queries → Queries
handler_runs d s = record s {
  cache = (deliver d d.keys s.cache).0;
  deliveries = (deliver d d.keys s.cache).1 ∷ [];
}

abbrev requested : Queries
requested = record new_queries { queries = asks entered ∷ [] }

abbrev checked : Queries
checked = query_runs (asks entered) requested

abbrev opened : Queries
opened = query_runs (asks allowed) checked

abbrev waits : Queries
waits = query_runs (asks (publishing 0)) opened

abbrev handled : Queries
handled = record waits {
  deliveries = record { response = answer; keys = codes "a.b.c.d" ∷ service ∷ [] } ∷ [];
}

abbrev half_told : Queries
half_told =
    handler_runs (record { response = answer; keys = codes "a.b.c.d" ∷ service ∷ [] }) handled

abbrev told : Queries
told = handler_runs (record { response = answer; keys = service ∷ [] }) half_told

abbrev returned : Queries
returned = query_runs (asks (waiting 0)) told

returned_queries : returned.queries ≡ asks (answered answer) ∷ []
unfolding query_step await start_query deliver notify ◌=ᵇ◌
returned_queries = refl

returned_published : returned.published ≡ record { sname = []; sip = service } ∷ []
unfolding query_step await start_query deliver notify ◌=ᵇ◌
returned_published = refl

waits-Reaches : Reaches new_queries waits
unfolding query_step start_query
waits-Reaches =
    later new_queries opened waits
      (later new_queries checked opened
        (later new_queries requested checked
          (later new_queries new_queries requested (here new_queries)
            (asked_ip service [] new_queries))
          (moved false false [] [] (asks entered) requested refl))
        (moved false false [] [] (asks allowed) checked refl))
      (moved false false [] [] (asks (publishing 0)) opened refl)

returned-Reaches : Reaches new_queries returned
unfolding query_step start_query deliver notify
returned-Reaches =
    later new_queries told returned
      (later new_queries half_told told
        (later new_queries handled half_told
          (later new_queries waits handled waits-Reaches (received answer waits))
          (delivered [] [] _ handled refl))
        (delivered [] [] _ half_told refl))
      (moved false false [] [] (asks (waiting 0)) told refl)

Reaches-AreServed_example : AreServed returned
Reaches-AreServed_example = Reaches-AreServed returned returned-Reaches
