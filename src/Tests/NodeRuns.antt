-- ===== src/Tests/NodeRuns.antt =====
-- The environment of a node, its events, its queries and its shared slices at work.
use mathlib.Core.List.Perm
use oakestra_net.Base.{
  Option, not, any, ◌-◌, ℕ, ◌+◌, ◌*◌, ◌^◌, ◌≡◌, ◌≢◌, ◌⊎◌, refl, true, false, none, some, List, [],
  ◌∷◌, Bytes, Mem, All, codes, length, arith, returns, panic, ◌=ᵇ◌,
}
use oakestra_net.Base.Int.{ℤ, pos}
use oakestra_net.Net.{to4, addr, octets}
use oakestra_net.Table.{TableEntry, search_by_job_name}
use oakestra_net.Env.{Environment}
use oakestra_net.Env.Deployment.{System, lacks_pair, deploy_network}
use oakestra_net.Env.Allocation.{at4, at6, IsAllocated}
use oakestra_net.Env.Deployment.Allocation.{LeavesAll, deploy_network-Leaves}
use oakestra_net.Env.Entries.{Cluster, refresh_service_table}
use oakestra_net.Env.Entries.Refresh.{refresh_service_table-answer}
use oakestra_net.Events.{Event, table_query, new_events}
use oakestra_net.Events.Channels.{
  emit_call, register_call, de_register_call, receive_call, run, ReturnsValid, run-ReturnsValid,
  new_events-IsValid,
}
use oakestra_net.Base.Words.{split}
use oakestra_net.Mqtt.{
  TableQueryResponse, QueryCache, response_parser, start_query, table_query_result,
}
use oakestra_net.Mqtt.Names.{IsNamed, response_parser_cases}
use oakestra_net.Mqtt.Pending.{Call, step_call, round_call, performs, start_query_waits}
use oakestra_net.Mqtt.Queries.{Query, publishing, waiting}
use oakestra_net.Network.Ports.{PacketFilter, Rule, open_ports, change_rule, manage_container_ports}
use oakestra_net.Network.Ports.Validity.{is_mapping, mappings_of, manage_container_ports_fails}
use oakestra_net.Tests.Samples.{ns_ip, samples, instance_of}

abbrev pub first4 : ℕ
first4 = 169017602

abbrev pub first6 : ℕ
first6 = 252 * 2 ^ 120 + 1

abbrev pub node : Environment ℕ
node = record {
  next_veth_number = 0;
  translation_table = samples;
  deployed_services = [];
  pool = record { next_container_ip = at4 first4 0; tot_next_addr = 1; addr_cache = [] };
  pool_v6 = record { next_container_ip = at6 first6 0; tot_next_addr = 1; addr_cache = [] };
}

pub node-IsAllocated : IsAllocated first4 first6 node [] []
node-IsAllocated = record {
  v4 = record { made = 0; tot = refl; bounded = omega arith; next = refl; kept = Perm.nil };
  v6 = record { made = 0; tot = refl; bounded = omega arith; next = refl; kept = Perm.nil };
}

-- A system where everything succeeds.
abbrev pub machine : System
machine = record {
  World = ℕ;
  Veth = ℕ;
  create_veths_pair = λ w n s. (w + 1, n, false);
  link_del = λ v w. w + 1;
  Peer = ℕ;
  address_text = octets;
  address_text_v6 = octets;
  link_by_name = λ v w. (w + 1, some v);
  link_set_ns_pid = λ v p w. (w + 1, false);
  add_peer_link_network = λ p a v w. (w + 1, false);
  disable_dad = λ p v w. (w + 1, false);
  set_container_routes = λ p v w. (w + 1, false);
  set_ipv6_container_routes = λ p v w. (w + 1, false);
  set_veth_firewall_rules = λ v w. (w + 1, false);
  open_ports = λ a m w. (w + 1, false);
  close_ports = λ a m w. w + 1;
  service_key = λ s i. s;
  is_interest_registered = λ w s. false;
}

deploy_network-Leaves_example :
    ((lacks_pair machine 0 node (codes "a.b.c.d") ≡ true)
      × (deploy_network machine 0 node (pos 4711) (codes "a.b.c.d") (pos 0) (codes "80:80")
          ≡ panic))
    ⊎ ((lacks_pair machine 0 node (codes "a.b.c.d") ≡ false)
        × LeavesAll first4 first6 [] []
            (deploy_network machine 0 node (pos 4711) (codes "a.b.c.d") (pos 0) (codes "80:80")))
deploy_network-Leaves_example =
    deploy_network-Leaves first4 first6 (omega arith) (omega arith) (omega arith) machine 0 node
      (pos 4711) (codes "a.b.c.d") (pos 0) (codes "80:80") [] [] node-IsAllocated

abbrev answer : List TableEntry
answer = instance_of 5 ∷ []

abbrev pub cluster : Cluster
cluster = record {
  World = ℕ;
  table_query_by_ip = λ a w. (w + 1, none);
  table_query_by_job_name = λ j w. (w + 1, some answer);
  register_interest = λ j w. w + 1;
  emit_table_query = λ j w. w + 1;
  ip_string = octets;
}

refresh_service_table-answer_example :
    (env' : Environment ℕ) × (refresh_service_table cluster 0 node (codes "a.b.c.d")
      ≡ returns (1, env'))
    × All (λ e. Mem e answer) (search_by_job_name env'.translation_table (codes "a.b.c.d"))
refresh_service_table-answer_example =
    refresh_service_table-answer (codes "a.b.c.d") answer cluster 0 node refl

abbrev event : Event
event = record { event_type = table_query; event_target = codes "a.b.c.d"; event_message = [] }

run-ReturnsValid_example : ReturnsValid (
    run
      (register_call table_query (codes "a.b.c.d")
        ∷ emit_call event
        ∷ receive_call 0
        ∷ de_register_call table_query (codes "a.b.c.d")
        ∷ emit_call event
        ∷ [])
      new_events)
run-ReturnsValid_example =
    run-ReturnsValid
      (register_call table_query (codes "a.b.c.d")
        ∷ emit_call event
        ∷ receive_call 0
        ∷ de_register_call table_query (codes "a.b.c.d")
        ∷ emit_call event
        ∷ [])
      new_events new_events-IsValid

abbrev response : TableQueryResponse
response = record {
  job_name = codes "a.b.c.d";
  instance_list =
      record {
        instance_nr = pos 0;
        namespace_ip = 10 ∷ 18 ∷ 0 ∷ 3 ∷ [];
        namespace_ipv6 = [];
        host_ip = 192 ∷ 168 ∷ 0 ∷ 3 ∷ [];
        host_port = pos 50103;
        service_ip =
            record { type_name = codes "RR"; address = 10 ∷ 30 ∷ 0 ∷ 1 ∷ []; address_v6 = [] } ∷ [];
      }
      ∷ [];
  query_key = codes "a.b.c.d";
}

response_parser_cases_example :
    ((length (split b'.' response.job_name) ≢ 4) × (response_parser addr response ≡ none))
    ⊎ ((entries : List TableEntry) × (length (split b'.' response.job_name) ≡ 4)
        × (response_parser addr response ≡ some entries)
        × (length entries ≡ length response.instance_list)
        × All (IsNamed response.job_name) entries)
response_parser_cases_example = response_parser_cases addr response

abbrev queries : QueryCache
queries = record { siprequests = λ k. none; responses = λ i. []; made = 0 }

-- The query waits, runs into its timeout, and an answer for another name comes.
abbrev asking : Query
asking = record { sip = []; sname = codes "a.b.c.d"; force = false; phase = waiting 0 }

abbrev in_between : List Call
in_between =
    step_call false false asking (publishing 0)
    ∷ step_call false true asking (waiting 0)
    ∷ round_call response (codes "x.y.z.w")
    ∷ []

abbrev started_queries : QueryCache
started_queries = performs in_between (start_query queries false false [] (codes "a.b.c.d")).0

start_query_waits_example :
    (start_query started_queries false true [] (codes "a.b.c.d") ≡ (started_queries, none))
    × ((j : ℕ) × ((start_query
            (table_query_result response started_queries)
            false
            true
            []
            (codes "a.b.c.d")).1
          ≡ some j))
unfolding start_query ◌=ᵇ◌
start_query_waits_example =
    start_query_waits queries false false [] (codes "a.b.c.d") 0 in_between false true response refl
      (refl, (refl, (refl, tt))) refl

-- Numbers of one digit are read, and the filter accepts every rule.
abbrev one_digit : Bytes → Option ℤ
one_digit (c ∷ []) = some (pos (c - 48))
one_digit _ = none

abbrev accepting : PacketFilter
accepting = record {
  World = List Rule;
  atoi = one_digit;
  ip_string = octets;
  change_v4 = λ operation rule w. (rule ∷ w, false);
  change_v6 = λ operation rule w. (rule ∷ w, false);
}

accepted :
    (rule : Rule) (w : List Rule) → (change_rule accepting open_ports (ns_ip 3) rule w).1 ≡ false
unfolding change_rule to4
accepted rule w = refl

manage_container_ports_fails_example :
    (manage_container_ports accepting (ns_ip 3) (codes "8:9;7/udp") open_ports []).1
    ≡ any (λ m. not (is_mapping accepting.atoi m)) (mappings_of (codes "8:9;7/udp"))
manage_container_ports_fails_example =
    manage_container_ports_fails accepting open_ports (ns_ip 3) accepted (codes "8:9;7/udp") []
