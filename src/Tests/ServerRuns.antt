-- ===== src/Tests/ServerRuns.antt =====
-- A server that is asked to register twice.
use oakestra_net.Base.{
  ℕ, ◌+◌, ◌≡◌, ◌≢◌, ◌⊎◌, ◌=ᵇ◌, refl, false, List, [], ◌∷◌, codes, returns, panic, some, none,
  if◌then◌else◌,
}
use oakestra_net.Net.{addr}
use oakestra_net.Server.{
  succeeds, panics, Reply, status, no_answer, ended, register, start, set_address, start_all,
  Server, Boot, Input, request, timer, serve,
}
use oakestra_net.Base.Int.{pos}
use oakestra_net.Handlers.Dispatcher.{
  Managers, container, unikernel, no_managers, register_all_managers, get_net_manager,
}
use oakestra_net.Server.Listen.{
  Listeners, server_closed, other_error, create_listener, handle_requests,
}
use oakestra_net.Server.Registration.{Finds, expected, serve-register}
use oakestra_net.Tests.NodeRuns.{node}

-- A request is the name of its client.
abbrev boot : Boot
boot = record {
  World = ℕ;
  Veth = ℕ;
  unmarshal_register =
      λ b. (record { client_id = b; cluster_address = []; requested_address = [] }, false);
  get_outbound_ip = λ w. (w + 1, succeeds (codes "192.168.0.3"));
  start_update = λ w. w + 1;
  init_net_mqtt_client = λ c n w. (w + 1, succeeds tt);
  start_proxy = λ w. (w + 1, succeeds tt);
  new_environment = λ w. (w + 1, succeeds node);
  set_environment = λ w. w + 1;
  shut_down = λ w. w + 1;
  parse_ip = addr;
  notify_address_change = λ n i a p w. w + 1;
}

abbrev unregistered : Server ℕ ℕ
unregistered = record {
  worker_id = [];
  net_config = record {
    node_public_address = [];
    node_public_port = codes "50103";
    cluster_url = codes "cluster";
    cluster_mqtt_port = codes "10003";
    mqtt_cert = [];
    mqtt_key = [];
  };
  env = node;
  world = 0;
}

abbrev later : List Input
later = timer ∷ request (codes "w2") ∷ request (codes "w1") ∷ []

finds_run : Finds boot
finds_run = record { found = λ w. codes "192.168.0.3"; finds = λ w. refl }

goes_on_run : (register boot (codes "w1") unregistered).1 ≢ ended
unfolding register start set_address start_all ◌=ᵇ◌
goes_on_run h = let h' : status 200 ≡ ended = h in cc

serve-register_example :
    ((serve boot (request (codes "w1") ∷ later) unregistered).0.worker_id ≡ codes "w1")
    × ((serve boot (request (codes "w1") ∷ later) unregistered).0.net_config.cluster_url
        ≡ (if codes "" =ᵇ [] then codes "cluster" else codes ""))
    × ((reply : Reply) × ((reply ≡ status 200) ⊎ (reply ≡ no_answer))
        × ((serve boot (request (codes "w1") ∷ later) unregistered).1
            ≡ reply ∷ expected boot (codes "w1") later))
unfolding ◌=ᵇ◌
serve-register_example =
    serve-register boot (codes "w1") later unregistered finds_run refl refl refl goes_on_run

expected_run : expected boot (codes "w1") later ≡ status 400 ∷ status 200 ∷ []
unfolding expected ◌=ᵇ◌
expected_run = refl

-- Where the broker cannot be reached, the first request has no answer, and the next one is told that the
-- node is registered.
abbrev unreachable : Boot
unreachable = record boot { init_net_mqtt_client = λ c n w. (w, panics) }

unreachable_run :
    (serve unreachable (request (codes "w1") ∷ request (codes "w1") ∷ []) unregistered).1
    ≡ no_answer ∷ status 200 ∷ []
unfolding serve register start set_address start_all ◌=ᵇ◌
unreachable_run = refl

-- The listeners always succeed; the managers are walked with the unikernels first.
abbrev listeners : Listeners ℕ
listeners = record {
  remove_file = λ p w. w + 1;
  listen = λ n a w. (w + 1, false);
  port_text = λ p. codes "6000";
}

abbrev registered_managers : Managers
registered_managers =
    register_all_managers (unikernel ∷ container ∷ [])
      (record { public_address = codes "192.168.0.3"; public_port = codes "50103" }) no_managers

-- The second listener is made after what the registration started.
handle_requests_run :
    handle_requests boot listeners
      (pos 6000)
      (request (codes "w1") ∷ [])
      server_closed
      (unikernel ∷ container ∷ [])
      unregistered
    ≡ returns (
      record unregistered {
        worker_id = codes "w1";
        net_config = record unregistered.net_config { node_public_address = codes "192.168.0.3" };
        world = 9;
      },
      registered_managers,
    )
unfolding handle_requests create_listener serve ◌=ᵇ◌
handle_requests_run = refl

handle_requests_fails :
    handle_requests boot listeners (pos 6000) [] other_error (container ∷ []) unregistered ≡ panic
unfolding handle_requests create_listener
handle_requests_fails = refl

get_net_manager_run :
    (get_net_manager (codes "unikernel") ≡ some unikernel)
    × (get_net_manager (codes "docker") ≡ none)
unfolding ◌=ᵇ◌
get_net_manager_run = (refl, refl)
