-- ===== src/Server.antt =====
-- node-net-manager/server/server.go: the registration of the node and the updates of its public address.
-- What the registration starts, the JSON decoder and the broker are the parameter `Boot`.
pub mod Registration
pub mod Listen
use oakestra_net.Base.{
  ℕ, Bool, true, false, Option, none, some, List, [], ◌∷◌, Bytes, codes, ◌=ᵇ◌, ◌||◌, if◌then◌else◌,
}
use oakestra_net.Base.Int.{ℤ}
use oakestra_net.Net.{Ip}
use oakestra_net.Table.{TableEntry}
use oakestra_net.Env.{Environment}
use oakestra_net.Env.Entries.{get_table_entries_on_node}

-- `model.NetConfiguration`, as far as the server reads or writes it.
pub record NetConfiguration : Type 0 where
  pub node_public_address : Bytes
  pub node_public_port : Bytes
  pub cluster_url : Bytes
  pub cluster_mqtt_port : Bytes
  pub mqtt_cert : Bytes
  pub mqtt_key : Bytes

pub record RegisterRequest : Type 0 where
  pub client_id : Bytes
  pub cluster_address : Bytes
  pub requested_address : Bytes

-- `model.WorkerID`, `model.NetConfig` and `Env`.
pub record Server (W V : Type 0) : Type 0 where
  pub worker_id : Bytes
  pub net_config : NetConfiguration
  pub env : Environment V
  pub world : W

-- What comes of a call: a result, a panic, or a fatal log line, which ends the process.
pub data Attempt (A : Type 0) : Type 0 where
  succeeds : A → Attempt A
  panics exits : Attempt A

-- What comes of a request: a status; a panic, which net/http recovers so that the client has no answer
-- and the server goes on; or the end of the process.
pub data Reply : Type 0 where
  status : ℕ → Reply
  no_answer ended : Reply

-- The end of a handler, or what it does with the result of a call.
abbrev pub proceed : {A S : Type 0} → S → Attempt A → (A → S × Reply) → S × Reply
proceed s (succeeds a) f = f a
proceed s panics f = (s, no_answer)
proceed s exits f = (s, ended)

pub record Boot : Type 1 where
  pub World : Type 0
  pub Veth : Type 0
  pub unmarshal_register : Bytes → RegisterRequest × Bool
  -- `GetOutboundIP` as text.
  pub get_outbound_ip : World → World × Attempt Bytes
  -- `go update()`.
  pub start_update : World → World
  -- `InitNetMqttClient`, for the identity and the configuration.
  pub init_net_mqtt_client : Bytes → NetConfiguration → World → World × Attempt Unit
  -- The proxy tunnel and the environment that are made, and the link between them.
  pub start_proxy : World → World × Attempt Unit
  pub new_environment : World → World × Attempt (Environment Veth)
  pub set_environment : World → World
  -- The shut-down of the first server.
  pub shut_down : World → World
  -- `net.ParseIP`.
  pub parse_ip : Bytes → Ip
  -- `NotifyAddressChange`: the name, the instance, the address and the port.
  pub notify_address_change : Bytes → ℤ → Bytes → Bytes → World → World

-- What reaches the server: a request to register, or the timer of `update`.
pub data Input : Type 0 where
  request : Bytes → Input
  timer : Input

module _ (b : Boot) where
  open b use {
    World, Veth, unmarshal_register, get_outbound_ip, start_update, init_net_mqtt_client,
    start_proxy, new_environment, set_environment, shut_down, parse_ip, notify_address_change,
  }

  -- The public address of the node, where the file does not set it.
  unfoldable pub set_address :
      RegisterRequest → Server World Veth → Server World Veth × Attempt Unit
  set_address r s =
      if s.net_config.node_public_address =ᵇ []
        || s.net_config.node_public_address =ᵇ codes "0.0.0.0"
      then if r.requested_address =ᵇ []
        then (let (w, default_link) = get_outbound_ip s.world in
            elim default_link [
              | succeeds a ↦ (
                record s {
                  net_config = record s.net_config { node_public_address = a };
                  world = start_update w;
                },
                succeeds tt,
              )
              | panics ↦ (record s { world = w }, panics)
              | exits ↦ (record s { world = w }, exits)
            ])
        else (
          record s {
            net_config = record s.net_config { node_public_address = r.requested_address };
          },
          succeeds tt,
        )
      else (s, succeeds tt)

  abbrev pub set_cluster : RegisterRequest → NetConfiguration → NetConfiguration
  set_cluster r c =
      if r.cluster_address =ᵇ [] then c else record c { cluster_url = r.cluster_address }

  -- The calls that the first registration starts.
  unfoldable pub start_all : RegisterRequest → Server World Veth → Server World Veth × Reply
  start_all r s =
      let (w1, client) = init_net_mqtt_client r.client_id s.net_config s.world in
      proceed (record s { world = w1 }) client
        (λ _.
          let (w2, proxy) = start_proxy w1 in
          proceed (record s { world = w2 }) proxy
            (λ _.
              let (w3, made) = new_environment w2 in
              proceed (record s { world = w3 }) made
                (λ env.
                  (record s { env = env; world = shut_down (set_environment w3) }, status 200))))

  -- The identity and the cluster, which are stored before the calls.
  abbrev pub set_identity : RegisterRequest → Server World Veth → Server World Veth
  set_identity r s = record s { worker_id = r.client_id; net_config = set_cluster r s.net_config }

  -- The first registration, from the address on.
  unfoldable pub start : RegisterRequest → Server World Veth → Server World Veth × Reply
  unfolding set_address start_all
  start r s =
      let (s', address) = set_address r s in
      proceed s' address (λ _. start_all r (set_identity r s'))

  -- `register`.
  unfoldable pub register : Bytes → Server World Veth → Server World Veth × Reply
  unfolding start
  register req_body s =
      let (r, err) = unmarshal_register req_body in
      elim err [
        | true ↦ (s, status 400)
        | false ↦ elim (s.worker_id =ᵇ []) [
          | true ↦ start r s
          | false ↦ (s, if s.worker_id =ᵇ r.client_id then status 200 else status 400)
        ]
      ]

  -- The loop over the instances on the node.
  abbrev pub notify_each : Bytes → Bytes → List TableEntry → World → World
  notify_each address port [] w = w
  notify_each address port (e ∷ es) w =
      notify_each address port es (notify_address_change e.appname e.instancenumber address port w)

  -- One round of `update`, `none` where the process ends: no one recovers a panic of this goroutine.
  unfoldable pub update : Server World Veth → Option (Server World Veth)
  update s =
      let (w, address) = get_outbound_ip s.world in
      let on_node = get_table_entries_on_node s.env (parse_ip s.net_config.node_public_address) in
      elim address [
        | panics ↦ none
        | exits ↦ none
        | succeeds default_link ↦ some (
            if s.net_config.node_public_address =ᵇ default_link
            then record s { world = w }
            else record s {
              net_config = record s.net_config { node_public_address = default_link };
              world = notify_each default_link s.net_config.node_public_port on_node w;
            })
      ]

  -- The states after each input, with what came of the requests, until the process ends, which is the
  -- last of the list then.
  unfoldable pub serve : List Input → Server World Veth → Server World Veth × List Reply
  unfolding register update
  serve [] s = (s, [])
  serve (request req_body ∷ is) s =
      let (s', reply) = register req_body s in
      let (s'', rest) = serve is s' in
      elim reply [
        | ended ↦ (s', ended ∷ [])
        | no_answer ↦ (s'', no_answer ∷ rest)
        | status n ↦ (s'', status n ∷ rest)
      ]
  serve (timer ∷ is) s = elim (update s) [ none ↦ (s, ended ∷ []) | some s' ↦ serve is s' ]
