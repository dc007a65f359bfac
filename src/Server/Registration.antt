-- ===== src/Server/Registration.antt =====
-- A node is registered once: what the requests after the first one do.
use oakestra_net.Base.{
  ◌≡◌, ◌≢◌, ◌⊎◌, inl, inr, refl, ap, ◌∙◌, false, ◌||◌, Bool-cases, some, List, [], ◌∷◌, Bytes,
  codes, ◌=ᵇ◌, =ᵇ_complete, if◌then◌else◌,
}
use oakestra_net.Env.{Environment}
use oakestra_net.Env.Entries.{get_table_entries_on_node}
use oakestra_net.Server.{
  Attempt, succeeds, panics, exits, Reply, status, no_answer, ended, proceed, RegisterRequest,
  Server, Boot, set_address, start_all, set_identity, start, register, update, notify_each, Input,
  request, timer, serve,
}

-- The node finds its address whenever it looks for it.
pub record Finds (b : Boot) : Type 0 where
  pub found : b.World → Bytes
  pub finds : (w : b.World) → (b.get_outbound_ip w).1 ≡ succeeds (found w)

module _ (b : Boot) where
  open b use {World, Veth}

  -- The identity and the cluster of a node.
  abbrev pub SameNode : Server World Veth → Server World Veth → Type 0
  SameNode s s' =
      (s'.worker_id ≡ s.worker_id) × (s'.net_config.cluster_url ≡ s.net_config.cluster_url)

  -- What a node with an identity answers: 200 for a request with the identity that the decoder
  -- accepts, and 400 for every other.
  abbrev pub expected_status : Bytes → Bytes → Reply
  expected_status worker_id req_body =
      if (b.unmarshal_register req_body).1
      then status 400
      else if worker_id =ᵇ (b.unmarshal_register req_body).0.client_id
      then status 200
      else status 400

  unfoldable pub expected : Bytes → List Input → List Reply
  expected worker_id [] = []
  expected worker_id (request req_body ∷ is) =
      let rest = expected worker_id is in expected_status worker_id req_body ∷ rest
  expected worker_id (timer ∷ is) = expected worker_id is

  register_registered :
      (req_body : Bytes) (s : Server World Veth)
      → (s.worker_id =ᵇ []) ≡ false
      → register b req_body s ≡ (s, expected_status s.worker_id req_body)
  unfolding register
  register_registered req_body s h = elim (Bool-cases (b.unmarshal_register req_body).1) [
    | inl e ↦ rw (e, register) refl
    | inr e ↦ rw (e, register) (rw (h) refl)
  ]

  -- What the list of replies becomes with one more, which is not the end of the process.
  serve-reply :
      (req_body : Bytes) (is : List Input) (s : Server World Veth) (reply : Reply)
      → reply ≢ ended
      → (register b req_body s).1 ≡ reply
      → serve b (request req_body ∷ is) s ≡ (
        (serve b is (register b req_body s).0).0,
        reply ∷ (serve b is (register b req_body s).0).1,
      )
  unfolding serve
  serve-reply req_body is s (status n) goes e = rw (e, serve) refl
  serve-reply req_body is s no_answer goes e = rw (e, serve) refl
  serve-reply req_body is s ended goes e = absurd (goes refl)

  serve_request :
      (req_body : Bytes) (is : List Input) (s s' : Server World Veth) (reply : Reply)
      → reply ≢ ended
      → register b req_body s ≡ (s', reply)
      → serve b (request req_body ∷ is) s ≡ ((serve b is s').0, reply ∷ (serve b is s').1)
  serve_request req_body is s s' reply goes e =
      serve-reply req_body is s reply goes (ap (λ o. o.1) e)
      ∙ ap (λ o. ((serve b is o.0).0, reply ∷ (serve b is o.0).1)) e

  expected_status-ended : (worker_id req_body : Bytes) → expected_status worker_id req_body ≢ ended
  expected_status-ended worker_id req_body = elim (Bool-cases (b.unmarshal_register req_body).1) [
    | inl e ↦ rw (e) (λ h. cc)
    | inr e ↦ elim (Bool-cases (worker_id =ᵇ (b.unmarshal_register req_body).0.client_id)) [
      | inl t ↦ rw (e) (rw (t) (λ h. cc))
      | inr f ↦ rw (e) (rw (f) (λ h. cc))
    ]
  ]

  update-SameNode :
      Finds b
      → (s : Server World Veth) → (s' : Server World Veth) × (update b s ≡ some s') × SameNode s s'
  unfolding update
  update-SameNode finder s =
      elim (Bool-cases (s.net_config.node_public_address =ᵇ finder.found s.world)) [
        | inl e ↦ (
          record s { world = (b.get_outbound_ip s.world).0 },
          rw (finder.finds s.world, update) (rw (e) refl),
          (refl, refl),
        )
        | inr e ↦ (
          record s {
            net_config = record s.net_config { node_public_address = finder.found s.world };
            world =
                notify_each b (finder.found s.world) s.net_config.node_public_port
                  (get_table_entries_on_node s.env (b.parse_ip s.net_config.node_public_address))
                  (b.get_outbound_ip s.world).0;
          },
          rw (finder.finds s.world, update) (rw (e) refl),
          (refl, refl),
        )
      ]

  serve_registered :
      (is : List Input) (s : Server World Veth)
      → Finds b
      → (s.worker_id =ᵇ []) ≡ false
      → SameNode s (serve b is s).0 × ((serve b is s).1 ≡ expected s.worker_id is)
  unfolding serve expected
  serve_registered [] s finder h = ((refl, refl), refl)
  serve_registered (request req_body ∷ is) s finder h =
      let (n, e) = serve_registered is s finder h in
      rw
        (serve_request req_body is s s (expected_status s.worker_id req_body)
          (expected_status-ended s.worker_id req_body) (register_registered req_body s h))
        (n, ap (λ l. expected_status s.worker_id req_body ∷ l) e)
  serve_registered (timer ∷ is) s finder h =
      let (s', u, (same, cluster)) = update-SameNode finder s in
      let (n, e) = serve_registered is s' finder (ap (λ w. w =ᵇ []) same ∙ h) in
      rw (u, serve) ((n.0 ∙ same, n.1 ∙ cluster), e ∙ ap (λ w. expected w is) same)

  -- The identity and the cluster of a node after a call.
  abbrev Identified : RegisterRequest → Server World Veth → Server World Veth × Reply → Type 0
  Identified r s o =
      (o.0.worker_id ≡ r.client_id)
      × (o.0.net_config.cluster_url
          ≡ (if r.cluster_address =ᵇ [] then s.net_config.cluster_url else r.cluster_address))
      × ((o.1 ≡ status 200) ⊎ ((o.1 ≡ no_answer) ⊎ (o.1 ≡ ended)))

  set_identity-cluster_url :
      (r : RegisterRequest) (s : Server World Veth)
      → (set_identity b r s).net_config.cluster_url
        ≡ (if r.cluster_address =ᵇ [] then s.net_config.cluster_url else r.cluster_address)
  set_identity-cluster_url r s = elim (Bool-cases (r.cluster_address =ᵇ [])) [
    | inl e ↦ rw (e) refl
    | inr e ↦ rw (e) refl
  ]

  proceed-Identified :
      {A : Type 0} (r : RegisterRequest) (s s' : Server World Veth) (a : Attempt A)
      (f : A → Server World Veth × Reply)
      → s'.worker_id ≡ r.client_id
      → s'.net_config.cluster_url
        ≡ (if r.cluster_address =ᵇ [] then s.net_config.cluster_url else r.cluster_address)
      → ((x : A) → Identified r s (f x))
      → Identified r s (proceed s' a f)
  proceed-Identified r s s' (succeeds x) f i c h = h x
  proceed-Identified r s s' panics f i c h = (i, c, inr (inl refl))
  proceed-Identified r s s' exits f i c h = (i, c, inr (inr refl))

  start_all-Identified :
      (r : RegisterRequest) (s s' : Server World Veth)
      → s'.net_config.cluster_url ≡ s.net_config.cluster_url
      → Identified r s (start_all b r (set_identity b r s'))
  unfolding start_all
  start_all-Identified r s s' same =
      let named = set_identity b r s' in
      let cluster =
        set_identity-cluster_url r s'
        ∙ ap (λ u. if r.cluster_address =ᵇ [] then u else r.cluster_address) same in
      let client = b.init_net_mqtt_client r.client_id named.net_config named.world in
      let proxy = b.start_proxy client.0 in
      let made = b.new_environment proxy.0 in
      let answered : Environment Veth → Server World Veth × Reply = λ env.
        (record named { env = env; world = b.shut_down (b.set_environment made.0) }, status 200) in
      let third : Unit {0} → Server World Veth × Reply =
        λ _. proceed (record named { world = made.0 }) made.1 answered in
      let second : Unit {0} → Server World Veth × Reply =
        λ _. proceed (record named { world = proxy.0 }) proxy.1 third in
      proceed-Identified r s (record named { world = client.0 }) client.1 second refl cluster
        (λ _.
          proceed-Identified r s (record named { world = proxy.0 }) proxy.1 third refl cluster
            (λ _.
              proceed-Identified r s (record named { world = made.0 }) made.1 answered refl cluster
                (λ env. (refl, cluster, inl refl))))

  set_address_found :
      (r : RegisterRequest) (s : Server World Veth)
      → Finds b
      → (s' : Server World Veth) × (set_address b r s ≡ (s', succeeds tt))
        × (s'.net_config.cluster_url ≡ s.net_config.cluster_url)
  unfolding set_address
  set_address_found r s finder =
      elim (Bool-cases (
        s.net_config.node_public_address =ᵇ []
        || s.net_config.node_public_address =ᵇ codes "0.0.0.0")) [
          | inr e ↦ (s, rw (e) refl, refl)
          | inl e ↦ elim (Bool-cases (r.requested_address =ᵇ [])) [
            | inr g ↦ (
              record s {
                net_config = record s.net_config { node_public_address = r.requested_address };
              },
              rw (e) (rw (g) refl),
              refl,
            )
            | inl g ↦ (
              record s {
                net_config = record s.net_config { node_public_address = finder.found s.world };
                world = b.start_update (b.get_outbound_ip s.world).0;
              },
              rw (e) (rw (g) (rw (finder.finds s.world) refl)),
              refl,
            )
          ]
        ]

  register_new :
      (req_body : Bytes) (s : Server World Veth)
      → Finds b
      → (b.unmarshal_register req_body).1 ≡ false
      → s.worker_id ≡ []
      → Identified (b.unmarshal_register req_body).0 s (register b req_body s)
  unfolding register start
  register_new req_body s finder ok new =
      let r = (b.unmarshal_register req_body).0 in
      let (s', e, same) = set_address_found r s finder in
      rw (ok, register)
        (rw (=ᵇ_complete s.worker_id [] new) (rw (e, start) (start_all-Identified r s s' same)))

  -- The first request that the decoder accepts registers a node that has no identity, where the client
  -- names one, the node finds its address whenever it looks for it, and the process does not end:
  -- the answer is 200, or a call of the registration panics and there is none. From then on, in both
  -- cases, whatever requests come and however often the address is updated in between, the node
  -- has this identity and the cluster that the request named, or its own if the request named none.
  -- A later request is answered with 200 if the decoder accepts it and it names the same identity,
  -- and with 400 otherwise.
  pub serve-register :
      (req_body : Bytes) (is : List Input) (s : Server World Veth)
      → Finds b
      → (b.unmarshal_register req_body).1 ≡ false
      → ((b.unmarshal_register req_body).0.client_id =ᵇ []) ≡ false
      → s.worker_id ≡ []
      → (register b req_body s).1 ≢ ended
      → ((serve b (request req_body ∷ is) s).0.worker_id
          ≡ (b.unmarshal_register req_body).0.client_id)
        × ((serve b (request req_body ∷ is) s).0.net_config.cluster_url ≡ (
            if (b.unmarshal_register req_body).0.cluster_address =ᵇ []
            then s.net_config.cluster_url
            else (b.unmarshal_register req_body).0.cluster_address))
        × ((reply : Reply) × ((reply ≡ status 200) ⊎ (reply ≡ no_answer))
            × ((serve b (request req_body ∷ is) s).1
                ≡ reply ∷ expected (b.unmarshal_register req_body).0.client_id is))
  serve-register req_body is s finder ok named new goes =
      let (s', reply) = register b req_body s in
      let (identity, cluster, replied) = register_new req_body s finder ok new in
      let ((same, kept), e) = serve_registered is s' finder (ap (λ w. w =ᵇ []) identity ∙ named) in
      rw (serve_request req_body is s s' reply goes refl) (
        same ∙ identity,
        kept ∙ cluster,
        (
          reply,
          elim replied [ inl a ↦ inl a | inr (inl a) ↦ inr a | inr (inr a) ↦ absurd (goes a) ],
          ap (λ l. reply ∷ l) (e ∙ ap (λ w. expected w is) identity),
        ),
      )
