-- ===== src/Env/Deployed/Changes.antt =====
-- What a deployment and a detachment mean for IsServiceDeployed of
-- node-net-manager/env/EnvironmentManager.go.
use oakestra_net.Base.{
  ◌≡◌, refl, sym, ap, ◌∙◌, inl, inr, true, Bool-cases, Option-cases, Option, none, some, Bytes,
  =ᵇ_refl, any, Outcome, returns, panic, ◌>>=◌,
}
use oakestra_net.Base.Int.{ℤ}
use oakestra_net.Net.{Ip}
use oakestra_net.Env.{Environment, free_container_address, book_veth_number}
use oakestra_net.Env.Deployment.{
  System, get_service, delete_service, allocate, configure, try_all, link_steps, rule_steps, attach,
  deploy_network, detach_container,
}
use oakestra_net.Env.Deployment.Detachment.{free-services}
use oakestra_net.Table.Remove.{remove_by_nsip_returns, remove_by_job_name_lem}
use oakestra_net.Env.Deployed.{current, is_named, is_service_deployed}
use oakestra_net.Env.Deployed.Kept.{
  delete-current, delete_absent, SameServices, Allocates, allocate-Allocates, same_services,
}

module _ (y : System) where
  open y use {World, Veth}

  -- The outcome of a deployment: a service of the name is deployed, or, after an error, the services are
  -- the ones that were.
  abbrev pub Deploys :
      Bytes → Environment Veth → Outcome (World × Environment Veth × Option (Ip × Ip)) → Type 0
  Deploys sname env (returns (w, env', some a)) = is_service_deployed sname env' ≡ true
  Deploys sname env (returns (w, env', none)) =
      (job : Bytes) → is_service_deployed job env' ≡ is_service_deployed job env
  Deploys sname env panic = Unit

  configure-Deploys :
      (w : World) (env env' : Environment Veth) (pid : ℤ) (sname : Bytes) (instance' : ℤ)
      (ports : Bytes) (veth : Veth) (a b : Ip)
      → SameServices env env'
      → Deploys sname env (returns (configure y w env' pid sname instance' ports veth a b))
  unfolding configure
  configure-Deploys w env env' pid sname instance' ports veth a b same =
      let r = try_all (link_steps y pid veth a b) w in
      elim (Bool-cases r.1) [
        | inl e ↦
            rw (e, configure)
              (same_services env (free_container_address (free_container_address env' a) b)
                (free-services (free_container_address env' a) b ∙ free-services env' a ∙ same))
        | inr e ↦ elim (Bool-cases (try_all (rule_steps y ports veth a b) r.0).1) [
          | inl e' ↦
              rw (e, configure)
                (rw (e') (
                  same_services env
                    (free_container_address (free_container_address (book_veth_number env') a) b)
                    (free-services (free_container_address (book_veth_number env') a) b
                      ∙ free-services (book_veth_number env') a
                      ∙ same)))
          | inr e' ↦ rw (e, configure) (rw (e') (rw (=ᵇ_refl sname) refl))
        ]
      ]

  allocated-Deploys :
      (w : World) (env : Environment Veth) (pid : ℤ) (sname : Bytes) (instance' : ℤ) (ports : Bytes)
      (veth : Veth) (o : Outcome (Environment Veth × Option (Ip × Ip)))
      → Allocates env o
      → Deploys sname env (
          o >>= λ (env', addresses). elim addresses [
            | none ↦ returns (y.link_del veth w, env', none)
            | some (a, b) ↦ returns (configure y w env' pid sname instance' ports veth a b)
          ])
  allocated-Deploys w env pid sname instance' ports veth panic e = tt
  allocated-Deploys w env pid sname instance' ports veth (returns (env', none)) e =
      same_services env env' e
  allocated-Deploys w env pid sname instance' ports veth (returns (env', some (a, b))) e =
      configure-Deploys w env env' pid sname instance' ports veth a b e

  deploy_network-Deploys :
      (w : World) (env : Environment Veth) (pid : ℤ) (sname : Bytes) (instance' : ℤ) (ports : Bytes)
      → Deploys sname env (deploy_network y w env pid sname instance' ports)
  unfolding deploy_network
  deploy_network-Deploys w env pid sname instance' ports =
      let c = y.create_veths_pair w env.next_veth_number sname in
      elim (Bool-cases c.2) [
        | inl e ↦ rw (e, deploy_network) tt
        | inr e ↦ elim (Bool-cases (attach y pid c.1 c.0).1) [
          | inl e' ↦ rw (e, deploy_network) (rw (e') (λ job. refl))
          | inr e' ↦
              rw (e, deploy_network)
                (rw (e') (
                  allocated-Deploys _ env pid sname instance' ports c.1 (allocate env)
                    (allocate-Allocates env)))
        ]
      ]

  -- The outcome of a detachment: a service is deployed if another entry than the one of the key has its
  -- name.
  abbrev pub Detaches : Bytes → Environment Veth → Outcome (World × Environment Veth) → Type 0
  Detaches key env (returns (w, env')) =
      (job : Bytes)
      → is_service_deployed job env'
        ≡ any (is_named job) (delete_service key (current env.deployed_services))
  Detaches key env panic = ⊥

  deleted :
      (key : Bytes) (env env' : Environment Veth)
      → env'.deployed_services ≡ delete_service key env.deployed_services
      → (job : Bytes)
      → is_service_deployed job env'
        ≡ any (is_named job) (delete_service key (current env.deployed_services))
  deleted key env env' e job =
      ap (λ m. any (is_named job) (current m)) e
      ∙ ap (λ m. any (is_named job) m) (delete-current key env.deployed_services)

  detach_container-Detaches :
      (w : World) (env : Environment Veth) (sname : Bytes) (number : ℤ)
      → Detaches (y.service_key sname number) env (detach_container y w env sname number)
  unfolding detach_container
  detach_container-Detaches w env sname number =
      let key = y.service_key sname number in
      elim (Option-cases (get_service key env.deployed_services)) [
        | inl h ↦
            rw (h, detach_container)
              (deleted key env env (sym (delete_absent key env.deployed_services h)))
        | inr (s, h) ↦
            let (table, err, e) = remove_by_nsip_returns env.translation_table s.ip in
            let removed = record env {
              translation_table = table;
              deployed_services = delete_service key env.deployed_services;
            } in
            let freed = free_container_address (free_container_address removed s.ip) s.ipv6 in
            let gone : freed.deployed_services ≡ delete_service key env.deployed_services =
              free-services (free_container_address removed s.ip) s.ipv6
              ∙ free-services removed s.ip in
            let (table', e', p) = remove_by_job_name_lem freed.translation_table sname in
            let w' =
              y.link_del s.veth
                (y.close_ports s.ipv6 s.portmapping (y.close_ports s.ip s.portmapping w)) in
            elim (Bool-cases (y.is_interest_registered w' sname)) [
              | inl i ↦ rw (h, detach_container) (rw (e) (rw (i) (deleted key env freed gone)))
              | inr i ↦
                  rw (h, detach_container)
                    (rw (e) (
                      rw (i) (
                        rw (e')
                          (deleted key env (record freed { translation_table = table' }) gone))))
            ]
      ]

  -- If `DeployNetwork` returns addresses, the service is deployed by `IsServiceDeployed`; if it returns
  -- an error, the same services are deployed as before. `DetachContainer` does not panic, and after it a
  -- service is deployed exactly when an instance other than the detached one has its name.
  pub deploy_network-detach_container :
      (w : World) (env : Environment Veth) (pid : ℤ) (sname : Bytes) (number : ℤ) (ports : Bytes)
      → Deploys sname env (deploy_network y w env pid sname number ports)
        × Detaches (y.service_key sname number) env (detach_container y w env sname number)
  deploy_network-detach_container w env pid sname number ports = (
    deploy_network-Deploys w env pid sname number ports,
    detach_container-Detaches w env sname number,
  )
