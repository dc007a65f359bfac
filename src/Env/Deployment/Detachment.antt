-- ===== src/Env/Deployment/Detachment.antt =====
-- What taking a service down gives back, for containers and for unikernels.
use oakestra_net.Base.{
  ℕ, ◌+◌, ◌≤◌, ◌<◌, ◌^◌, ◌≡◌, inl, inr, refl, sym, ap, ◌∙◌, subst, false, Bool-cases, none, some,
  List, [], ◌∷◌, Bytes, ◌=ᵇ◌, =ᵇ_sound, arith, Outcome, returns, panic,
}
use oakestra_net.Base.Int.{ℤ}
use oakestra_net.Net.{Ip, is_nil, to4, to16}
use oakestra_net.Table.{TableManager}
use oakestra_net.Table.Remove.{remove_by_nsip_returns, remove_by_job_name_lem}
use oakestra_net.Env.{Environment, Service, free_container_address}
use oakestra_net.Env.Allocation.{IsAllocated, free4, free6}
use oakestra_net.Env.Deployment.{System, get_service, delete_service, detach_container}

module _ {V : Type 0} where
  pub get_service-delete_service :
      (k : Bytes) (m : List (Bytes × Service V)) → get_service k (delete_service k m) ≡ none
  get_service-delete_service k [] = refl
  get_service-delete_service k ((j, s) ∷ m) = elim (Bool-cases (j =ᵇ k)) [
    | inl t ↦ rw (t) (get_service-delete_service k m)
    | inr f ↦ rw (f, get_service) (rw (f) (get_service-delete_service k m))
  ]

  pub get_service-delete_service_ne :
      (l k : Bytes) (m : List (Bytes × Service V))
      → (k =ᵇ l) ≡ false
      → get_service l (delete_service k m) ≡ get_service l m
  get_service-delete_service_ne l k [] h = refl
  get_service-delete_service_ne l k ((j, s) ∷ m) h = elim (Bool-cases (j =ᵇ k)) [
    | inl t ↦
        let other : (j =ᵇ l) ≡ false = ap (λ x. x =ᵇ l) (=ᵇ_sound j k t) ∙ h in
        rw (t) (rw (other, get_service) (get_service-delete_service_ne l k m h))
    | inr f ↦ ground (arith, f, get_service-delete_service_ne l k m h)
  ]

-- A service is gone, and its addresses are given back; all others are as before.
unfoldable pub IsDetached :
    {W V : Type 0}
    → ℕ
    → ℕ
    → Bytes
    → Bytes
    → List (Bytes × Service V)
    → List Ip
    → List Ip
    → Outcome (W × Environment V)
    → Type 0
IsDetached b4 b6 key other services used4 used6 (returns (w, env)) =
    IsAllocated b4 b6 env used4 used6
    × (get_service key env.deployed_services ≡ none)
    × (get_service other env.deployed_services ≡ get_service other services)
IsDetached b4 b6 key other services used4 used6 panic = ⊥

pub free-services :
    {V : Type 0} (env : Environment V) (a : Ip)
    → (free_container_address env a).deployed_services ≡ env.deployed_services
unfolding free_container_address
free-services env a = elim (Bool-cases (is_nil (to4 a))) [
  | inr f ↦ rw (f) refl
  | inl t ↦ elim (Bool-cases (is_nil (to16 a))) [
    | inl t' ↦ rw (t, t') refl
    | inr f ↦ rw (t, f) refl
  ]
]

module _ (b4 b6 : ℕ) (room4 : b4 + 62 < 2 ^ 32) (global6 : 2 ^ 120 ≤ b6)
    (room6 : b6 + 255 < 2 ^ 128) (y : System) where
  free_both :
      (env : Environment y.Veth) (table : TableManager) (services : List (Bytes × Service y.Veth))
      (s : Service y.Veth) (used4 used6 : List Ip)
      → IsAllocated b4 b6 env (s.ip ∷ used4) (s.ipv6 ∷ used6)
      → IsAllocated b4 b6
          (free_container_address
            (free_container_address
              (record env { translation_table = table; deployed_services = services })
              s.ip)
            s.ipv6)
          used4
          used6
  free_both env table services s used4 used6 v =
      free6 b4 b6 room4 global6 room6 _ s.ipv6 used4 used6 (
        free4 b4 b6 room4 global6 room6 _ s.ip used4 (s.ipv6 ∷ used6)
          (record { v4 = v.v4; v6 = v.v6 }))

  freed-IsDetached :
      (w : y.World) (env : Environment y.Veth) (table table' : TableManager) (key other : Bytes)
      (s : Service y.Veth) (used4 used6 : List Ip)
      → (key =ᵇ other) ≡ false
      → IsAllocated b4 b6 env (s.ip ∷ used4) (s.ipv6 ∷ used6)
      → (freed : Environment y.Veth)
      → freed
        ≡ free_container_address
            (free_container_address
              (record env {
                translation_table = table;
                deployed_services = delete_service key env.deployed_services;
              })
              s.ip)
            s.ipv6
      → IsDetached b4 b6 key other env.deployed_services used4 used6
          (returns (w, record freed { translation_table = table' }))
  unfolding IsDetached
  freed-IsDetached w env table table' key other s used4 used6 o v freed e =
      let a = free_both env table (delete_service key env.deployed_services) s used4 used6 v in
      let services : freed.deployed_services ≡ delete_service key env.deployed_services =
        ap (λ x. x.deployed_services) e ∙ free-services _ s.ipv6 ∙ free-services _ s.ip in
      let b : IsAllocated b4 b6 freed used4 used6 =
        subst (λ x. IsAllocated b4 b6 x used4 used6) (sym e) a in
      (
        record { v4 = b.v4; v6 = b.v6 },
        ap (get_service key) services ∙ get_service-delete_service key env.deployed_services,
        ap (get_service other) services
            ∙ get_service-delete_service_ne other key env.deployed_services o,
      )

  -- With sequences of addresses as for `DeployNetwork`: `DetachContainer` of a service that is deployed
  -- returns without a panic, whether an interest in the service is registered or not. The service's
  -- two addresses are no longer in use and free again, its name is deployed no more, and every other
  -- name has the service it had.
  pub detach_container-IsDetached :
      (w : y.World) (env : Environment y.Veth) (sname : Bytes) (number : ℤ) (s : Service y.Veth)
      (other : Bytes) (used4 used6 : List Ip)
      → get_service (y.service_key sname number) env.deployed_services ≡ some s
      → (y.service_key sname number =ᵇ other) ≡ false
      → IsAllocated b4 b6 env (s.ip ∷ used4) (s.ipv6 ∷ used6)
      → IsDetached b4 b6
          (y.service_key sname number)
          other
          env.deployed_services
          used4
          used6
          (detach_container y w env sname number)
  unfolding detach_container
  detach_container-IsDetached w env sname number s other used4 used6 h o v =
      let key = y.service_key sname number in
      let (table, err, e) = remove_by_nsip_returns env.translation_table s.ip in
      let freed =
        free_container_address
          (free_container_address
            (record env {
              translation_table = table;
              deployed_services = delete_service key env.deployed_services;
            })
            s.ip)
          s.ipv6 in
      let (table', e', p) = remove_by_job_name_lem freed.translation_table sname in
      elim (Bool-cases (
        y.is_interest_registered
          (y.link_del s.veth
            (y.close_ports s.ipv6 s.portmapping (y.close_ports s.ip s.portmapping w)))
          sname)) [
            | inl i ↦
                rw (h, detach_container)
                  (rw (e) (
                    rw (i) (
                      freed-IsDetached _ env table freed.translation_table key other s used4 used6 o
                        v freed refl)))
            | inr i ↦
                rw (h, detach_container)
                  (rw (e) (
                    rw (i) (
                      rw (e') (
                        freed-IsDetached _ env table table' key other s used4 used6 o v freed
                          refl))))
          ]
