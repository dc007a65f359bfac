-- ===== src/Env/Deployment.antt =====
-- node-net-manager/env/ContainerNetDeployment.go: the network of a container, set up and taken
-- down. What configures the links of the kernel, and `ManageContainerPorts` with its packet filter,
-- are operations of the parameter `System`, whose `World` is the state of the machine; a result
-- `true` stands for an error.
pub mod Allocation
pub mod Detachment
use oakestra_net.Base.{
  ℕ, ◌+◌, ◌≡◌, Bool, true, false, not, Option, none, some, List, [], ◌∷◌, Bytes, ◌=ᵇ◌, filter,
  Outcome, returns, panic, ◌>>=◌,
}
use oakestra_net.Base.Int.{ℤ}
use oakestra_net.Net.{Ip}
use oakestra_net.Table.{TableManager, remove_by_nsip, remove_by_job_name}
use oakestra_net.Env.{
  Environment, Service, generate_address, generate_ipv6_address, free_container_address,
  book_veth_number,
}

pub record System : Type 1 where
  pub World : Type 0
  pub Veth : Type 0
  -- `createVethsPairAndAttachToBridge`, for the next veth number; the pair is nil on an error.
  pub create_veths_pair : World → ℕ → Bytes → World × Veth × Bool
  -- `netlink.LinkDel`, whose error is dropped.
  pub link_del : Veth → World → World
  -- `LinkByName` of the pair's peer, and `LinkSetNsPid` of what it found.
  pub Peer : Type 0
  pub link_by_name : Veth → World → World × Option Peer
  pub link_set_ns_pid : Peer → ℤ → World → World × Bool
  -- `ip.String()` with the mask of the bridge, and with its prefix for IPv6.
  pub address_text : Ip → Bytes
  pub address_text_v6 : Ip → Bytes
  pub add_peer_link_network : ℤ → Bytes → Veth → World → World × Bool
  pub disable_dad : ℤ → Veth → World → World × Bool
  pub set_container_routes : ℤ → Veth → World → World × Bool
  pub set_ipv6_container_routes : ℤ → Veth → World → World × Bool
  pub set_veth_firewall_rules : Veth → World → World × Bool
  -- `ManageContainerPorts` with `OpenPorts` and with `ClosePorts`.
  pub open_ports : Ip → Bytes → World → World × Bool
  pub close_ports : Ip → Bytes → World → World
  -- `fmt.Sprintf("%s.%d", sname, instance)`.
  pub service_key : Bytes → ℤ → Bytes
  -- `mqtt.MqttIsInterestRegistered`.
  pub is_interest_registered : World → Bytes → Bool

-- A system where every veth pair can be made.
abbrev pub MakesPairs : System → Type 0
MakesPairs y =
    (w : y.World) (number : ℕ) (sname : Bytes) → (y.create_veths_pair w number sname).2 ≡ false

-- Steps one after the other up to the first that fails.
unfoldable pub try_all {ℓ} : {W : Type ℓ} → List (W → W × Bool) → W → W × Bool
try_all [] w = (w, false)
try_all (step ∷ steps) w =
    let (w', failed) = step w in elim failed [ true ↦ (w', true) | false ↦ try_all steps w' ]

-- `m[k]` and `delete(m, k)` for a map; a write puts the new pair in front.
abbrev pub get_service : {V : Type 0} → Bytes → List (Bytes × Service V) → Option (Service V)
get_service k [] = none
get_service k ((j, s) ∷ m) =
    let rest = get_service k m in elim (j =ᵇ k) [ true ↦ some s | false ↦ rest ]

abbrev pub delete_service :
    {V : Type 0} → Bytes → List (Bytes × Service V) → List (Bytes × Service V)
delete_service k m = filter (λ (j, s). not (j =ᵇ k)) m

-- The part of `DeployNetwork` that generates both addresses; the first is given back if there is none
-- of the second version.
unfoldable pub allocate : {V : Type 0} → Environment V → Outcome (Environment V × Option (Ip × Ip))
allocate env = generate_address env >>= λ (env1, ip). elim ip [
  | none ↦ returns (env1, none)
  | some a ↦ generate_ipv6_address env1 >>= λ (env2, ipv6). elim ipv6 [
    | none ↦ returns (free_container_address env2 a, none)
    | some b ↦ returns (env2, some (a, b))
  ]
]

module _ (y : System) where
  open y use {
    World, Veth, create_veths_pair, link_del, link_by_name, link_set_ns_pid, address_text,
    address_text_v6, add_peer_link_network, disable_dad, set_container_routes,
    set_ipv6_container_routes, set_veth_firewall_rules, open_ports, close_ports, service_key,
    is_interest_registered,
  }

  -- The calls of `DeployNetwork` in their order: before the addresses are known, up to
  -- `BookVethNumber`, and after it.
  unfoldable pub attach : ℤ → Veth → World → World × Bool
  attach pid veth w =
      let (w', peer) = link_by_name veth w in
      elim peer [ none ↦ (w', true) | some p ↦ link_set_ns_pid p pid w' ]

  abbrev pub link_steps : ℤ → Veth → Ip → Ip → List (World → World × Bool)
  link_steps pid veth ip ipv6 =
      add_peer_link_network pid (address_text ip) veth
      ∷ disable_dad pid veth
      ∷ add_peer_link_network pid (address_text_v6 ipv6) veth
      ∷ set_container_routes pid veth
      ∷ set_ipv6_container_routes pid veth
      ∷ []

  abbrev pub rule_steps : Bytes → Veth → Ip → Ip → List (World → World × Bool)
  rule_steps portmapping veth ip ipv6 =
      set_veth_firewall_rules veth ∷ open_ports ip portmapping ∷ open_ports ipv6 portmapping ∷ []

  -- The error path with both addresses: the pair is removed and they are given back.
  abbrev pub undo :
      World → Environment Veth → Veth → Ip → Ip → World × Environment Veth × Option (Ip × Ip)
  undo w env veth ip ipv6 =
      (link_del veth w, free_container_address (free_container_address env ip) ipv6, none)

  abbrev pub record_service :
      Environment Veth → Bytes → ℤ → Bytes → Veth → Ip → Ip → Environment Veth
  record_service env sname instance portmapping veth ip ipv6 = record env {
    deployed_services =
        (
          service_key sname instance,
          record { ip = ip; ipv6 = ipv6; sname = sname; portmapping = portmapping; veth = veth },
        )
        ∷ env.deployed_services;
  }

  -- `DeployNetwork` from the point where both addresses are known.
  unfoldable pub configure :
      World
      → Environment Veth
      → ℤ
      → Bytes
      → ℤ
      → Bytes
      → Veth
      → Ip
      → Ip
      → World × Environment Veth × Option (Ip × Ip)
  configure w env pid sname instance portmapping veth ip ipv6 =
      let (w1, failed) = try_all (link_steps pid veth ip ipv6) w in
      elim failed [
        | true ↦ undo w1 env veth ip ipv6
        | false ↦
            let booked = book_veth_number env in
            let (w2, failed') = try_all (rule_steps portmapping veth ip ipv6) w1 in
            elim failed' [
              | true ↦ undo w2 booked veth ip ipv6
              | false ↦ (
                w2,
                record_service booked sname instance portmapping veth ip ipv6,
                some (ip, ipv6),
              )
            ]
      ]

  -- The pair could not be made for the next service.
  abbrev pub lacks_pair : World → Environment Veth → Bytes → Bool
  lacks_pair w env sname = (create_veths_pair w env.next_veth_number sname).2

  -- `DeployNetwork`: the addresses of the container, or `none` for an error. Where there is no pair, the
  -- goroutine that cleans up passes the nil pair to `LinkDel`, which reads its attributes: the process
  -- ends.
  unfoldable pub deploy_network :
      World
      → Environment Veth
      → ℤ
      → Bytes
      → ℤ
      → Bytes
      → Outcome (World × Environment Veth × Option (Ip × Ip))
  unfolding configure attach
  deploy_network w env pid sname instance portmapping =
      let (w1, veth, no_pair) = create_veths_pair w env.next_veth_number sname in
      elim no_pair [
        | true ↦ panic
        | false ↦
            let (w2, failed) = attach pid veth w1 in
            elim failed [
              | true ↦ returns (link_del veth w2, env, none)
              | false ↦ allocate env >>= λ (env', addresses). elim addresses [
                | none ↦ returns (link_del veth w2, env', none)
                | some (a, b) ↦ returns (configure w2 env' pid sname instance portmapping veth a b)
              ]
            ]
      ]

  -- `DetachContainer`; nothing happens for a service that is not deployed.
  unfoldable pub detach_container :
      World → Environment Veth → Bytes → ℤ → Outcome (World × Environment Veth)
  detach_container w env sname instance =
      elim (get_service (service_key sname instance) env.deployed_services) [
        | none ↦ returns (w, env)
        | some s ↦ remove_by_nsip env.translation_table s.ip >>= λ (table, err).
            let removed = record env {
              translation_table = table;
              deployed_services = delete_service (service_key sname instance) env.deployed_services;
            } in
            let freed = free_container_address (free_container_address removed s.ip) s.ipv6 in
            let w' =
              link_del s.veth
                (close_ports s.ipv6 s.portmapping (close_ports s.ip s.portmapping w)) in
            elim (is_interest_registered w' sname) [
              | true ↦ returns (w', freed)
              | false ↦ remove_by_job_name freed.translation_table sname >>= λ (table', err').
                  returns (w', record freed { translation_table = table' })
            ]
      ]
