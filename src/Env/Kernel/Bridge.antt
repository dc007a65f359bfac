-- ===== src/Env/Kernel/Bridge.antt =====
-- The bridge of a node, node-net-manager/env/EnvironmentManager.go.
use oakestra_net.Base.{Bool, true, false, none, some, List, [], ◌∷◌, ◌++◌, Bytes, ◌=ᵇ◌, codes}
use oakestra_net.Env.Deployment.{try_all}
use oakestra_net.Env.Kernel.{Configuration, Netlink}

module _ (k : Netlink) (c : Configuration) where
  open k use {World, link_del_named, run_command, interfaces, itoa}

  abbrev pub destroy : World → World
  destroy w = link_del_named c.host_bridge_name w

  -- The loop over the interfaces.
  abbrev pub destroy_each : List Bytes → World → World
  destroy_each [] w = w
  destroy_each (name ∷ names) w = elim (name =ᵇ c.host_bridge_name) [
    | true ↦ destroy_each names (destroy w)
    | false ↦ destroy_each names w
  ]

  unfoldable pub create_host_bridge : World → World × Bool
  create_host_bridge w = elim (interfaces w) [
    | none ↦ (w, true)
    | some devices ↦
        try_all
          (run_command (
              codes "ip"
              ∷ codes "link"
              ∷ codes "add"
              ∷ codes "name"
              ∷ c.host_bridge_name
              ∷ codes "mtu"
              ∷ itoa c.mtusize
              ∷ codes "type"
              ∷ codes "bridge"
              ∷ [])
            ∷ run_command (
                codes "ip"
                ∷ codes "a"
                ∷ codes "add"
                ∷ (c.host_bridge_ip ++ c.host_bridge_mask)
                ∷ codes "dev"
                ∷ c.host_bridge_name
                ∷ [])
            ∷ run_command (
                codes "ip"
                ∷ codes "a"
                ∷ codes "add"
                ∷ (c.host_bridge_ipv6 ++ c.host_bridge_ipv6_prefix)
                ∷ codes "dev"
                ∷ c.host_bridge_name
                ∷ [])
            ∷ run_command (
                codes "ip"
                ∷ codes "link"
                ∷ codes "set"
                ∷ codes "dev"
                ∷ c.host_bridge_name
                ∷ codes "up"
                ∷ [])
            ∷ [])
          (destroy_each devices w)
  ]
