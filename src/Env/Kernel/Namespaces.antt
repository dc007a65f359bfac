-- ===== src/Env/Kernel/Namespaces.antt =====
-- The network namespace of the thread, around the calls that run in the namespace of a container.
use oakestra_net.Base.{
  ◌≡◌, inl, inr, refl, ◌∙◌, Bool, Bool-cases, Option-cases, Option, some, Bytes, codes,
}
use oakestra_net.Base.Int.{ℤ}
use oakestra_net.Env.Kernel.{
  Configuration, Netlink, exec_inside, set_address, dad_commands, add_route, add_peer_link_network,
  add_peer_link_network_by_ns_name, disable_dad, set_container_routes, set_ipv6_container_routes,
}

-- What is documented of `netns`: `Get` returns the thread's namespace and changes nothing, finding a
-- namespace and closing a handle leave the thread where it is, and a change back to a namespace
-- that `Get` returned brings the thread there.
pub record NamespaceLaws (k : Netlink) : Type 0 where
  pub current : k.World → k.Ns
  pub get_keeps : (w : k.World) → current (k.netns_get w).0 ≡ current w
  pub get_current : (w : k.World) (s : k.Ns) → (k.netns_get w).1 ≡ some s → s ≡ current w
  pub pid_keeps : (p : ℤ) (w : k.World) → current (k.get_from_pid p w).0 ≡ current w
  pub name_keeps : (s : Bytes) (w : k.World) → current (k.get_from_name s w).0 ≡ current w
  pub close_keeps : (s : k.Ns) (w : k.World) → current (k.close_ns s w) ≡ current w
  pub set_back :
      (w v : k.World) (s : k.Ns) → (k.netns_get w).1 ≡ some s → current (k.netns_set s v).0 ≡ s

module _ (k : Netlink) (l : NamespaceLaws k) where
  pub exec_inside-current :
      (find_ns : k.World → k.World × Option k.Ns)
      (keeps : (w : k.World) → l.current (find_ns w).0 ≡ l.current w)
      (function : k.World → k.World × Bool) (w : k.World)
      → l.current (exec_inside k find_ns function w).0 ≡ l.current w
  unfolding exec_inside
  exec_inside-current find_ns keeps function w = elim (Option-cases (k.netns_get w).1) [
    | inl e ↦ rw (e, exec_inside) (l.get_keeps w)
    | inr (s, e) ↦
        let (w2, found) = find_ns (k.netns_get w).0 in
        elim (Option-cases found) [
          | inl f ↦
              rw (e, exec_inside)
                (rw (f) (l.close_keeps s w2 ∙ keeps (k.netns_get w).0 ∙ l.get_keeps w))
          | inr (ns, f) ↦
              let (w3, failed) = k.netns_set ns w2 in
              elim (Bool-cases failed) [
                | inl t ↦
                    rw (e, exec_inside)
                      (rw (f)
                        (rw (t) (l.close_keeps s _ ∙ l.set_back w w3 s e ∙ l.get_current w s e)))
                | inr t ↦
                    rw (e, exec_inside)
                      (rw (f) (
                        rw (t) (
                          l.close_keeps s _
                          ∙ l.set_back w (function w3).0 s e
                          ∙ l.get_current w s e)))
              ]
        ]
  ]

  -- Where netns does what it documents, and a change back to a namespace where the thread was
  -- succeeds: after each of the functions that work in another namespace, found by the process or
  -- by its name, the thread is in the namespace where it was before, on every error path as well.
  pub operations-current :
      (c : Configuration) (pid : ℤ) (ns_name text name : Bytes) (w : k.World)
      → (l.current (add_peer_link_network k pid text name w).0 ≡ l.current w)
        × (l.current (add_peer_link_network_by_ns_name k ns_name text name w).0 ≡ l.current w)
        × (l.current (disable_dad k pid name w).0 ≡ l.current w)
        × (l.current (set_container_routes k c pid name w).0 ≡ l.current w)
        × (l.current (set_ipv6_container_routes k c pid name w).0 ≡ l.current w)
  unfolding add_peer_link_network add_peer_link_network_by_ns_name disable_dad set_container_routes
      set_ipv6_container_routes
  operations-current c pid ns_name text name w = (
    elim (Option-cases (k.parse_addr text)) [
      | inl e ↦ rw (e, add_peer_link_network) refl
      | inr (a, e) ↦
          rw (e, add_peer_link_network)
            (exec_inside-current (k.get_from_pid pid) (l.pid_keeps pid) (set_address k a name) w)
    ],
    elim (Option-cases (k.parse_addr text)) [
      | inl e ↦ rw (e, add_peer_link_network_by_ns_name) refl
      | inr (a, e) ↦
          rw (e, add_peer_link_network_by_ns_name)
            (exec_inside-current (k.get_from_name ns_name) (l.name_keeps ns_name)
              (set_address k a name) w)
    ],
    exec_inside-current (k.get_from_pid pid) (l.pid_keeps pid) (dad_commands k name) w,
    exec_inside-current (k.get_from_pid pid) (l.pid_keeps pid)
        (add_route k (codes "0.0.0.0/0") c.host_bridge_ip name) w,
    exec_inside-current (k.get_from_pid pid) (l.pid_keeps pid)
        (add_route k (codes "::/0") c.host_bridge_ipv6 name) w,
  )
