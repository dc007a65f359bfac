-- ===== src/Server/Listen.antt =====
-- The two stages of node-net-manager/server/server.go: a server for the registration alone, and after it
-- the one with all routes. The listeners of `net` and the servers of `net/http` are the parameter
-- `Listeners`.
use oakestra_net.Base.{
  zero, suc, Bool, true, false, List, [], ◌∷◌, ◌++◌, Bytes, codes, Outcome, returns, panic, ◌>>=◌,
}
use oakestra_net.Base.Int.{ℤ, pos, negsuc}
use oakestra_net.Handlers.Dispatcher.{
  Runtime, Managers, ManagerConfiguration, no_managers, register_all_managers,
}
use oakestra_net.Server.{Boot, Server, Input, Reply, status, no_answer, ended, serve}

-- Why `Serve` returned.
pub data ServeEnd : Type 0 where
  server_closed other_error : ServeEnd

pub record Listeners (W : Type 0) : Type 1 where
  -- `os.Remove`, whose error is dropped.
  pub remove_file : Bytes → W → W
  -- `net.Listen` for a network and an address, with whether there is an error.
  pub listen : Bytes → Bytes → W → W × Bool
  -- `fmt.Sprintf("%d", port)`.
  pub port_text : ℤ → Bytes

abbrev pub socket_path : Bytes
socket_path = codes "/etc/netmanager/netmanager.sock"

abbrev pub listening : {W : Type 0} → W × Bool → Outcome W
listening (w, true) = panic
listening (w, false) = returns w

-- `createListener`, on the Unix socket for a port that is not positive.
unfoldable pub create_listener : {W : Type 0} → Listeners W → ℤ → W → Outcome W
create_listener l (pos zero) w =
    listening (l.listen (codes "unix") socket_path (l.remove_file socket_path w))
create_listener l (pos (suc n)) w =
    listening (l.listen (codes "tcp") (codes ":" ++ l.port_text (pos (suc n))) w)
create_listener l (negsuc n) w =
    listening (l.listen (codes "unix") socket_path (l.remove_file socket_path w))

-- The process ended while the inputs came.
abbrev pub has_ended : List Reply → Bool
has_ended [] = false
has_ended (ended ∷ rs) = true
has_ended (status n ∷ rs) = has_ended rs
has_ended (no_answer ∷ rs) = has_ended rs

-- `HandleRequests` up to the start of the second server: the first one gets the inputs and ends. The
-- last `Serve` never returns without an error, which ends the process.
unfoldable pub handle_requests :
    (b : Boot)
    → Listeners b.World
    → ℤ
    → List Input
    → ServeEnd
    → List Runtime
    → Server b.World b.Veth
    → Outcome (Server b.World b.Veth × Managers)
handle_requests b l port inputs other_error order s = create_listener l port s.world >>= λ w. panic
handle_requests b l port inputs server_closed order s = create_listener l port s.world >>= λ w.
    let (s', replies) = serve b inputs (record s { world = w }) in
    let c : ManagerConfiguration = record {
      public_address = s'.net_config.node_public_address;
      public_port = s'.net_config.node_public_port;
    } in
    elim (has_ended replies) [
      | true ↦ panic
      | false ↦ create_listener l port s'.world >>= λ w'.
          returns (record s' { world = w' }, register_all_managers order c no_managers)
    ]
