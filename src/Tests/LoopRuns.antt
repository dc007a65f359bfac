-- ===== src/Tests/LoopRuns.antt =====
-- The goroutines of the tunnel: a message that is read and handled, one that comes back from this node,
-- two errors of the socket that nobody takes, and a stop message.
use oakestra_net.Base.{◌≡◌, refl, true, false, some, List, [], ◌∷◌}
use oakestra_net.Tunnel.Loops.{
  Direction, outgoing, ingoing, reading, reporting, passing, finishing, device, local, Move, begins,
  reads, fails, puts, loops_back, handles, passes, stops, Loops, new_loops, run,
}
use oakestra_net.Tunnel.Loops.Runs.{AreKept, HearsOrIsDeaf, run-AreKept}

abbrev moves : List (Direction × Move)
moves =
    (outgoing, begins)
    ∷ (ingoing, begins)
    ∷ (ingoing, reads (7 ∷ []))
    ∷ (ingoing, puts)
    ∷ (ingoing, loops_back (8 ∷ []))
    ∷ (ingoing, handles)
    ∷ (ingoing, fails)
    ∷ (ingoing, passes)
    ∷ (ingoing, fails)
    ∷ (outgoing, stops true)
    ∷ []

abbrev deaf : Loops
deaf = record {
  outgoing_line = record {
    reader = reading;
    listener = finishing;
    channel = [];
    device_open = true;
    received = [];
    put = [];
    handled = [];
    failures = 0;
    taken = 0;
  };
  ingoing_line = record {
    reader = reporting;
    listener = passing;
    channel = local (8 ∷ []) ∷ [];
    device_open = true;
    received = (7 ∷ []) ∷ [];
    put = device (7 ∷ []) ∷ local (8 ∷ []) ∷ [];
    handled = device (7 ∷ []) ∷ [];
    failures = 2;
    taken = 0;
  };
  is_listening = false;
  stop_messages = 1;
}

run_moves : run moves new_loops ≡ some deaf
unfolding run
run_moves = refl

run-AreKept_example :
    AreKept deaf
    × HearsOrIsDeaf outgoing deaf.outgoing_line
    × HearsOrIsDeaf ingoing deaf.ingoing_line
run-AreKept_example = run-AreKept moves deaf run_moves
