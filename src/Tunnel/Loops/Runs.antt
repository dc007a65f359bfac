-- ===== src/Tunnel/Loops/Runs.antt =====
-- Both directions of the tunnel together, node-net-manager/proxy/ProxyTunnel.go.
use oakestra_net.Base.{
  ℕ, ◌+◌, ◌≡◌, ◌≤◌, refl, subst, Bool, true, false, Option, none, some, List, [], ◌∷◌, Bytes, arith,
  Option-cases, inl, inr, ◌⊎◌,
}
use oakestra_net.Tunnel.Loops.{
  Direction, outgoing, ingoing, Reader, absent, reading, sending, reporting, Listener, starting,
  listening, passing, finishing, ended, Line, Move, reads, stops, read_device, stop, line_move,
  stops_in, Loops, move, new_loops, new_line, run, with_outgoing, with_ingoing,
}
use oakestra_net.Tunnel.Loops.Order.{IsKept, Keeps, held}
use oakestra_net.Tunnel.Loops.Kept.{line_move-Keeps}
use oakestra_net.Tunnel.Loops.Stops.{over, Counts, line_move-Counts}

-- Two errors of the device that no client has taken block the reader and the listener.
stuck :
    (r : Reader) (p : Listener) (f t : ℕ)
    → f ≡ t + held r p
    → (f ≤ t + 1) ⊎ ((f ≡ t + 2) × (r ≡ reporting) × (p ≡ passing))
stuck reporting passing f t e = inr (e, refl, refl)
stuck absent passing f t e = inl (omega arith)
stuck absent starting f t e = inl (omega arith)
stuck absent listening f t e = inl (omega arith)
stuck absent finishing f t e = inl (omega arith)
stuck absent ended f t e = inl (omega arith)
stuck reading passing f t e = inl (omega arith)
stuck reading starting f t e = inl (omega arith)
stuck reading listening f t e = inl (omega arith)
stuck reading finishing f t e = inl (omega arith)
stuck reading ended f t e = inl (omega arith)
stuck (sending b) passing f t e = inl (omega arith)
stuck (sending b) starting f t e = inl (omega arith)
stuck (sending b) listening f t e = inl (omega arith)
stuck (sending b) finishing f t e = inl (omega arith)
stuck (sending b) ended f t e = inl (omega arith)
stuck reporting starting f t e = inl (omega arith)
stuck reporting listening f t e = inl (omega arith)
stuck reporting finishing f t e = inl (omega arith)
stuck reporting ended f t e = inl (omega arith)

-- A direction that neither reads another message nor takes a stop message.
abbrev pub IsDeaf : Direction → Line → Type 0
IsDeaf d l =
    ((b : Bytes) → line_move d (reads b) l ≡ none) × ((b : Bool) → line_move d (stops b) l ≡ none)

-- At most one error of a device has not been taken, or there are two and the direction is deaf.
abbrev pub HearsOrIsDeaf : Direction → Line → Type 0
HearsOrIsDeaf d l = (l.failures ≤ l.taken + 1) ⊎ ((l.failures ≡ l.taken + 2) × IsDeaf d l)

line_deaf : (d : Direction) (l : Line) → IsKept l → HearsOrIsDeaf d l
unfolding line_move read_device stop
line_deaf d l v = elim (stuck l.reader l.listener l.failures l.taken v.errors) [
  | inl h ↦ inl h
  | inr (h, r, p) ↦ inr (h, (λ b. rw (r) refl, λ b. stop_waits b p))
]
  where
    stop_waits : (b : Bool) → l.listener ≡ passing → line_move d (stops b) l ≡ none
    stop_waits true p = rw (p) refl
    stop_waits false p = rw (p) refl

pub record AreKept (s : Loops) : Type 0 where
  pub outgoing_kept : IsKept s.outgoing_line
  pub ingoing_kept : IsKept s.ingoing_line
  pub stopped : s.stop_messages ≡ over s.outgoing_line.listener + over s.ingoing_line.listener

abbrev AllKept : Option Loops → Type 0
AllKept none = Unit
AllKept (some s) = AreKept s

new_line-IsKept : IsKept new_line
new_line-IsKept = record {
  order = refl;
  all_read = refl;
  room = omega arith;
  errors = refl;
  begun = λ h. refl;
}

new_loops-AreKept : AreKept new_loops
new_loops-AreKept = record {
  outgoing_kept = new_line-IsKept;
  ingoing_kept = new_line-IsKept;
  stopped = refl;
}

with_outgoing-AllKept :
    (m : Move) (s : Loops) (o : Option Line)
    → AreKept s
    → Keeps o
    → Counts (over s.outgoing_line.listener + stops_in m) o
    → AllKept (with_outgoing m s o)
with_outgoing-AllKept m s none v k c = tt
with_outgoing-AllKept m s (some l) v k c = record {
  outgoing_kept = k;
  ingoing_kept = v.ingoing_kept;
  stopped = let e = v.stopped in omega arith;
}

with_ingoing-AllKept :
    (m : Move) (s : Loops) (o : Option Line)
    → AreKept s
    → Keeps o
    → Counts (over s.ingoing_line.listener + stops_in m) o
    → AllKept (with_ingoing m s o)
with_ingoing-AllKept m s none v k c = tt
with_ingoing-AllKept m s (some l) v k c = record {
  outgoing_kept = v.outgoing_kept;
  ingoing_kept = k;
  stopped = let e = v.stopped in omega arith;
}

move-AllKept : (d : Direction) (m : Move) (s : Loops) → AreKept s → AllKept (move d m s)
unfolding move
move-AllKept outgoing m s v =
    with_outgoing-AllKept m s _ v (line_move-Keeps outgoing m s.outgoing_line v.outgoing_kept)
      (line_move-Counts outgoing m s.outgoing_line)
move-AllKept ingoing m s v =
    with_ingoing-AllKept m s _ v (line_move-Keeps ingoing m s.ingoing_line v.ingoing_kept)
      (line_move-Counts ingoing m s.ingoing_line)

run-AllKept : (ms : List (Direction × Move)) (s : Loops) → AreKept s → AllKept (run ms s)
unfolding run
run-AllKept [] s v = v
run-AllKept ((d, m) ∷ ms) s v = elim (Option-cases (move d m s)) [
  | inl e ↦ rw (e, run) tt
  | inr (s', e) ↦
      let v' : AreKept s' = subst (λ o. AllKept o) e (move-AllKept d m s v) in
      rw (e, run) (run-AllKept ms s' v')
]

-- Whatever the goroutines of the tunnel do after `Listen`, in any order: the messages of a direction are
-- handled in the order in which they were put into its channel, none lost or repeated, the messages of
-- the device are put there in the order in which they were read, and at most 1000 wait. As many
-- listeners have left their loop as stop messages were taken, so that one message does not stop the
-- tunnel. At most two errors of a device have not been taken from the error channel, and once there are
-- two, its direction neither reads another message nor takes a stop message.
pub run-AreKept :
    (ms : List (Direction × Move)) (s : Loops)
    → run ms new_loops ≡ some s
    → AreKept s × HearsOrIsDeaf outgoing s.outgoing_line × HearsOrIsDeaf ingoing s.ingoing_line
run-AreKept ms s e =
    let v : AreKept s = subst (λ o. AllKept o) e (run-AllKept ms new_loops new_loops-AreKept) in
    (
      v,
      line_deaf outgoing s.outgoing_line v.outgoing_kept,
      line_deaf ingoing s.ingoing_line v.ingoing_kept,
    )
