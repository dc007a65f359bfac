-- ===== src/Tunnel/Loops/Stops.antt =====
-- How many listeners a stop message ends, node-net-manager/proxy/ProxyTunnel.go.
use oakestra_net.Base.{
  ℕ, ◌+◌, ◌≡◌, refl, Bool, true, false, Option, none, some, List, [], ◌∷◌, Bytes, length, ltb,
  arith, Bool-cases, inl, inr,
}
use oakestra_net.Tunnel.Loops.{
  Direction, outgoing, ingoing, Reader, reading, sending, reporting, Listener, starting, listening,
  passing, finishing, ended, Message, Line, Move, begins, reads, fails, puts, loops_back, handles,
  passes, stops, error_taken, finish_taken, channel_size, begin, read_device, fail_device,
  send_message, forward_locally, take_message, pass_error, stop, take_error, take_finish, line_move,
  stops_in,
}

-- Whether a listener was stopped.
abbrev pub over : Listener → ℕ
over starting = 0
over listening = 0
over passing = 0
over finishing = 1
over ended = 1

abbrev pub Counts : ℕ → Option Line → Type 0
Counts n none = Unit
Counts n (some l) = over l.listener ≡ n

begin-Counts : (p : Listener) (l : Line) → l.listener ≡ p → Counts (over l.listener + 0) (begin p l)
unfolding begin
begin-Counts starting l q = rw (q) refl
begin-Counts _ l q = tt

read_device-Counts :
    (r : Reader) (b : Bytes) (l : Line) → Counts (over l.listener + 0) (read_device r b l)
unfolding read_device
read_device-Counts reading b l = elim (Bool-cases l.device_open) [
  | inl t ↦ rw (t) (omega arith)
  | inr t ↦ rw (t) tt
]
read_device-Counts _ b l = tt

fail_device-Counts : (r : Reader) (l : Line) → Counts (over l.listener + 0) (fail_device r l)
unfolding fail_device
fail_device-Counts reading l = omega arith
fail_device-Counts _ l = tt

send_message-Counts : (r : Reader) (l : Line) → Counts (over l.listener + 0) (send_message r l)
unfolding send_message
send_message-Counts (sending b) l = elim (Bool-cases (ltb (length l.channel) channel_size)) [
  | inl t ↦ rw (t) (omega arith)
  | inr t ↦ rw (t) tt
]
send_message-Counts _ l = tt

forward_locally-Counts :
    (d : Direction) (b : Bytes) (l : Line) → Counts (over l.listener + 0) (forward_locally d b l)
unfolding forward_locally
forward_locally-Counts outgoing b l = tt
forward_locally-Counts ingoing b l = elim (Bool-cases (ltb (length l.channel) channel_size)) [
  | inl t ↦ rw (t) (omega arith)
  | inr t ↦ rw (t) tt
]

take_message-Counts :
    (p : Listener) (ms : List Message) (l : Line)
    → Counts (over l.listener + 0) (take_message p ms l)
unfolding take_message
take_message-Counts starting ms l = tt
take_message-Counts _ [] l = tt
take_message-Counts _ (m ∷ ms) l = omega arith

pass_error-Counts :
    (r : Reader) (p : Listener) (l : Line)
    → l.listener ≡ p
    → Counts (over l.listener + 0) (pass_error r p l)
unfolding pass_error
pass_error-Counts reporting listening l q = rw (q) refl
pass_error-Counts _ _ l q = tt

stop-Counts :
    (d : Direction) (b : Bool) (p : Listener) (l : Line)
    → l.listener ≡ p
    → Counts (over l.listener + stops_in (stops b)) (stop d b p l)
unfolding stop
stop-Counts d true listening l q = rw (q) refl
stop-Counts d false listening l q = omega arith
stop-Counts d b _ l q = tt

take_error-Counts :
    (p : Listener) (l : Line) → l.listener ≡ p → Counts (over l.listener + 0) (take_error p l)
unfolding take_error
take_error-Counts passing l q = rw (q) refl
take_error-Counts _ l q = tt

take_finish-Counts :
    (p : Listener) (l : Line) → l.listener ≡ p → Counts (over l.listener + 0) (take_finish p l)
unfolding take_finish
take_finish-Counts finishing l q = rw (q) refl
take_finish-Counts _ l q = tt

pub line_move-Counts :
    (d : Direction) (m : Move) (l : Line) → Counts (over l.listener + stops_in m) (line_move d m l)
unfolding line_move
line_move-Counts d begins l = begin-Counts l.listener l refl
line_move-Counts d (reads b) l = read_device-Counts l.reader b l
line_move-Counts d fails l = fail_device-Counts l.reader l
line_move-Counts d puts l = send_message-Counts l.reader l
line_move-Counts d (loops_back b) l = forward_locally-Counts d b l
line_move-Counts d handles l = take_message-Counts l.listener l.channel l
line_move-Counts d passes l = pass_error-Counts l.reader l.listener l refl
line_move-Counts d (stops b) l = stop-Counts d b l.listener l refl
line_move-Counts d error_taken l = take_error-Counts l.listener l refl
line_move-Counts d finish_taken l = take_finish-Counts l.listener l refl
