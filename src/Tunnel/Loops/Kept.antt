-- ===== src/Tunnel/Loops/Kept.antt =====
-- A move in one direction of the tunnel keeps its order and its account of errors,
-- node-net-manager/proxy/ProxyTunnel.go.
use oakestra_net.Base.{
  ◌+◌, ◌≡◌, refl, sym, ap, ◌∙◌, Bool, true, false, [], ◌∷◌, ◌++◌, Bytes, append-nil, arith,
  Bool-cases, inl, inr,
}
use oakestra_net.Tunnel.Loops.{
  Direction, Reader, absent, reading, sending, reporting, Listener, starting, listening, passing,
  finishing, ended, Line, Move, begins, reads, fails, puts, loops_back, handles, passes, stops,
  error_taken, finish_taken, closed_by, begin, read_device, fail_device, pass_error, stop,
  take_error, take_finish, line_move,
}
use oakestra_net.Tunnel.Loops.Order.{
  IsKept, Keeps, held, from_device, send_message-Keeps, forward_locally-Keeps, take_message-Keeps,
}

begin-Keeps : (p : Listener) (l : Line) → l.listener ≡ p → IsKept l → Keeps (begin p l)
unfolding begin
begin-Keeps starting l e v =
    let r : l.reader ≡ absent = v.begun e in
    record {
      order = v.order;
      all_read = rw (r) at v.all_read;
      room = v.room;
      errors = rw (e) at (rw (r) at v.errors);
      begun = λ h. cc;
    }
begin-Keeps _ l e v = tt

read_device-Keeps :
    (r : Reader) (b : Bytes) (l : Line) → l.reader ≡ r → IsKept l → Keeps (read_device r b l)
unfolding read_device
read_device-Keeps reading b l e v = elim (Bool-cases l.device_open) [
  | inr f ↦ rw (f) tt
  | inl t ↦ rw (t) (record {
    order = v.order;
    all_read =
        ap (λ bs. bs ++ b ∷ []) (sym (append-nil (from_device l.put)) ∙ (rw (e) at v.all_read));
    room = v.room;
    errors = ground (arith, rw (e) at v.errors);
    begun = λ h. let a : l.reader ≡ absent = v.begun h in cc;
  })
]
read_device-Keeps _ b l e v = tt

fail_device-Keeps :
    (r : Reader) (p : Listener) (l : Line)
    → l.reader ≡ r
    → l.listener ≡ p
    → IsKept l
    → Keeps (fail_device r l)
unfolding fail_device
fail_device-Keeps reading p l e q v = record {
  order = v.order;
  all_read = rw (e) at v.all_read;
  room = v.room;
  errors = failed p (rw (q) at (rw (e) at v.errors)) q;
  begun = λ h. let a : l.reader ≡ absent = v.begun h in cc;
}
  where
    failed :
        (p : Listener)
        → l.failures ≡ l.taken + held reading p
        → l.listener ≡ p
        → l.failures + 1 ≡ l.taken + held reporting l.listener
    failed starting h q = rw (q) (omega arith)
    failed listening h q = rw (q) (omega arith)
    failed passing h q = rw (q) (omega arith)
    failed finishing h q = rw (q) (omega arith)
    failed ended h q = rw (q) (omega arith)
fail_device-Keeps _ p l e q v = tt

pass_error-Keeps :
    (r : Reader) (p : Listener) (l : Line)
    → l.reader ≡ r
    → l.listener ≡ p
    → IsKept l
    → Keeps (pass_error r p l)
unfolding pass_error
pass_error-Keeps reporting listening l e q v = record {
  order = v.order;
  all_read = rw (e) at v.all_read;
  room = v.room;
  errors = rw (q) at (rw (e) at v.errors);
  begun = λ h. cc;
}
pass_error-Keeps _ _ l e q v = tt

stopped_listening :
    (l : Line) (open_after : Bool)
    → l.listener ≡ listening
    → IsKept l
    → IsKept (record l { listener = finishing; device_open = open_after })
stopped_listening l open_after q v = record {
  order = v.order;
  all_read = v.all_read;
  room = v.room;
  errors = quiet l.reader (rw (q) at v.errors);
  begun = λ h. cc;
}
  where
    quiet :
        (r : Reader)
        → l.failures ≡ l.taken + held r listening
        → l.failures ≡ l.taken + held r finishing
    quiet absent h = h
    quiet reading h = h
    quiet (sending b) h = h
    quiet reporting h = h

stop-Keeps :
    (d : Direction) (b : Bool) (p : Listener) (l : Line)
    → l.listener ≡ p
    → IsKept l
    → Keeps (stop d b p l)
unfolding stop
stop-Keeps d true listening l q v = stopped_listening l (closed_by d l.device_open) q v
stop-Keeps d false listening l q v = v
stop-Keeps d b _ l q v = tt

take_error-Keeps : (p : Listener) (l : Line) → l.listener ≡ p → IsKept l → Keeps (take_error p l)
unfolding take_error
take_error-Keeps passing l q v = record {
  order = v.order;
  all_read = v.all_read;
  room = v.room;
  errors = released l.reader (rw (q) at v.errors);
  begun = λ h. cc;
}
  where
    released :
        (r : Reader)
        → l.failures ≡ l.taken + held r passing
        → l.failures ≡ l.taken + 1 + held r listening
    released absent h = omega arith
    released reading h = omega arith
    released (sending b) h = omega arith
    released reporting h = omega arith
take_error-Keeps _ l q v = tt

take_finish-Keeps : (p : Listener) (l : Line) → l.listener ≡ p → IsKept l → Keeps (take_finish p l)
unfolding take_finish
take_finish-Keeps finishing l q v = record {
  order = v.order;
  all_read = v.all_read;
  room = v.room;
  errors = quiet l.reader (rw (q) at v.errors);
  begun = λ h. cc;
}
  where
    quiet :
        (r : Reader) → l.failures ≡ l.taken + held r finishing → l.failures ≡ l.taken + held r ended
    quiet absent h = h
    quiet reading h = h
    quiet (sending b) h = h
    quiet reporting h = h
take_finish-Keeps _ l q v = tt

pub line_move-Keeps : (d : Direction) (m : Move) (l : Line) → IsKept l → Keeps (line_move d m l)
unfolding line_move
line_move-Keeps d begins l v = begin-Keeps l.listener l refl v
line_move-Keeps d (reads b) l v = read_device-Keeps l.reader b l refl v
line_move-Keeps d fails l v = fail_device-Keeps l.reader l.listener l refl refl v
line_move-Keeps d puts l v = send_message-Keeps l.reader l.listener l refl refl v
line_move-Keeps d (loops_back b) l v = forward_locally-Keeps d b l v
line_move-Keeps d handles l v = take_message-Keeps l.listener l.channel l refl v
line_move-Keeps d passes l v = pass_error-Keeps l.reader l.listener l refl refl v
line_move-Keeps d (stops b) l v = stop-Keeps d b l.listener l refl v
line_move-Keeps d error_taken l v = take_error-Keeps l.listener l refl v
line_move-Keeps d finish_taken l v = take_finish-Keeps l.listener l refl v
