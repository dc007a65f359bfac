-- ===== src/Tunnel/Loops/Order.antt =====
-- The order in which the messages of a direction are read and handled, node-net-manager/proxy/ProxyTunnel.go.
use oakestra_net.Base.{
  ℕ, ◌+◌, ◌≡◌, ◌≤◌, refl, sym, ap, ◌∙◌, true, Option, none, some, List, [], ◌∷◌, ◌++◌, Bytes,
  length, length-append, append_assoc, append-nil, ltb, arith, Bool-cases, inl, inr,
}
use oakestra_net.Tunnel.Loops.{
  Direction, outgoing, ingoing, Reader, absent, reading, sending, reporting, Listener, starting,
  listening, passing, finishing, ended, device, local, Message, Line, channel_size, send_message,
  forward_locally, take_message,
}

abbrev pub from_device : List Message → List Bytes
from_device [] = []
from_device (device b ∷ ms) = b ∷ from_device ms
from_device (local b ∷ ms) = from_device ms

abbrev pub in_hand : Reader → List Bytes
in_hand absent = []
in_hand reading = []
in_hand (sending b) = b ∷ []
in_hand reporting = []

-- The errors that the device gave and no client has taken.
abbrev pub held : Reader → Listener → ℕ
held reporting passing = 2
held reporting _ = 1
held _ passing = 1
held _ _ = 0

pub record IsKept (l : Line) : Type 0 where
  pub order : l.handled ++ l.channel ≡ l.put
  pub all_read : from_device l.put ++ in_hand l.reader ≡ l.received
  pub room : length l.channel ≤ channel_size
  pub errors : l.failures ≡ l.taken + held l.reader l.listener
  pub begun : l.listener ≡ starting → l.reader ≡ absent

abbrev pub Keeps : Option Line → Type 0
Keeps none = Unit
Keeps (some l) = IsKept l

from_device-append :
    (ms ns : List Message) → from_device (ms ++ ns) ≡ from_device ms ++ from_device ns
from_device-append [] ns = refl
from_device-append (device b ∷ ms) ns = ap (λ bs. b ∷ bs) (from_device-append ms ns)
from_device-append (local b ∷ ms) ns = from_device-append ms ns

module _ (l : Line) (v : IsKept l) where
  put_order : (m : Message) → l.handled ++ (l.channel ++ m ∷ []) ≡ l.put ++ m ∷ []
  put_order m = sym (append_assoc l.handled l.channel (m ∷ [])) ∙ ap (λ ms. ms ++ m ∷ []) v.order

  put_room :
      (m : Message)
      → ltb (length l.channel) channel_size ≡ true
      → length (l.channel ++ m ∷ []) ≤ channel_size
  put_room m t = let e = length-append l.channel (m ∷ []) in ground (arith, e)

pub send_message-Keeps :
    (r : Reader) (p : Listener) (l : Line)
    → l.reader ≡ r
    → l.listener ≡ p
    → IsKept l
    → Keeps (send_message r l)
unfolding send_message
send_message-Keeps (sending b) p l e q v = elim (Bool-cases (ltb (length l.channel) channel_size)) [
  | inr f ↦ rw (f) tt
  | inl t ↦ rw (t) (record {
    order = put_order l v (device b);
    all_read =
        append-nil (from_device (l.put ++ device b ∷ []))
        ∙ from_device-append l.put (device b ∷ [])
        ∙ (rw (e) at v.all_read);
    room = put_room l v (device b) t;
    errors = sent p (rw (q) at (rw (e) at v.errors)) q;
    begun = λ h. let a : l.reader ≡ absent = v.begun h in cc;
  })
]
  where
    sent :
        (p : Listener)
        → l.failures ≡ l.taken + held (sending b) p
        → l.listener ≡ p
        → l.failures ≡ l.taken + held reading l.listener
    sent starting h q = rw (q) h
    sent listening h q = rw (q) h
    sent passing h q = rw (q) h
    sent finishing h q = rw (q) h
    sent ended h q = rw (q) h
send_message-Keeps _ p l e q v = tt

pub forward_locally-Keeps :
    (d : Direction) (b : Bytes) (l : Line) → IsKept l → Keeps (forward_locally d b l)
unfolding forward_locally
forward_locally-Keeps outgoing b l v = tt
forward_locally-Keeps ingoing b l v = elim (Bool-cases (ltb (length l.channel) channel_size)) [
  | inr f ↦ rw (f) tt
  | inl t ↦ rw (t) (record {
    order = put_order l v (local b);
    all_read =
        ap (λ bs. bs ++ in_hand l.reader)
          (from_device-append l.put (local b ∷ []) ∙ append-nil (from_device l.put))
        ∙ v.all_read;
    room = put_room l v (local b) t;
    errors = v.errors;
    begun = v.begun;
  })
]

take_head :
    (m : Message) (ms : List Message) (l : Line)
    → l.channel ≡ m ∷ ms
    → IsKept l
    → IsKept (record l { channel = ms; handled = l.handled ++ m ∷ [] })
take_head m ms l e v = record {
  order = append_assoc l.handled (m ∷ []) ms ∙ (rw (e) at v.order);
  all_read = v.all_read;
  room = let r : length (m ∷ ms) ≤ channel_size = rw (e) at v.room in omega arith;
  errors = v.errors;
  begun = v.begun;
}

pub take_message-Keeps :
    (p : Listener) (ms : List Message) (l : Line)
    → l.channel ≡ ms
    → IsKept l
    → Keeps (take_message p ms l)
unfolding take_message
take_message-Keeps starting ms l e v = tt
take_message-Keeps _ [] l e v = tt
take_message-Keeps _ (m ∷ ms) l e v = take_head m ms l e v
