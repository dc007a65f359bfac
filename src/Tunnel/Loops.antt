-- ===== src/Tunnel/Loops.antt =====
-- The goroutines of the tunnel, node-net-manager/proxy/ProxyTunnel.go: for each direction a listener, a
-- reader of the device (`ifaceread`, `udpread`) and a handler of messages, and the channels between
-- them. A channel without a buffer is a step of two goroutines. What is done with a message is
-- Tunnel.Remote.
pub mod Order
pub mod Kept
pub mod Stops
pub mod Runs
use oakestra_net.Base.{
  ℕ, ◌+◌, Bool, true, false, Option, none, some, List, [], ◌∷◌, ◌++◌, Bytes, length, ltb,
  if◌then◌else◌,
}

pub data Direction : Type 0 where
  outgoing ingoing : Direction

-- Where a reader is: not started, in its read, before the send of a message, or before that of an error.
pub data Reader : Type 0 where
  absent reading : Reader
  sending : Bytes → Reader
  reporting : Reader

-- Where a listener is: before its loop, in its `select`, before the send of an error to `errorChannel`,
-- before that of `true` to `finishChannel`, or at its end.
pub data Listener : Type 0 where
  starting listening passing finishing ended : Listener

-- A message that the device gave, or that `forward` of this node sent.
pub data Message : Type 0 where
  device local : Bytes → Message

-- One direction. The last five fields are what has happened so far: what the device gave, what was put
-- into the channel, what was handled, the errors of the device and those taken from `errorChannel`.
pub record Line : Type 0 where
  pub reader : Reader
  pub listener : Listener
  pub channel : List Message
  pub device_open : Bool
  pub received : List Bytes
  pub put : List Message
  pub handled : List Message
  pub failures : ℕ
  pub taken : ℕ

-- What may happen in a direction: the listener begins, the device gives a message or an error, the
-- reader puts its message into the channel, `forward` puts one there, the handler takes one, the reader
-- hands its error to the listener, and a client uses the stop, error and finish channels.
pub data Move : Type 0 where
  begins : Move
  reads : Bytes → Move
  fails puts : Move
  loops_back : Bytes → Move
  handles passes : Move
  stops : Bool → Move
  error_taken finish_taken : Move

abbrev pub channel_size : ℕ
channel_size = 1000

abbrev pub new_line : Line
new_line = record {
  reader = absent;
  listener = starting;
  channel = [];
  device_open = true;
  received = [];
  put = [];
  handled = [];
  failures = 0;
  taken = 0;
}

-- `tunOutgoingListen` and `tunIngoingListen` up to their loop.
unfoldable pub begin : Listener → Line → Option Line
begin starting l = some (record l { reader = reading; listener = listening })
begin _ l = none

-- `ifaceread` and `udpread`.
unfoldable pub read_device : Reader → Bytes → Line → Option Line
read_device reading b l =
    if l.device_open
    then some (record l { reader = sending b; received = l.received ++ b ∷ [] })
    else none
read_device _ b l = none

unfoldable pub fail_device : Reader → Line → Option Line
fail_device reading l = some (record l { reader = reporting; failures = l.failures + 1 })
fail_device _ l = none

unfoldable pub send_message : Reader → Line → Option Line
send_message (sending b) l =
    if ltb (length l.channel) channel_size
    then some (record l {
      reader = reading;
      channel = l.channel ++ device b ∷ [];
      put = l.put ++ device b ∷ [];
    })
    else none
send_message _ l = none

-- The end of `forward` for an address of this node.
unfoldable pub forward_locally : Direction → Bytes → Line → Option Line
forward_locally outgoing b l = none
forward_locally ingoing b l =
    if ltb (length l.channel) channel_size
    then some (record l { channel = l.channel ++ local b ∷ []; put = l.put ++ local b ∷ [] })
    else none

-- The receive of `outgoingMessage` and `ingoingMessage`, which the listener starts.
unfoldable pub take_message : Listener → List Message → Line → Option Line
take_message starting ms l = none
take_message _ [] l = none
take_message _ (m ∷ ms) l = some (record l { channel = ms; handled = l.handled ++ m ∷ [] })

unfoldable pub pass_error : Reader → Listener → Line → Option Line
pass_error reporting listening l = some (record l { reader = reading; listener = passing })
pass_error _ _ l = none

abbrev pub closed_by : Direction → Bool → Bool
closed_by outgoing device_open = device_open
closed_by ingoing device_open = false

unfoldable pub stop : Direction → Bool → Listener → Line → Option Line
stop d true listening l =
    some (record l { listener = finishing; device_open = closed_by d l.device_open })
stop d false listening l = some l
stop d b _ l = none

unfoldable pub take_error : Listener → Line → Option Line
take_error passing l = some (record l { listener = listening; taken = l.taken + 1 })
take_error _ l = none

unfoldable pub take_finish : Listener → Line → Option Line
take_finish finishing l = some (record l { listener = ended })
take_finish _ l = none

-- One move in a direction, `none` where it has to wait.
unfoldable pub line_move : Direction → Move → Line → Option Line
unfolding begin read_device fail_device send_message forward_locally take_message pass_error stop
    take_error take_finish
line_move d begins l = begin l.listener l
line_move d (reads b) l = read_device l.reader b l
line_move d fails l = fail_device l.reader l
line_move d puts l = send_message l.reader l
line_move d (loops_back b) l = forward_locally d b l
line_move d handles l = take_message l.listener l.channel l
line_move d passes l = pass_error l.reader l.listener l
line_move d (stops b) l = stop d b l.listener l
line_move d error_taken l = take_error l.listener l
line_move d finish_taken l = take_finish l.listener l

-- `isListening` after a move; both listeners write it.
abbrev pub listening_after : Move → Bool → Bool
listening_after begins b = true
listening_after (stops true) b = false
listening_after _ b = b

abbrev pub stops_in : Move → ℕ
stops_in (stops true) = 1
stops_in _ = 0

-- `stops` counts the messages `true` that were taken from `stopChannel`.
pub record Loops : Type 0 where
  pub outgoing_line : Line
  pub ingoing_line : Line
  pub is_listening : Bool
  pub stop_messages : ℕ

abbrev pub with_outgoing : Move → Loops → Option Line → Option Loops
with_outgoing m s none = none
with_outgoing m s (some l) = some (record {
  outgoing_line = l;
  ingoing_line = s.ingoing_line;
  is_listening = listening_after m s.is_listening;
  stop_messages = s.stop_messages + stops_in m;
})

abbrev pub with_ingoing : Move → Loops → Option Line → Option Loops
with_ingoing m s none = none
with_ingoing m s (some l) = some (record {
  outgoing_line = s.outgoing_line;
  ingoing_line = l;
  is_listening = listening_after m s.is_listening;
  stop_messages = s.stop_messages + stops_in m;
})

unfoldable pub move : Direction → Move → Loops → Option Loops
unfolding line_move
move outgoing m s = with_outgoing m s (line_move outgoing m s.outgoing_line)
move ingoing m s = with_ingoing m s (line_move ingoing m s.ingoing_line)

-- The tunnel after `Listen`.
abbrev pub new_loops : Loops
new_loops = record {
  outgoing_line = new_line;
  ingoing_line = new_line;
  is_listening = false;
  stop_messages = 0;
}

unfoldable pub run : List (Direction × Move) → Loops → Option Loops
unfolding move
run [] s = some s
run ((d, m) ∷ ms) s = elim (move d m s) [ none ↦ none | some s' ↦ run ms s' ]
