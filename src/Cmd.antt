-- ===== src/Cmd.antt =====
-- node-net-manager/cmd/logs.go: the command that follows the log file of the manager. The file is what
-- the calls on it return.
pub mod Appended
use oakestra_net.Base.{
  ℕ, ◌+◌, Bool, true, false, Option, none, some, List, [], ◌∷◌, ◌++◌, Bytes, drop, length,
}

-- `os.Open` and `Stat`: an error of one of them, or the size of the file.
pub data Opening : Type 0 where
  open_fails stat_fails : Opening
  opened : ℕ → Opening

-- What one round meets: an error of `Seek` or `ReadAll`, or the bytes that are in the file.
pub data Reading : Type 0 where
  seek_fails read_fails : Reading
  holds : Bytes → Reading

-- Where the function is after the rounds so far. `printed` is what the loop printed.
pub record Tail : Type 0 where
  pub offset : ℕ
  pub printed : Bytes
  pub returned : Bool

-- One round of the loop. `ReadAll` returns what stands in the file after the offset.
abbrev pub read_round : Reading → Tail → Tail
read_round seek_fails t = record t { returned = true }
read_round read_fails t = record t { returned = true }
read_round (holds file) t =
    let data_read = drop t.offset file in
    record t { offset = t.offset + length data_read; printed = t.printed ++ data_read }

-- The loop over what its rounds meet; a round that returns is the last.
unfoldable pub follow : List Reading → Tail → Tail
follow [] t = t
follow (r ∷ rs) t = elim (read_round r t).returned [
  | true ↦ read_round r t
  | false ↦ follow rs (read_round r t)
]

unfoldable pub logs_net_manager : Opening → List Reading → Tail
unfolding follow
logs_net_manager open_fails rs = record { offset = 0; printed = []; returned = true }
logs_net_manager stat_fails rs = record { offset = 0; printed = []; returned = true }
logs_net_manager (opened size) rs =
    follow rs (record { offset = size; printed = []; returned = false })
