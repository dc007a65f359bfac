-- ===== src/Tests/CmdRuns.antt =====
-- The command that follows the log file, on a file that grows twice.
use oakestra_net.Base.{◌≡◌, refl, true, false, List, [], ◌∷◌, ◌++◌, Bytes, codes, length}
use oakestra_net.Cmd.{read_fails, seek_fails, holds, opened, logs_net_manager}
use oakestra_net.Cmd.Appended.{files, logs_net_manager-appended}

abbrev old : Bytes
old = codes "old"

abbrev written : List Bytes
written = codes "a" ∷ [] ∷ codes "bc" ∷ []

-- A file that was cut is read again once it is longer than it was.
logs_of_cut_file :
    (logs_net_manager (opened 3) (holds (codes "x") ∷ holds (codes "xyzv") ∷ [])).printed
    ≡ codes "v"
unfolding logs_net_manager
logs_of_cut_file = refl

logs_net_manager-appended_example :
    (logs_net_manager (opened (length old)) (files old written)
      ≡ record { offset = 6; printed = codes "abc"; returned = false })
    × (logs_net_manager (opened (length old)) (files old written ++ read_fails ∷ [])
        ≡ record { offset = 6; printed = codes "abc"; returned = true })
    × (logs_net_manager (opened (length old)) (files old written ++ seek_fails ∷ [])
        ≡ record { offset = 6; printed = codes "abc"; returned = true })
logs_net_manager-appended_example = logs_net_manager-appended old written []
