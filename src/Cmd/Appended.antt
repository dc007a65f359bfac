-- ===== src/Cmd/Appended.antt =====
-- What the command that follows the log file prints, node-net-manager/cmd/logs.go.
use oakestra_net.Base.{
  ◌≡◌, refl, sym, ap, ◌∙◌, Bool, true, false, List, [], ◌∷◌, ◌++◌, Bytes, drop, length,
  length-append, append-nil, append_assoc,
}
use oakestra_net.Cmd.{
  Reading, seek_fails, read_fails, holds, opened, Tail, read_round, follow, logs_net_manager,
}

-- What was written to the file before each round.
abbrev pub files : Bytes → List Bytes → List Reading
files file [] = []
files file (x ∷ xs) = holds (file ++ x) ∷ files (file ++ x) xs

abbrev pub joined : List Bytes → Bytes
joined [] = []
joined (x ∷ xs) = x ++ joined xs

drop-append : (xs ys : Bytes) → drop (length xs) (xs ++ ys) ≡ ys
drop-append [] ys = refl
drop-append (x ∷ xs) ys = drop-append xs ys

abbrev at : Bytes → Bytes → Bool → Tail
at file out ended = record { offset = length file; printed = out; returned = ended }

read_appended :
    (file x out : Bytes)
    → read_round (holds (file ++ x)) (at file out false) ≡ at (file ++ x) (out ++ x) false
read_appended file x out = rw (drop-append file x, length-append file x) refl

follow-files :
    (file out : Bytes) (xs : List Bytes) (rs : List Reading)
    → follow (files file xs ++ rs) (at file out false)
      ≡ follow rs (at (file ++ joined xs) (out ++ joined xs) false)
unfolding follow
follow-files file out [] rs = rw (append-nil file, append-nil out) refl
follow-files file out (x ∷ xs) rs =
    ap (λ t. follow (files (file ++ x) xs ++ rs) t) (read_appended file x out)
    ∙ follow-files (file ++ x) (out ++ x) xs rs
    ∙ rw (append_assoc file x (joined xs), append_assoc out x (joined xs)) refl

-- While the file only grows, the command prints each byte that was appended after its start, once and in
-- their order, and nothing that stood in the file before; it goes on, and its offset is the size of the
-- file. An error of a read ends it with what it printed until then.
pub logs_net_manager-appended :
    (file : Bytes) (xs : List Bytes) (rs : List Reading)
    → (logs_net_manager (opened (length file)) (files file xs)
        ≡ record { offset = length (file ++ joined xs); printed = joined xs; returned = false })
      × (logs_net_manager (opened (length file)) (files file xs ++ read_fails ∷ rs)
          ≡ record { offset = length (file ++ joined xs); printed = joined xs; returned = true })
      × (logs_net_manager (opened (length file)) (files file xs ++ seek_fails ∷ rs)
          ≡ record { offset = length (file ++ joined xs); printed = joined xs; returned = true })
unfolding logs_net_manager follow
logs_net_manager-appended file xs rs = (
  ap (λ r. follow r (at file [] false)) (sym (append-nil (files file xs)))
      ∙ follow-files file [] xs [],
  follow-files file [] xs (read_fails ∷ rs),
  follow-files file [] xs (seek_fails ∷ rs),
)
