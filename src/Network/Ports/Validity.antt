-- ===== src/Network/Ports/Validity.antt =====
-- When the ports of a container cannot be opened or closed.
use oakestra_net.Base.{
  ◌≡◌, inl, inr, refl, sym, ap, ◌∙◌, Bool, true, false, not, ◌&&◌, Bool-cases, Option, none, some,
  List, [], ◌∷◌, Bytes, codes, any, ltb, arith, if◌then◌else◌,
}
use oakestra_net.Base.Int.{ℤ, pos, negsuc}
use oakestra_net.Base.Words.{split, contains, remove_all}
use oakestra_net.Net.{Ip}
use oakestra_net.Network.Ports.{
  PortOperation, Rule, PacketFilter, in_range, protocol_of, ports_of, is_valid_port,
  has_valid_ports, rule_of, change_rule, change_all, manage_container_ports,
}

abbrev pub mappings_of : Bytes → List Bytes
mappings_of [] = []
mappings_of (c ∷ cs) = split b';' (c ∷ cs)

-- A number from 0 to 65535.
abbrev pub is_port : Option ℤ → Bool
is_port none = false
is_port (some (negsuc n)) = false
is_port (some (pos n)) = ltb n 65536

-- A mapping without its protocol.
abbrev pub bare : Bytes → Bytes
bare m =
    if contains (codes "/udp") m then remove_all (codes "/udp") m else remove_all (codes "/tcp") m

-- The first two parts are ports, or the only one is.
abbrev pub are_ports : (Bytes → Option ℤ) → List Bytes → Bool
are_ports atoi [] = is_port (atoi [])
are_ports atoi (h ∷ []) = is_port (atoi h)
are_ports atoi (h ∷ c ∷ rest) = is_port (atoi h) && is_port (atoi c)

abbrev pub is_mapping : (Bytes → Option ℤ) → Bytes → Bool
is_mapping atoi m = are_ports atoi (split b':' (bare m))

in_range-is_port : (n : Option ℤ) → in_range n ≡ is_port n
in_range-is_port none = refl
in_range-is_port (some (negsuc n)) = refl
in_range-is_port (some (pos n)) = elim (Bool-cases (ltb n 65536)) [
  | inl e ↦ ground (arith, e)
  | inr e ↦ ground (arith, e)
]

twice : (b : Bool) → (b && b) ≡ b
twice true = refl
twice false = refl

protocol_of-bare : (m : Bytes) → (protocol_of m).1 ≡ bare m
protocol_of-bare m = elim (Bool-cases (contains (codes "/udp") m)) [
  | inl e ↦ rw (e) refl
  | inr e ↦ rw (e) refl
]

module _ (f : PacketFilter) where
  are_valid_ports :
      (parts : List Bytes)
      → (is_valid_port f (ports_of parts).0 && is_valid_port f (ports_of parts).1)
        ≡ are_ports f.atoi parts
  unfolding is_valid_port
  are_valid_ports [] = twice (in_range (f.atoi [])) ∙ in_range-is_port (f.atoi [])
  are_valid_ports (h ∷ []) = twice (in_range (f.atoi h)) ∙ in_range-is_port (f.atoi h)
  are_valid_ports (h ∷ c ∷ rest) =
      rw (in_range-is_port (f.atoi h), in_range-is_port (f.atoi c)) refl

  has_valid_ports-is_mapping : (m : Bytes) → has_valid_ports f m ≡ is_mapping f.atoi m
  has_valid_ports-is_mapping m =
      are_valid_ports (split b':' (protocol_of m).1)
      ∙ ap (λ b. are_ports f.atoi (split b':' b)) (protocol_of-bare m)

module _ (f : PacketFilter) (operation : PortOperation) (address : Ip)
    (works : (rule : Rule) (w : f.World) → (change_rule f operation address rule w).1 ≡ false) where
  change_all_fails :
      (mappings : List Bytes) (w : f.World)
      → (change_all f operation address mappings w).1
        ≡ any (λ m. not (is_mapping f.atoi m)) mappings
  unfolding change_all
  change_all_fails [] w = refl
  change_all_fails (m ∷ mappings) w = elim (Bool-cases (has_valid_ports f m)) [
    | inr e ↦ rw (e, change_all) (rw (sym (has_valid_ports-is_mapping f m) ∙ e) refl)
    | inl e ↦
        rw (e, change_all)
          (rw (works (rule_of f address m) w)
            (rw (sym (has_valid_ports-is_mapping f m) ∙ e) (change_all_fails mappings _)))
  ]

  -- Where the packet filter accepts every rule for the address, `ManageContainerPorts` returns an error
  -- exactly if one of the mappings between the semicolons has, without its protocol, a part before the
  -- first colon or a second part that is not a number from 0 to 65535. A mapping without a colon has
  -- one part, and the empty text has no mappings and is no error.
  pub manage_container_ports_fails :
      (portmapping : Bytes) (w : f.World)
      → (manage_container_ports f address portmapping operation w).1
        ≡ any (λ m. not (is_mapping f.atoi m)) (mappings_of portmapping)
  unfolding manage_container_ports
  manage_container_ports_fails [] w = refl
  manage_container_ports_fails (c ∷ cs) w = change_all_fails (split b';' (c ∷ cs)) w
