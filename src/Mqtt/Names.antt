-- ===== src/Mqtt/Names.antt =====
-- The names in the entries that come from an answer.
use oakestra_net.Base.{
  ℕ, ◌≡◌, ◌≢◌, ◌⊎◌, inl, inr, refl, ap, ◌∙◌, Bool-cases, none, some, List, [], ◌∷◌, ◌++◌, map,
  Bytes, All, length, ◌==◌, arith,
}
use oakestra_net.Net.{Ip}
use oakestra_net.Table.{TableEntry}
use oakestra_net.Base.Words.{split, put_byte}
use oakestra_net.Mqtt.{TableQueryResponse, ServiceInstance, entry_of, response_parser, parse_names}

-- The words one after the other with the separator between them.
abbrev pub join : ℕ → List Bytes → Bytes
join sep [] = []
join sep (w ∷ []) = w
join sep (w ∷ x ∷ ws) = w ++ sep ∷ join sep (x ∷ ws)

put_byte-join : (sep c : ℕ) (ws : List Bytes) → join sep (put_byte c ws) ≡ c ∷ join sep ws
put_byte-join sep c [] = refl
put_byte-join sep c (w ∷ []) = refl
put_byte-join sep c (w ∷ x ∷ ws) = refl

join_nil : (sep : ℕ) (ws : List Bytes) → ws ≢ [] → join sep ([] ∷ ws) ≡ sep ∷ join sep ws
join_nil sep [] h = absurd (h refl)
join_nil sep (w ∷ ws) h = refl

put_byte-some : (c : ℕ) (ws : List Bytes) → put_byte c ws ≢ []
put_byte-some c [] e = cc
put_byte-some c (w ∷ ws) e = cc

split-some : (sep : ℕ) (s : Bytes) → split sep s ≢ []
split-some sep [] e = cc
split-some sep (c ∷ cs) e = elim (Bool-cases (c == sep)) [
  | inl t ↦ cc
  | inr f ↦ put_byte-some c (split sep cs) (rw (f) at e)
]

join-split : (sep : ℕ) (s : Bytes) → join sep (split sep s) ≡ s
join-split sep [] = refl
join-split sep (c ∷ cs) = elim (Bool-cases (c == sep)) [
  | inl t ↦ rw (t) (
      join_nil sep (split sep cs) (split-some sep cs)
      ∙ ap (λ l. sep ∷ l) (join-split sep cs)
      ∙ ap (λ x. x ∷ cs) (ground (arith, t)))
  | inr f ↦ rw (f) (put_byte-join sep c (split sep cs) ∙ ap (λ l. c ∷ l) (join-split sep cs))
]

-- The entry carries the name of the job, and its four names with dots between them are that name.
abbrev pub IsNamed : Bytes → TableEntry → Type 0
IsNamed job e =
    (e.job_name ≡ job)
    × (join b'.' (e.appname ∷ e.appns ∷ e.servicename ∷ e.servicenamespace ∷ []) ≡ job)

named :
    (parse_ip : Bytes → Ip) (job a b c d : Bytes) (is : List ServiceInstance)
    → join b'.' (a ∷ b ∷ c ∷ d ∷ []) ≡ job
    → All (IsNamed job) (map (entry_of parse_ip job a b c d) is)
named parse_ip job a b c d [] h = tt
named parse_ip job a b c d (i ∷ is) h = ((refl, h), named parse_ip job a b c d is h)

same_length : {A B : Type 0} (f : A → B) (xs : List A) → length (map f xs) ≡ length xs
same_length f [] = refl
same_length f (x ∷ xs) = omega (arith, same_length f xs)

-- `responseParser` fails exactly where the name of the job does not have four parts between dots.
-- Otherwise there is one entry for each instance of the answer, and each has the name of the job and
-- the four parts that make it up.
pub response_parser_cases :
    (parse_ip : Bytes → Ip) (r : TableQueryResponse)
    → ((length (split b'.' r.job_name) ≢ 4) × (response_parser parse_ip r ≡ none))
      ⊎ ((entries : List TableEntry) × (length (split b'.' r.job_name) ≡ 4)
          × (response_parser parse_ip r ≡ some entries)
          × (length entries ≡ length r.instance_list)
          × All (IsNamed r.job_name) entries)
unfolding response_parser
response_parser_cases parse_ip r = by_parts (split b'.' r.job_name) (join-split b'.' r.job_name)
  where
    by_parts :
        (ws : List Bytes)
        → join b'.' ws ≡ r.job_name
        → ((length ws ≢ 4) × (parse_names parse_ip r ws ≡ none))
          ⊎ ((entries : List TableEntry) × (length ws ≡ 4)
              × (parse_names parse_ip r ws ≡ some entries)
              × (length entries ≡ length r.instance_list)
              × All (IsNamed r.job_name) entries)
    by_parts [] h = inl ((λ e. omega arith), refl)
    by_parts (a ∷ []) h = inl ((λ e. omega arith), refl)
    by_parts (a ∷ b ∷ []) h = inl ((λ e. omega arith), refl)
    by_parts (a ∷ b ∷ c ∷ []) h = inl ((λ e. omega arith), refl)
    by_parts (a ∷ b ∷ c ∷ d ∷ []) h = inr (
      map (entry_of parse_ip r.job_name a b c d) r.instance_list,
      refl,
      refl,
      same_length _ r.instance_list,
      named parse_ip r.job_name a b c d r.instance_list h,
    )
    by_parts (a ∷ b ∷ c ∷ d ∷ e ∷ ws) h = inl ((λ q. omega arith), refl)
