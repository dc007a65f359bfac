-- ===== src/Mqtt/Client/Factors.antt =====
-- What it means for a job's topic to be part of another, where the names of the jobs have no slash.
use oakestra_net.Base.{
  ℕ, ◌+◌, ◌<◌, ◌≡◌, refl, sym, ap, ◌∙◌, true, false, Bool-cases, inl, inr, [], ◌∷◌, ◌++◌, Bytes,
  codes, append_assoc, ◌==◌, ==_refl, arith, if◌then◌else◌,
}
use oakestra_net.Base.Words.{has_prefix, contains}
use oakestra_net.Mqtt.Interests.{topic_of}
use oakestra_net.Mqtt.Client.{node_topic}

abbrev pub slashes : Bytes → ℕ
slashes [] = 0
slashes (c ∷ cs) = let rest = slashes cs in if c == b'/' then rest + 1 else rest

slashes-append : (xs ys : Bytes) → slashes (xs ++ ys) ≡ slashes xs + slashes ys
slashes-append [] ys = omega arith
slashes-append (x ∷ xs) ys = elim (Bool-cases (x == b'/')) [
  | inl e ↦ rw (e) (omega (arith, slashes-append xs ys))
  | inr e ↦ rw (e) (slashes-append xs ys)
]

-- What stands before and after the first slash.
before_slash : Bytes → Bytes
before_slash [] = []
before_slash (c ∷ cs) = let rest = before_slash cs in if c == b'/' then [] else c ∷ rest

after_slash : Bytes → Bytes
after_slash [] = []
after_slash (c ∷ cs) = let rest = after_slash cs in if c == b'/' then cs else rest

before_slash_lem : (xs ys : Bytes) → slashes xs ≡ 0 → before_slash (xs ++ b'/' ∷ ys) ≡ xs
unfolding before_slash
before_slash_lem [] ys h = refl
before_slash_lem (x ∷ xs) ys h = elim (Bool-cases (x == b'/')) [
  | inl e ↦ let h' : slashes xs + 1 ≡ 0 = rw (e) at h in absurd (omega arith)
  | inr e ↦ rw (e) (ap (λ zs. x ∷ zs) (before_slash_lem xs ys (rw (e) at h)))
]

after_slash_lem : (xs ys : Bytes) → slashes xs ≡ 0 → after_slash (xs ++ b'/' ∷ ys) ≡ ys
unfolding after_slash
after_slash_lem [] ys h = refl
after_slash_lem (x ∷ xs) ys h = elim (Bool-cases (x == b'/')) [
  | inl e ↦ let h' : slashes xs + 1 ≡ 0 = rw (e) at h in absurd (omega arith)
  | inr e ↦ rw (e) (after_slash_lem xs ys (rw (e) at h))
]

has_prefix_sound : (p s : Bytes) → has_prefix p s ≡ true → (rest : Bytes) × (s ≡ p ++ rest)
has_prefix_sound [] s h = (s, refl)
has_prefix_sound (p ∷ ps) [] h = cc
has_prefix_sound (p ∷ ps) (c ∷ cs) h = elim (Bool-cases (p == c)) [
  | inr e ↦ let h' : false ≡ true = rw (e) at h in cc
  | inl e ↦
      let (rest, q) = has_prefix_sound ps cs (rw (e) at h) in
      let same : p ≡ c = ground arith in (rest, ap (λ x. x ∷ cs) (sym same) ∙ ap (λ xs. p ∷ xs) q)
]

contains_sound :
    (p s : Bytes)
    → contains p s ≡ true
    → (before : Bytes) × (rest : Bytes) × (s ≡ before ++ (p ++ rest))
contains_sound p [] h = cc
contains_sound p (c ∷ cs) h = elim (Bool-cases (has_prefix p (c ∷ cs))) [
  | inl e ↦ let (rest, q) = has_prefix_sound p (c ∷ cs) e in ([], rest, q)
  | inr e ↦
      let (before, rest, q) = contains_sound p cs (rw (e) at h) in
      (c ∷ before, rest, ap (λ xs. c ∷ xs) q)
]

has_prefix_self : (p : Bytes) → has_prefix p p ≡ true
has_prefix_self [] = refl
has_prefix_self (c ∷ cs) = rw (==_refl c) (has_prefix_self cs)

pub contains-topic_of_self : (job : Bytes) → contains (topic_of job) (topic_of job) ≡ true
contains-topic_of_self job = rw (has_prefix_self (topic_of job)) refl

-- A topic with its two slashes.
parts :
    (job : Bytes) → topic_of job ≡ codes "jobs" ++ b'/' ∷ (job ++ b'/' ∷ codes "updates_available")
parts job = refl

slashes-topic_of : (job : Bytes) → slashes job ≡ 0 → slashes (topic_of job) ≡ 2
slashes-topic_of job h = omega (arith, slashes-append job (codes "/updates_available"))

-- A job's topic that is part of another job's topic is that topic.
pub contains-topic_of :
    (x y : Bytes)
    → slashes x ≡ 0
    → slashes y ≡ 0
    → contains (topic_of y) (topic_of x) ≡ true
    → y ≡ x
contains-topic_of x y hx hy h =
    let (a, r, q) = contains_sound (topic_of y) (topic_of x) h in
    let u : Bytes = codes "updates_available" in
    let none_before : slashes a ≡ 0 = omega (
      arith,
      slashes-topic_of x hx,
      slashes-topic_of y hy,
      ap slashes q,
      slashes-append a (topic_of y ++ r),
      slashes-append (topic_of y) r,
    ) in
    let none_there : slashes (a ++ codes "jobs") ≡ 0 =
      omega (arith, slashes-append a (codes "jobs")) in
    let regrouped : topic_of x ≡ (a ++ codes "jobs") ++ b'/' ∷ (y ++ b'/' ∷ (u ++ r)) =
      q
      ∙ ap (λ z. a ++ (codes "jobs" ++ b'/' ∷ z)) (append_assoc y (b'/' ∷ u) r)
      ∙ sym (append_assoc a (codes "jobs") (b'/' ∷ (y ++ b'/' ∷ (u ++ r)))) in
    let tails : x ++ b'/' ∷ u ≡ y ++ b'/' ∷ (u ++ r) =
      sym (after_slash_lem (codes "jobs") (x ++ b'/' ∷ u) refl)
      ∙ ap after_slash regrouped
      ∙ after_slash_lem (a ++ codes "jobs") (y ++ b'/' ∷ (u ++ r)) none_there in
    sym (before_slash_lem y (u ++ r) hy) ∙ ap before_slash (sym tails) ∙ before_slash_lem x u hx

-- A name with more slashes is no part of a job's topic.
pub contains-slashes :
    (x p : Bytes) → slashes x ≡ 0 → 2 < slashes p → contains p (topic_of x) ≡ false
contains-slashes x p hx hp = elim (Bool-cases (contains p (topic_of x))) [
  | inr f ↦ f
  | inl t ↦
      let (a, r, q) = contains_sound p (topic_of x) t in
      absurd (
        omega (
          arith,
          slashes-topic_of x hx,
          ap slashes q,
          slashes-append a (p ++ r),
          slashes-append p r,
        ))
]

pub slashes-node_topic :
    (client_id topic : Bytes)
    → slashes (node_topic client_id topic) ≡ slashes client_id + slashes topic + 3
slashes-node_topic client_id topic = omega (
  arith,
  slashes-append (codes "nodes/" ++ client_id ++ codes "/net/") topic,
  slashes-append client_id (codes "/net/"),
)
