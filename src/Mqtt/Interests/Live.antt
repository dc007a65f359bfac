-- ===== src/Mqtt/Interests/Live.antt =====
-- The goroutines that have not taken their job off the list, node-net-manager/mqtt/MqttJobUpdates.go.
use mathlib.Core.List.Perm
use oakestra_net.Base.{
  ◌≡◌, inl, inr, refl, subst, Bool, true, false, Bool-cases, Option, none, some, List, [], ◌∷◌,
  ◌++◌, Perm, Bytes, if◌then◌else◌,
}
use oakestra_net.Mqtt.Interests.{
  Phase, starting, waiting, cleaned, unsubscribed, removed, silent, Timer, replaced,
}

-- A goroutine that has not yet taken its job off `runningHandlers`.
abbrev pub is_live : Phase → Bool
is_live starting = true
is_live (waiting channel) = true
is_live cleaned = true
is_live unsubscribed = true
is_live removed = false
is_live silent = false

abbrev pub live_jobs : List Timer → List Bytes
live_jobs [] = []
live_jobs (t ∷ ts) = let rest = live_jobs ts in if is_live t.phase then t.job ∷ rest else rest

pub live_jobs-live :
    (before rest : List Timer) (t : Timer)
    → is_live t.phase ≡ true
    → Perm (live_jobs (before ++ t ∷ rest)) (t.job ∷ live_jobs (before ++ rest))
live_jobs-live [] rest t h = rw (h) (Perm.refl _)
live_jobs-live (x ∷ before) rest t h = elim (Bool-cases (is_live x.phase)) [
  | inl l ↦
      rw (l)
        (Perm.trans (Perm.cons x.job (live_jobs-live before rest t h)) (Perm.swap t.job x.job _))
  | inr l ↦ rw (l) (live_jobs-live before rest t h)
]

pub live_jobs-over :
    (before rest : List Timer) (t : Timer)
    → is_live t.phase ≡ false
    → live_jobs (before ++ t ∷ rest) ≡ live_jobs (before ++ rest)
live_jobs-over [] rest t h = rw (h) refl
live_jobs-over (x ∷ before) rest t h = rw (live_jobs-over before rest t h) refl

-- What a goroutine that has taken a step counts for.
abbrev pub CountsFor : Option Timer → Bytes → Type 0
CountsFor none job = ⊥
CountsFor (some t) job = (is_live t.phase ≡ true) × (t.job ≡ job)

abbrev pub CountsNot : Option Timer → Type 0
CountsNot none = Unit
CountsNot (some t) = is_live t.phase ≡ false

pub live_jobs-replaced :
    (before rest : List Timer) (o : Option Timer) (job : Bytes)
    → CountsFor o job
    → Perm (live_jobs (replaced before o rest)) (job ∷ live_jobs (before ++ rest))
live_jobs-replaced before rest none job x = elim x [ ]
live_jobs-replaced before rest (some t) job (l, e) =
    subst (λ j. Perm (live_jobs (before ++ t ∷ rest)) (j ∷ live_jobs (before ++ rest))) e
      (live_jobs-live before rest t l)

pub live_jobs-replaced_not :
    (before rest : List Timer) (o : Option Timer)
    → CountsNot o
    → live_jobs (replaced before o rest) ≡ live_jobs (before ++ rest)
live_jobs-replaced_not before rest none u = refl
live_jobs-replaced_not before rest (some t) l = live_jobs-over before rest t l
