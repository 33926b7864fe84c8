-- ===== src/MapReduce/Phase.antt =====
-- A phase of a job of src/mapreduce: tasks that may run in any order and more than once, each of
-- which puts its own files over those that are there.
pub mod Maps
pub mod Reduces
pub mod InOrder
use cs.Prelude.{
  ℕ, zero, suc, ◌+◌, ◌<◌, ◌≤◌, ◌≡◌, ◌≢◌, ◌⊎◌, inl, inr, refl, sym, ap, ◌∙◌, Bool, true, false, List,
  [], ◌∷◌, ◌++◌, Option, none, some, Text, arith, ◌==◌, ==_iff, if◌then◌else◌, or_else, Bool-cases,
  Option-cases,
}
use cs.Prelude.Dicts.{lookup}
use cs.MapReduce.Defs.{KeyValue, Files}

-- What the tasks write: for a task and a name, the contents of the file if the task writes it.
abbrev pub Writes : Type 0
Writes = ℕ → Text → Option (List KeyValue)

-- A file after the tasks of a list ran, the first one first.
unfoldable pub after : Writes → List ℕ → Text → Option (List KeyValue) → Option (List KeyValue)
after writes [] k x = x
after writes (t ∷ ts) k x = after writes ts k (or_else (writes t k) x)

pub after-snoc :
    (writes : Writes) (ts : List ℕ) (t : ℕ) (k : Text) (x : Option (List KeyValue))
    → after writes (ts ++ t ∷ []) k x ≡ or_else (writes t k) (after writes ts k x)
unfolding after
after-snoc writes [] t k x = refl
after-snoc writes (u ∷ ts) t k x = after-snoc writes ts t k (or_else (writes u k) x)

unfoldable pub elem : ℕ → List ℕ → Bool
elem t [] = false
elem t (u ∷ us) = let rest = elem t us in if u == t then true else rest

-- No two tasks write the same file.
abbrev pub AreApart : Writes → Type 0
AreApart writes = (t u : ℕ) (k : Text) → t ≢ u → (writes t k ≡ none) ⊎ (writes u k ≡ none)

module _ (writes : Writes) (apart : AreApart writes) where
  -- What a task wrote is kept by every task.
  after-keeps :
      (ts : List ℕ) (t : ℕ) (k : Text) (v : List KeyValue)
      → writes t k ≡ some v
      → after writes ts k (some v) ≡ some v
  unfolding after
  after-keeps [] t k v w = refl
  after-keeps (u ∷ ts) t k v w = elim (Bool-cases (u == t)) [
    | inl e ↦ ground (arith, e, ap (λ z. writes z k) {x = u} {y = t}, w, after-keeps ts t k v w)
    | inr e ↦ elim (apart u t k (ground arith)) [
      | inl free ↦ rw (free) (after-keeps ts t k v w)
      | inr clash ↦ absurd (ground (arith, clash, w))
    ]
  ]

  pub after-written :
      (ts : List ℕ) (t : ℕ) (k : Text) (v : List KeyValue) (x : Option (List KeyValue))
      → elem t ts ≡ true
      → writes t k ≡ some v
      → after writes ts k x ≡ some v
  unfolding after elem
  after-written [] t k v x h w = ground arith
  after-written (u ∷ ts) t k v x h w = elim (Bool-cases (u == t)) [
    | inl e ↦
        let same : writes u k ≡ some v = ap (λ z. writes z k) ((==_iff u t).0 e) ∙ w in
        rw (same) (after-keeps ts t k v w)
    | inr e ↦ after-written ts t k v (or_else (writes u k) x) (ground arith) w
  ]

  pub after-free :
      (ts : List ℕ) (k : Text) (x : Option (List KeyValue))
      → ((u : ℕ) → elem u ts ≡ true → writes u k ≡ none)
      → after writes ts k x ≡ x
  unfolding after elem
  after-free [] k x h = refl
  after-free (u ∷ ts) k x h =
      rw (h u (ground (arith, ==_iff u u))) (after-free ts k x (λ w q. h w (ground arith)))

  -- Whether one of the first n tasks writes a file.
  writer :
      (n : ℕ) (k : Text)
      → ((t : ℕ) × (v : List KeyValue) × (t < n) × (writes t k ≡ some v))
        ⊎ ((t : ℕ) → t < n → writes t k ≡ none)
  writer zero k = inr (λ t h. absurd (omega arith))
  writer (suc n) k = elim (Option-cases (writes n k)) [
    | inr (v, e) ↦ inl (n, v, omega arith, e)
    | inl free ↦ elim (writer n k) [
      | inl (t, v, h, e) ↦ inl (t, v, omega arith, e)
      | inr all ↦ inr (λ t h. elim (Bool-cases (t == n)) [
        | inl e ↦ ap (λ z. writes z k) ((==_iff t n).0 e) ∙ free
        | inr e ↦ all t (ground arith)
      ])
    ]
  ]

  -- Two runs of all n tasks and of no other leave the same files.
  pub after-same :
      (n : ℕ) (ts us : List ℕ) (k : Text) (x : Option (List KeyValue))
      → ((t : ℕ) → (elem t ts ≡ true) → t < n)
      → ((t : ℕ) → t < n → elem t ts ≡ true)
      → ((t : ℕ) → (elem t us ≡ true) → t < n)
      → ((t : ℕ) → t < n → elem t us ≡ true)
      → after writes ts k x ≡ after writes us k x
  after-same n ts us k x a b c d = elim (writer n k) [
    | inl (t, v, h, e) ↦
        after-written ts t k v x (b t h) e ∙ sym (after-written us t k v x (d t h) e)
    | inr free ↦
        after-free ts k x (λ t h. free t (a t h)) ∙ sym (after-free us k x (λ t h. free t (c t h)))
  ]

-- The files after the tasks of a list ran.
abbrev pub IsAfter : Writes → Files → List ℕ → Files → Type 0
IsAfter writes fs0 ts fs =
    (fs.plain ≡ fs0.plain)
    × ((k : Text) → lookup k fs.records ≡ after writes ts k (lookup k fs0.records))

-- What a phase of n tasks promises: a task runs wherever tasks of the phase ran before, and puts its
-- own files over those that are there.
pub record IsPhase (run : ℕ → Files → Option Files) (n : ℕ) (fs0 : Files) : Type 0 where
  pub writes : Writes
  pub apart : AreApart writes
  pub effect :
      (t : ℕ) (ts : List ℕ) (fs : Files)
      → t < n
      → IsAfter writes fs0 ts fs
      → (fs' : Files) × (run t fs ≡ some fs') × IsAfter writes fs0 (ts ++ t ∷ []) fs'
