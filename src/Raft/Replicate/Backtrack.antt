-- ===== src/Raft/Replicate/Backtrack.antt =====
-- The two searches of the fast backtrack in src/raft/raft.go: the follower's, for the first index
-- of the conflicting term, and the leader's, for its last index.
use cs.Prelude.{
  ℕ, zero, suc, ◌≤◌, ◌<◌, ◌≡◌, ◌≢◌, ◌⊎◌, inl, inr, ℤ, pos, List, Option, none, some, arith, length,
  get_elem?, get_elem?-lt, Bool-cases, Ends, Ends-map, ◌∙◌, false, if◌then◌else◌, ◌==ℤ◌, ==ℤ_iff,
}
use cs.Raft.Defs.{LogEntry}
use cs.Raft.Log.{term_at_locked, first_index_of}
use cs.Raft.Replicate.{last_index_of, below_ℤ}

le-suc-cases : (j i : ℕ) → j ≤ suc i → (j ≤ i) ⊎ (j ≡ suc i)
le-suc-cases j i h = ground arith

module _ {C : Type 0} where
  pub term_at_locked-found :
      (log : List (LogEntry C)) (i : ℕ) {e : LogEntry C}
      → get_elem? log (suc i) ≡ some e
      → term_at_locked log (suc i) ≡ pos e.term
  unfolding term_at_locked
  term_at_locked-found log i p = ground arith

  -- The greatest index from 1 to i at which the log has the term.
  abbrev pub IsLast : List (LogEntry C) → ℤ → ℕ → Option ℕ → Type 0
  IsLast log ct i none = Unit
  IsLast log ct i (some k) =
      (0 < k)
      × (k ≤ i)
      × (term_at_locked log k ≡ ct)
      × ((j : ℕ) → k < j → j ≤ i → term_at_locked log j ≢ ct)

  IsLast-suc :
      (log : List (LogEntry C)) (ct : ℤ) (i : ℕ) (r : Option ℕ)
      → term_at_locked log (suc i) ≢ ct
      → IsLast log ct i r
      → IsLast log ct (suc i) r
  IsLast-suc log ct i none n h = tt
  IsLast-suc log ct i (some k) n h = (
    h.0,
    omega arith,
    h.2,
    λ j a b. elim (le-suc-cases j i b) [ inl c ↦ h.3 j a c | inr e ↦ rw e n ],
  )

  past :
      (log : List (LogEntry C)) (ct : ℤ) (i : ℕ) (e : LogEntry C)
      → term_at_locked log (suc i) ≡ pos e.term
      → (pos e.term ==ℤ ct) ≡ false
      → (below : Option (Option ℕ)) → Ends (IsLast log ct i) below
      → Ends (IsLast log ct (suc i)) (if below_ℤ e.term ct then some none else below)
  past log ct i e t other below h = elim (Bool-cases (below_ℤ e.term ct)) [
    | inl low ↦ rw low tt
    | inr high ↦ rw high (
        Ends-map _ _ below
          (λ r. IsLast-suc log ct i r (λ q. ground (arith, ==ℤ_iff (pos e.term) ct))) h)
  ]

  -- The leader's search ends without a panic, and what it finds is the last index of the term.
  pub last_index_of-IsLast :
      (log : List (LogEntry C)) (ct : ℤ) (i : ℕ)
      → i < length log
      → Ends (IsLast log ct i) (last_index_of log ct i)
  unfolding last_index_of
  last_index_of-IsLast log ct zero h = tt
  last_index_of-IsLast log ct (suc i) h =
      let (e, p) = get_elem?-lt log (suc i) h in
      let t = term_at_locked-found log i p in
      rw p (elim (Bool-cases (pos e.term ==ℤ ct)) [
        | inl same ↦
            rw same
              (omega arith, omega arith, t ∙ (==ℤ_iff _ _).0 same, λ j a b. absurd (omega arith))
        | inr other ↦ rw other (
            past log ct i e t other (last_index_of log ct i)
              (last_index_of-IsLast log ct i (omega arith)))
      ])

  -- The follower's search goes down from i as long as the term stays the same.
  pub first_index_of-le : (log : List (LogEntry C)) (ct : ℤ) (i : ℕ) → first_index_of log ct i ≤ i
  unfolding first_index_of
  first_index_of-le log ct zero = omega arith
  first_index_of-le log ct (suc i) = ground (arith, first_index_of-le log ct i)

  pub first_index_of-run :
      (log : List (LogEntry C)) (ct : ℤ) (i : ℕ)
      → term_at_locked log i ≡ ct
      → ((j : ℕ) → first_index_of log ct i ≤ j → j ≤ i → term_at_locked log j ≡ ct)
        × ((j : ℕ) → suc j ≡ first_index_of log ct i → term_at_locked log j ≢ ct)
  unfolding first_index_of
  first_index_of-run log ct zero h =
      (λ j a b. let e : j ≡ zero = omega arith in rw e h, λ j a b. omega arith)
  first_index_of-run log ct (suc i) h = elim (Bool-cases (term_at_locked log i ==ℤ ct)) [
    | inl same ↦
        let below = first_index_of-run log ct i ((==ℤ_iff _ _).0 same) in
        rw same
          (λ j a b. elim (le-suc-cases j i b) [ inl c ↦ below.0 j a c | inr e ↦ rw e h ], below.1)
    | inr other ↦ rw other (
      λ j a b. let e : j ≡ suc i = omega arith in rw e h,
      λ j a q.
          let e : j ≡ i = omega arith in
          ground (
            arith,
            ==ℤ_iff (term_at_locked log i) ct,
            let r : term_at_locked log i ≡ ct = rw (← e) q in r,
          ),
    )
  ]
