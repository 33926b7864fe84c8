-- ===== src/Raft/Replicas/Books.antt =====
-- The books of the terms of src/raft/raft.go's leaders, after a leader has written its own.
use cs.Prelude.{ℕ, ◌≡◌, ◌⊎◌, ap, List, [], ◌∷◌, some-eq, arith, ◌==◌, if◌then◌else◌, inl, inr}
use cs.Raft.Defs.{LogEntry, Raft, leader}
use cs.Raft.Persist.{dummy_log}
use cs.Raft.Replicas.Logs.{IsPrefix, Extends, HasDummy}
use cs.Raft.Replicas.Fair.{Writes, Extends-refl}

module _ {C : Type 0} where
  -- The books with a new one for a term.
  unfoldable pub write : (ℕ → List (LogEntry C)) → ℕ → List (LogEntry C) → ℕ → List (LogEntry C)
  write book t log s = if t == s then log else book s

  pub write-same :
      (book : ℕ → List (LogEntry C)) (t : ℕ) (log : List (LogEntry C)) → write book t log t ≡ log
  unfolding write
  write-same book t log = ground arith

  write-cases :
      (book : ℕ → List (LogEntry C)) (t : ℕ) (log : List (LogEntry C)) (s : ℕ)
      → (write book t log s ≡ book s) ⊎ ((s ≡ t) × (write book t log s ≡ log))
  unfolding write
  write-cases book t log s = ground arith

  pub write-Extends :
      (book : ℕ → List (LogEntry C)) (t : ℕ) (log : List (LogEntry C))
      → IsPrefix (book t) log
      → Extends (write book t log) book
  write-Extends book t log p s = elim (write-cases book t log s) [
    | inl same ↦ rw same (Extends-refl book s)
    | inr (e, new) ↦ rw (new, e) p
  ]

  pub write-Writes :
      (book : ℕ → List (LogEntry C)) (rf' : Raft C)
      → rf'.state ≡ leader
      → (t : ℕ) → Writes (write book rf'.term rf'.log) book rf' t
  write-Writes book rf' l t = elim (write-cases book rf'.term rf'.log t) [
    | inl same ↦ inl same
    | inr (e, new) ↦ inr (e, l, new)
  ]

  pub HasDummy-IsPrefix : (log : List (LogEntry C)) → HasDummy log → IsPrefix dummy_log log
  HasDummy-IsPrefix [] d = ground arith
  HasDummy-IsPrefix (x ∷ xs) d = ap (λ e. e ∷ []) (some-eq d)
