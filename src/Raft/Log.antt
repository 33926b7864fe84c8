-- ===== src/Raft/Log.antt =====
-- The log helpers of src/raft/raft.go. Index 0 holds a dummy entry, so the log is never empty.
pub mod Sync
use cs.Prelude.{
  ℕ, zero, suc, ◌+◌, ◌-◌, ℤ, pos, minus_one, Bool, false, List, [], ◌∷◌, ◌++◌, Option, none, some,
  length, get_elem?, take, drop, ltb, ◌==◌, ◌==ℤ◌, if◌then◌else◌,
}
use cs.Raft.Defs.{LogEntry}

-- The start index, clamped to the log's length.
unfoldable pub clamp : ℕ → ℕ → ℕ
clamp start len = if ltb len start then len else start

module _ {C : Type 0} where
  -- Go's result on an empty log, -1, is not met: a log holds the dummy entry.
  unfoldable pub last_log_index_locked : List (LogEntry C) → ℕ
  last_log_index_locked log = length log - 1

  term_of : Option (LogEntry C) → Option ℕ
  term_of none = none
  term_of (some e) = some e.term

  -- `none` is the panic on an empty log.
  unfoldable pub last_log_term_locked : List (LogEntry C) → Option ℕ
  unfolding term_of
  last_log_term_locked log = term_of (get_elem? log (length log - 1))

  term_or_minus_one : Option (LogEntry C) → ℤ
  term_or_minus_one none = minus_one
  term_or_minus_one (some e) = pos e.term

  -- The test for an index out of range is `get_elem?`'s.
  unfoldable pub term_at_locked : List (LogEntry C) → ℕ → ℤ
  unfolding term_or_minus_one
  term_at_locked log zero = pos 0
  term_at_locked log (suc i) = term_or_minus_one (get_elem? log (suc i))

  has_term : Option (LogEntry C) → ℕ → Bool
  has_term none t = false
  has_term (some e) t = e.term == t

  unfoldable pub log_contains_locked : List (LogEntry C) → ℕ → ℕ → Bool
  unfolding has_term
  log_contains_locked log zero prev_term = prev_term == 0
  log_contains_locked log (suc i) prev_term = has_term (get_elem? log (suc i)) prev_term

  -- The loop of syncLocked that skips the entries whose terms agree. It walks the log from the
  -- start index and the entries together; the result is the number of entries skipped.
  unfoldable pub agreeing : List (LogEntry C) → List (LogEntry C) → ℕ
  agreeing [] entries = 0
  agreeing (x ∷ xs) [] = 0
  agreeing (x ∷ xs) (e ∷ es) = let rest = agreeing xs es in if x.term == e.term then suc rest else 0

  -- syncLocked once its start index is clamped: cut the log after the agreeing entries, and append
  -- those that are left.
  unfoldable pub sync_at : List (LogEntry C) → ℕ → List (LogEntry C) → List (LogEntry C)
  unfolding agreeing
  sync_at log start entries =
      let j = agreeing (drop start log) entries in take (start + j) log ++ drop j entries

  unfoldable pub sync_locked : List (LogEntry C) → ℕ → List (LogEntry C) → List (LogEntry C)
  unfolding clamp sync_at
  sync_locked log start [] = log
  sync_locked log start (e ∷ es) = sync_at log (clamp start (length log)) (e ∷ es)

  -- The search in AppendEntries for the first index of the conflicting term, from index i down.
  unfoldable pub first_index_of : List (LogEntry C) → ℤ → ℕ → ℕ
  unfolding term_at_locked
  first_index_of log ct zero = 0
  first_index_of log ct (suc i) =
      let below = first_index_of log ct i in if term_at_locked log i ==ℤ ct then below else suc i
