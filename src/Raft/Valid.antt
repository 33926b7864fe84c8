-- ===== src/Raft/Valid.antt =====
-- The well-formed states of the server of src/raft/raft.go, and the helper lemmas about them.
-- Each handler ends without a panic in a well-formed state, and leaves a well-formed state.
pub mod Voting
pub mod Replication
use cs.Prelude.{
  ℕ, zero, suc, ◌+◌, ◌-◌, ◌≤◌, ◌<◌, ◌≡◌, List, [], ◌∷◌, ◌++◌, Option, some, arith, length,
  get_elem?, set, replicate, get_elem?-lt,
}
use cs.Raft.Defs.{LogEntry, Raft, leader}
use cs.Raft.Log.{last_log_term_locked}

-- Every number of the list is at most the bound.
abbrev pub AllLe : ℕ → List ℕ → Type 0
AllLe bound [] = Unit
AllLe bound (x ∷ xs) = (x ≤ bound) × AllLe bound xs

pub AllLe-replicate : (bound n x : ℕ) → x ≤ bound → AllLe bound (replicate n x)
AllLe-replicate bound zero x h = tt
AllLe-replicate bound (suc n) x h = (h, AllLe-replicate bound n x h)

pub AllLe-set :
    (bound : ℕ) (xs : List ℕ) (i x : ℕ) → x ≤ bound → AllLe bound xs → AllLe bound (set xs i x)
AllLe-set bound [] i x h a = tt
AllLe-set bound (y ∷ ys) zero x h a = (h, a.1)
AllLe-set bound (y ∷ ys) (suc i) x h a = (a.0, AllLe-set bound ys i x h a.1)

pub AllLe-mono : (a b : ℕ) (xs : List ℕ) → a ≤ b → AllLe a xs → AllLe b xs
AllLe-mono a b [] h k = tt
AllLe-mono a b (x ∷ xs) h k = (omega arith, AllLe-mono a b xs h k.1)

pub AllLe-get :
    (bound : ℕ) (xs : List ℕ) (i : ℕ) {x : ℕ} → AllLe bound xs → get_elem? xs i ≡ some x → x ≤ bound
AllLe-get bound [] i a e = ground arith
AllLe-get bound (y ∷ ys) zero a e = ground arith
AllLe-get bound (y ∷ ys) (suc i) a e = AllLe-get bound ys i a.1 e

-- What holds of a leader's two arrays.
pub record LeaderArrays {C : Type 0} (rf : Raft C) : Type 0 where
  pub next_length : length rf.next_index ≡ rf.peers
  pub match_length : length rf.match_index ≡ rf.peers
  pub next_bound : AllLe (length rf.log) rf.next_index

pub record IsValid {C : Type 0} (rf : Raft C) : Type 0 where
  pub has_dummy : 0 < length rf.log
  pub self : rf.me < rf.peers
  pub arrays : rf.state ≡ leader → LeaderArrays rf

module _ {C : Type 0} where
  -- The last entry of a log with a dummy entry has a term.
  pub last_log_term_locked-some :
      (log : List (LogEntry C)) → 0 < length log → (t : ℕ) × (last_log_term_locked log ≡ some t)
  unfolding last_log_term_locked
  last_log_term_locked-some log h =
      let (e, p) = get_elem?-lt log (length log - 1) (omega arith) in (e.term, ground arith)
