-- ===== src/Raft/Replicate.antt =====
-- replicateTo of src/raft/raft.go. One round of its loop is `prepare`, the call of AppendEntries
-- without the lock, and `answered`. `none` is a panic: an index out of range.
pub mod Backtrack
pub mod Loop
pub mod Rounds
pub mod Progress
pub mod Converge
use cs.Prelude.{
  ℕ, zero, suc, ◌+◌, ◌-◌, ℤ, pos, negsuc, minus_one, Bool, true, false, ◌&&◌, List, [], Option,
  none, some, length, get_elem?, set, drop, ltb, ◌==◌, ◌==ℤ◌, if◌then◌else◌, ◌>>=◌,
}
use cs.Raft.Defs.{LogEntry, Raft, World, Gob, AppendEntriesArgs, AppendEntriesReply, Replication}
use cs.Raft.Persist.{is_leader}
use cs.Raft.Log.{last_log_index_locked, term_at_locked}
use cs.Raft.Vote.{Led, step_down_locked}
use cs.Raft.Commit.{try_advance_commit_locked}

-- `args` is `none` where the loop returns before it makes the call.
pub record Prepared (C : Type 0) : Type 0 where
  pub node : Raft C
  pub args : Option (AppendEntriesArgs C)

-- `again` says that the loop goes round once more.
pub record Answered (C : Type 0) : Type 0 where
  pub node : Raft C
  pub replications : List Replication
  pub again : Bool

-- a < b, where a is a term.
unfoldable pub below_ℤ : ℕ → ℤ → Bool
below_ℤ a (pos b) = ltb a b
below_ℤ a (negsuc b) = false

unfoldable pub or_conflict : Option ℕ → ℕ → ℕ
or_conflict none conflict_index = conflict_index
or_conflict (some last) conflict_index = last + 1

-- if next < 1 { next = 1 }
unfoldable pub at_least_one : ℕ → ℕ
at_least_one n = if ltb n 1 then 1 else n

module _ {C : Type 0} where
  -- rf.log[next:], which panics past the end of the log.
  unfoldable pub suffix : List (LogEntry C) → ℕ → Option (List (LogEntry C))
  suffix log next = if ltb (length log) next then none else some (drop next log)

  -- The test with which both halves of a round begin, negated.
  unfoldable pub leads : ℕ → Raft C → Bool
  unfolding is_leader
  leads leader_term rf = is_leader rf.state && rf.term == leader_term

  send : ℕ → Raft C → Option (Prepared C)
  unfolding suffix term_at_locked
  send next rf = suffix rf.log next >>= λ entries. some (record {
    node = rf;
    args = some (record {
      term = rf.term;
      leader_id = rf.me;
      prev_log_index = next - 1;
      prev_log_term = term_at_locked rf.log (next - 1);
      entries = entries;
      leader_commit = rf.commit_index;
    });
  })

  unfoldable pub prepare : (peer leader_term : ℕ) → Raft C → Option (Prepared C)
  unfolding leads send
  prepare peer leader_term rf =
      if leads leader_term rf
      then (get_elem? rf.next_index peer >>= λ next.
          if ltb next 1
          then send 1 (record rf { next_index = set rf.next_index peer 1 })
          else send next rf)
      else some (record { node = rf; args = none })

  -- The search for the last index of a term on the leader, from index i down; `none` is -1.
  unfoldable pub last_index_of : List (LogEntry C) → ℤ → ℕ → Option (Option ℕ)
  unfolding below_ℤ
  last_index_of log ct zero = some none
  last_index_of log ct (suc i) =
      let below = last_index_of log ct i in
      get_elem? log (suc i) >>= λ entry.
      if pos entry.term ==ℤ ct
      then some (some (suc i))
      else if below_ℤ entry.term ct
      then some none
      else below

  -- The next index that a refusal leads to, before it is raised to 1.
  unfoldable pub backtrack : List (LogEntry C) → AppendEntriesReply → Option ℕ
  unfolding last_index_of or_conflict last_log_index_locked
  backtrack log reply =
      if reply.conflict_term ==ℤ minus_one
      then some reply.conflict_index
      else (last_index_of log reply.conflict_term (last_log_index_locked log) >>= λ last.
          some (or_conflict last reply.conflict_index))

  finished : Led C → Answered C
  finished l = record { node = l.node; replications = l.replications; again = false }

  stop : Raft C → Answered C
  stop rf = record { node = rf; replications = []; again = false }

  -- The peer has the log up to the last entry that was sent.
  unfoldable pub record_match : (peer match : ℕ) → Raft C → Option (Raft C)
  record_match peer match rf = get_elem? rf.match_index peer >>= λ m.
      if ltb m match
      then (if ltb peer (length rf.next_index)
          then some (record rf {
            match_index = set rf.match_index peer match;
            next_index = set rf.next_index peer (match + 1);
          })
          else none)
      else some rf

  unfoldable pub retry : ℕ → AppendEntriesReply → Raft C → Option (Answered C)
  unfolding backtrack at_least_one
  retry peer reply rf = backtrack rf.log reply >>= λ next.
      if ltb peer (length rf.next_index)
      then some (record {
        node = record rf { next_index = set rf.next_index peer (at_least_one next) };
        replications = [];
        again = true;
      })
      else none

  unfoldable pub answered :
      Gob C
      → World
      → (peer leader_term : ℕ) → AppendEntriesArgs C
      → AppendEntriesReply
      → Raft C
      → Option (Answered C)
  unfolding leads step_down_locked record_match retry stop finished
  answered g w peer leader_term args reply rf =
      if ltb rf.term reply.term
      then some (stop (step_down_locked g w reply.term rf))
      else if leads leader_term rf
      then (if reply.success
          then (record_match peer (args.prev_log_index + length args.entries) rf >>= λ matched.
              try_advance_commit_locked matched >>= λ l. some (finished l))
          else retry peer reply rf)
      else some (stop rf)
