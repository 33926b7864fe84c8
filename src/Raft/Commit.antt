-- ===== src/Raft/Commit.antt =====
-- tryAdvanceCommitLocked of src/raft/raft.go. `none` is a panic: an index out of range.
pub mod Majority
use cs.Prelude.{
  ℕ, zero, suc, ◌+◌, ◌/◌, List, [], Option, some, get_elem?, ltb, leb, ◌==◌, if◌then◌else◌, ◌>>=◌,
}
use cs.Raft.Defs.{Raft}
use cs.Raft.Log.{last_log_index_locked}
use cs.Raft.Vote.{Led, replications}

-- The loop over the peers: one more for each other peer whose match index has reached n.
-- `rounds` is the number of rounds left, i the loop's variable.
unfoldable pub count_matched : (match_index : List ℕ) (me n rounds i count : ℕ) → Option ℕ
count_matched match_index me n zero i count = some count
count_matched match_index me n (suc rounds) i count =
    let rest = λ (c : ℕ). count_matched match_index me n rounds (i + 1) c in
    if i == me
    then rest count
    else (get_elem? match_index i >>= λ m. rest (if leb n m then count + 1 else count))

module _ {C : Type 0} where
  -- The loop over N, from its first value down to commitIndex: the commit index that it leaves.
  unfoldable pub find_commit : Raft C → ℕ → Option ℕ
  unfolding count_matched
  find_commit rf zero = some rf.commit_index
  find_commit rf (suc n) =
      let below = find_commit rf n in
      if leb (suc n) rf.commit_index
      then some rf.commit_index
      else (get_elem? rf.log (suc n) >>= λ entry.
          if entry.term == rf.term
          then (count_matched rf.match_index rf.me (suc n) rf.peers 0 1 >>= λ count.
              if ltb (rf.peers / 2) count then some (suc n) else below)
          else below)

  -- The calls of replicateTo push the new commit index to the peers.
  unfoldable pub try_advance_commit_locked : Raft C → Option (Led C)
  unfolding find_commit replications last_log_index_locked
  try_advance_commit_locked rf = find_commit rf (last_log_index_locked rf.log) >>= λ commit.
      some (record {
        node = record rf { commit_index = commit };
        replications =
            if ltb rf.commit_index commit then replications rf.peers rf.me rf.term else [];
      })
