-- ===== src/Raft/Append.antt =====
-- AppendEntries of src/raft/raft.go.
pub mod Laws
use cs.Prelude.{ℕ, ◌+◌, ℤ, pos, minus_one, true, false, not, ltb, ◌==ℤ◌, if◌then◌else◌}
use cs.Raft.Defs.{Raft, follower, World, Gob, AppendEntriesArgs, AppendEntriesReply}
use cs.Raft.Persist.{persist, update_last_heartbeat_locked}
use cs.Raft.Log.{last_log_index_locked, term_at_locked, sync_locked, first_index_of}
use cs.Raft.Vote.{step_down_locked}

pub record AppendResult (C : Type 0) : Type 0 where
  pub node : Raft C
  pub reply : AppendEntriesReply

-- A reply that is not a success.
abbrev pub refusal : (term : ℕ) → ℤ → ℕ → AppendEntriesReply
refusal term conflict_term conflict_index = record {
  term = term;
  success = false;
  conflict_term = conflict_term;
  conflict_index = conflict_index;
}

module _ {C : Type 0} where
  -- The new commit index: the leader's, but at most the last index of the log.
  commit_up_to : ℕ → Raft C → Raft C
  unfolding last_log_index_locked
  commit_up_to leader_commit rf =
      let last = last_log_index_locked rf.log in
      if ltb rf.commit_index leader_commit
      then record rf { commit_index = if ltb leader_commit last then leader_commit else last }
      else rf

  -- AppendEntries from the merge of the entries on.
  unfoldable pub accept : Gob C → AppendEntriesArgs C → Raft C → AppendResult C
  unfolding persist sync_locked commit_up_to
  accept g args rf =
      let merged = record rf { log = sync_locked rf.log (args.prev_log_index + 1) args.entries } in
      record {
        node = commit_up_to args.leader_commit (persist g merged);
        reply = record {
          term = rf.term;
          success = true;
          conflict_term = pos 0;
          conflict_index = 0;
        };
      }

  -- AppendEntries from the consistency check on; `old_term` is the term that the reply holds.
  unfoldable pub check : Gob C → AppendEntriesArgs C → ℕ → Raft C → AppendResult C
  unfolding last_log_index_locked accept term_at_locked first_index_of
  check g args old_term rf =
      let prev = args.prev_log_index in
      let ct = term_at_locked rf.log prev in
      if ltb (last_log_index_locked rf.log) prev
      then record {
        node = rf;
        reply = refusal old_term minus_one (last_log_index_locked rf.log + 1);
      }
      else if not (ct ==ℤ args.prev_log_term)
      then record { node = rf; reply = refusal old_term ct (first_index_of rf.log ct prev) }
      else accept g args rf

  -- The state in which AppendEntries makes its check, for a message that is not old.
  unfoldable pub follow : Gob C → World → ℕ → Raft C → Raft C
  unfolding step_down_locked update_last_heartbeat_locked
  follow g w term rf =
      update_last_heartbeat_locked w
        (if ltb rf.term term then step_down_locked g w term rf else record rf { state = follower })

  unfoldable pub append_entries : Gob C → World → AppendEntriesArgs C → Raft C → AppendResult C
  unfolding check follow
  append_entries g w args rf =
      if ltb args.term rf.term
      then record { node = rf; reply = refusal rf.term (pos 0) 0 }
      else check g args rf.term (follow g w args.term rf)
