-- ===== src/Raft/Append/Laws.antt =====
-- AppendEntries of src/raft/raft.go: when it succeeds, what it leaves in the log, and what a
-- refusal tells the leader.
use cs.Prelude.{
  suc, ◌+◌, ◌-◌, ◌≤◌, ◌<◌, ◌≡◌, ◌↔◌, ap, List, ◌∷◌, ◌++◌, none, arith, true, length, length-append,
  length-take, length-map, take, get_elem?, get_elem?-eq_none, ==ℤ_iff,
}
use cs.Raft.Defs.{LogEntry, Raft, World, Gob, AppendEntriesArgs}
use cs.Raft.Log.{last_log_index_locked, term_at_locked, sync_locked}
use cs.Raft.Log.Sync.{terms, sync_locked-terms}
use cs.Raft.Append.{append_entries}
use cs.Raft.Replicate.Backtrack.{first_index_of-le}

module _ {C : Type 0} (g : Gob C) (w : World) (args : AppendEntriesArgs C) (rf : Raft C) where
  -- AppendEntries succeeds exactly when the message is not from an older term, and the server has
  -- an entry of the stated term at the stated index.
  pub append_entries-success_iff : ((append_entries g w args rf).reply.success ≡ true) ↔ (
      (rf.term ≤ args.term)
      × (args.prev_log_index ≤ last_log_index_locked rf.log)
      × (term_at_locked rf.log args.prev_log_index ≡ args.prev_log_term))
  unfolding append_entries
  append_entries-success_iff = (
    λ h. ground (arith, ==ℤ_iff (term_at_locked rf.log args.prev_log_index) args.prev_log_term),
    λ h. ground (arith, ==ℤ_iff (term_at_locked rf.log args.prev_log_index) args.prev_log_term),
  )

  pub append_entries-log :
      (append_entries g w args rf).reply.success ≡ true
      → (append_entries g w args rf).node.log
        ≡ sync_locked rf.log (args.prev_log_index + 1) args.entries
  unfolding append_entries
  append_entries-log h = ground arith

  -- After a success the terms of the log are those up to the index that was checked, and then
  -- those of the entries; whatever the log held behind them is gone.
  pub append_entries-terms :
      (e : LogEntry C) (es : List (LogEntry C))
      → (append_entries g w args rf).reply.success ≡ true
      → args.entries ≡ e ∷ es
      → terms (append_entries g w args rf).node.log
        ≡ take (args.prev_log_index + 1) (terms rf.log) ++ terms (e ∷ es)
  append_entries-terms e es h k =
      rw (append_entries-log h, k) (sync_locked-terms rf.log (args.prev_log_index + 1) e es)

  -- Whether it succeeds or not, the conflict index of the reply is at most the index that was
  -- checked.
  pub append_entries-conflict_le :
      (append_entries g w args rf).reply.conflict_index ≤ args.prev_log_index
  unfolding append_entries
  append_entries-conflict_le = ground (
    arith,
    first_index_of-le rf.log (term_at_locked rf.log args.prev_log_index) args.prev_log_index,
  )

  length-append_entries :
      (e : LogEntry C) (es : List (LogEntry C))
      → (append_entries g w args rf).reply.success ≡ true
      → args.entries ≡ e ∷ es
      → length (append_entries g w args rf).node.log ≤ args.prev_log_index + 1 + suc (length es)
  length-append_entries e es h k =
      let log' = (append_entries g w args rf).node.log in
      omega (
        arith,
        length-map log' (λ x. x.term),
        length-map es (λ x. x.term),
        ap length (append_entries-terms e es h k),
        length-append (take (args.prev_log_index + 1) (terms rf.log)) (terms (e ∷ es)),
        length-take (args.prev_log_index + 1) (terms rf.log),
      )

  commit-append_entries :
      (append_entries g w args rf).reply.success ≡ true
      → rf.commit_index < args.leader_commit
      → (append_entries g w args rf).node.commit_index
        ≤ length (append_entries g w args rf).node.log - 1
  unfolding append_entries
  commit-append_entries h c = ground arith

  -- A late message that still succeeds, and whose entries end before the server's commit index,
  -- takes the committed entry out of the log, also where every entry that it carries is in the log
  -- already. If its own commit index is higher than the server's, the server's falls.
  pub late_append-loses_commit :
      (e : LogEntry C) (es : List (LogEntry C))
      → (append_entries g w args rf).reply.success ≡ true
      → args.entries ≡ e ∷ es
      → args.prev_log_index + suc (length es) < rf.commit_index
      → (get_elem? (append_entries g w args rf).node.log rf.commit_index ≡ none)
        × (rf.commit_index < args.leader_commit
            → (append_entries g w args rf).node.commit_index < rf.commit_index)
  late_append-loses_commit e es h k late = (
    get_elem?-eq_none _ rf.commit_index (omega (arith, length-append_entries e es h k)),
    λ c. omega (arith, length-append_entries e es h k, commit-append_entries h c),
  )
