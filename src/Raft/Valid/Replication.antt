-- ===== src/Raft/Valid/Replication.antt =====
-- The handlers of log replication end without a panic and keep the state well-formed.
use cs.Prelude.{
  ℕ, ◌+◌, ◌-◌, ◌≤◌, ◌<◌, ◌≡◌, inl, inr, Option, arith, length, ltb, List, [], ◌∷◌, ◌++◌, ◌⊎◌, true,
  false, length-append, length-set, Bool-cases, Ends, Ends->>=, Ends-map, Ends-result, get_elem?-lt,
}
use cs.Raft.Defs.{Raft, World, Gob, AppendEntriesArgs, AppendEntriesReply, LogEntry, leader}
use cs.Raft.Log.Sync.{length-sync_locked}
use cs.Raft.Vote.{Led}
use cs.Raft.Append.{append_entries}
use cs.Raft.Commit.{try_advance_commit_locked}
use cs.Raft.Commit.Majority.{try_advance_commit_locked-IsAdvance}
use cs.Raft.Replicate.{
  leads, Prepared, Answered, prepare, at_least_one, backtrack, record_match, retry, last_index_of,
  answered,
}
use cs.Raft.Replicate.Backtrack.{IsLast, last_index_of-IsLast}
use cs.Raft.Client.{Started, start}
use cs.Raft.Valid.{AllLe, LeaderArrays, IsValid, AllLe-set, AllLe-mono, AllLe-get}

leads-cases :
    {C : Type 0} (leader_term : ℕ) (rf : Raft C)
    → ((leads leader_term rf ≡ true) × (rf.state ≡ leader) × (rf.term ≡ leader_term))
      ⊎ (leads leader_term rf ≡ false)
unfolding leads
leads-cases leader_term rf = ground arith

module _ {C : Type 0} (g : Gob C) where
  pub append_entries-IsValid :
      (w : World) (args : AppendEntriesArgs C) (rf : Raft C)
      → IsValid rf
      → IsValid (append_entries g w args rf).node
  unfolding append_entries
  append_entries-IsValid w args rf v =
      ground (arith, length-sync_locked rf.log (args.prev_log_index + 1) args.entries)

  -- A command from the service is never lost to a panic.
  pub start-IsValid :
      (command : Option C) (rf : Raft C)
      → IsValid rf
      → Ends (λ (s : Started C). IsValid s.node) (start g command rf)
  unfolding start
  start-IsValid command rf v =
      let log' = rf.log ++ record { term = rf.term; command = command } ∷ [] in
      let l = length-append rf.log (record { term = rf.term; command = command } ∷ []) in
      ground (
        arith,
        l,
        length-set rf.match_index rf.me (length log' - 1),
        length-set rf.next_index rf.me (length log' - 1 + 1),
        λ (h : AllLe (length rf.log) rf.next_index).
            AllLe-set (length log') rf.next_index rf.me (length log' - 1 + 1) (omega arith)
              (AllLe-mono (length rf.log) (length log') rf.next_index (omega arith) h),
      )

  try_advance_commit_locked-IsValid :
      (rf : Raft C)
      → 0 < length rf.log
      → rf.me < rf.peers
      → LeaderArrays rf
      → Ends (λ (l : Led C). IsValid l.node) (try_advance_commit_locked rf)
  try_advance_commit_locked-IsValid rf d s a =
      Ends-map _ _ (try_advance_commit_locked rf)
        (λ l h.
          let v : IsValid (record rf { commit_index = l.node.commit_index }) = ground arith in
          rw h.1 v)
        (try_advance_commit_locked-IsAdvance rf a.match_length s d)

  -- A round of replicateTo that finds the leader in office sends what the follower lacks.
  pub prepare-IsValid :
      (peer leader_term : ℕ) (rf : Raft C)
      → IsValid rf
      → peer < rf.peers
      → Ends (λ (p : Prepared C). IsValid p.node) (prepare peer leader_term rf)
  unfolding prepare
  prepare-IsValid peer leader_term rf v h = elim (leads-cases leader_term rf) [
    | inl (e, l, _) ↦
        let a = v.arrays l in
        let (next, p) = get_elem?-lt rf.next_index peer (omega (arith, a.next_length)) in
        rw (e, p)
          (ground (
            arith,
            AllLe-get (length rf.log) rf.next_index peer a.next_bound p,
            length-set rf.next_index peer 1,
            AllLe-set (length rf.log) rf.next_index peer 1 v.has_dummy a.next_bound,
          ))
    | inr e ↦ rw e v
  ]

  backtrack-bound :
      (log : List (LogEntry C)) (reply : AppendEntriesReply)
      → 0 < length log
      → reply.conflict_index ≤ length log
      → Ends (λ n. n ≤ length log) (backtrack log reply)
  unfolding backtrack
  backtrack-bound log reply d h = ground (
    arith,
    Ends-result (IsLast log reply.conflict_term (length log - 1))
        (last_index_of log reply.conflict_term (length log - 1))
        (last_index_of-IsLast log reply.conflict_term (length log - 1) (omega arith)),
  )

  record_match-IsValid :
      (peer match : ℕ) (rf : Raft C)
      → IsValid rf
      → LeaderArrays rf
      → peer < rf.peers
      → match < length rf.log
      → Ends (λ (r : Raft C). IsValid r × LeaderArrays r) (record_match peer match rf)
  unfolding record_match
  record_match-IsValid peer match rf v a h m = ground (
    arith,
    get_elem?-lt rf.match_index peer (omega (arith, a.match_length)),
    length-set rf.match_index peer match,
    length-set rf.next_index peer (match + 1),
    AllLe-set (length rf.log) rf.next_index peer (match + 1) (omega arith) a.next_bound,
  )

  retry-IsValid :
      (peer : ℕ) (reply : AppendEntriesReply) (rf : Raft C)
      → IsValid rf
      → LeaderArrays rf
      → peer < rf.peers
      → reply.conflict_index ≤ length rf.log
      → Ends (λ (a : Answered C). IsValid a.node) (retry peer reply rf)
  unfolding retry
  retry-IsValid peer reply rf v a h c =
      Ends->>= _ _ (backtrack rf.log reply) _ (backtrack-bound rf.log reply v.has_dummy c) λ next b.
        ground (
          arith,
          length-set rf.next_index peer (at_least_one next),
          AllLe-set (length rf.log) rf.next_index peer (at_least_one next)
              (let d = v.has_dummy in ground arith) a.next_bound,
        )

  -- The answer to a call is handled without a panic, where what was sent is part of the log and
  -- the conflict index lies within it.
  pub answered-IsValid :
      (w : World) (peer leader_term : ℕ) (args : AppendEntriesArgs C) (reply : AppendEntriesReply)
      (rf : Raft C)
      → IsValid rf
      → peer < rf.peers
      → args.prev_log_index + length args.entries < length rf.log
      → reply.conflict_index ≤ args.prev_log_index
      → Ends (λ (a : Answered C). IsValid a.node) (answered g w peer leader_term args reply rf)
  unfolding answered
  answered-IsValid w peer leader_term args reply rf v h sent conflict =
      elim (Bool-cases (ltb rf.term reply.term)) [
        | inl old ↦ rw old (ground arith)
        | inr current ↦ elim (leads-cases leader_term rf) [
          | inr e ↦ rw (current, e) v
          | inl (e, l, _) ↦ elim (Bool-cases reply.success) [
            | inr failed ↦
                rw (current, e, failed) (retry-IsValid peer reply rf v (v.arrays l) h (omega arith))
            | inl done ↦
                rw (current, e, done)
                  (Ends->>= _ _ (record_match peer (args.prev_log_index + length args.entries) rf) _
                    (record_match-IsValid peer _ rf v (v.arrays l) h sent)
                    λ r (vr, ar).
                      Ends->>= _ _ (try_advance_commit_locked r) _
                        (try_advance_commit_locked-IsValid r vr.has_dummy vr.self ar) (λ l k. k))
          ]
        ]
      ]
