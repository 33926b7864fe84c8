-- ===== src/Raft/Durable.antt =====
-- Every handler of src/raft/raft.go leaves a state that a restart recovers: whatever it changes of
-- the term, the vote and the log is persisted before it gives up the lock.
use cs.Prelude.{
  ℕ, ◌+◌, ◌<◌, ◌≡◌, pos, minus_one, Option, some, arith, length, length-append, [], ◌∷◌, ◌++◌,
}
use cs.Raft.Defs.{
  Raft, leader, follower, World, Gob, RequestVoteArgs, RequestVoteReply, HeartbeatArgs,
  HeartbeatReply, AppendEntriesArgs, AppendEntriesReply,
}
use cs.Raft.Persist.Durable.{GobLaws, IsDurable, persist-IsDurable}
use cs.Raft.Log.{sync_locked}
use cs.Raft.Log.Sync.{length-sync_locked}
use cs.Raft.Vote.{VoteResult, Led, step_down_locked, request_vote, become_leader_locked}
use cs.Raft.Election.{Election, VoteCounted, start_election, count_vote}
use cs.Raft.Heartbeat.{heartbeat, beat_answered}
use cs.Raft.Append.{append_entries}
use cs.Raft.Commit.{try_advance_commit_locked}
use cs.Raft.Replicate.{Prepared, Answered, prepare, answered}
use cs.Raft.Client.{Started, start}

module _ {C : Type 0} (g : Gob C) (laws : GobLaws g) (w : World) (rf : Raft C)
    (d : 0 < length rf.log) where
  pub step_down_locked-IsDurable : (term : ℕ) → IsDurable g (step_down_locked g w term rf)
  unfolding step_down_locked
  step_down_locked-IsDurable term v = ground (
    arith,
    persist-IsDurable g laws
        (record rf { term = term; voted_for = minus_one; state = follower; vote_count = 0 }) d v,
    persist-IsDurable g laws (record rf { voted_for = minus_one; state = follower; vote_count = 0 })
        d v,
  )

  pub become_leader_locked-IsDurable :
      {l : Led C} → become_leader_locked g rf ≡ some l → IsDurable g l.node
  unfolding become_leader_locked
  become_leader_locked-IsDurable e v =
      ground (arith, persist-IsDurable g laws (record rf { state = leader }) d v)

  -- A vote is persisted before it is given.
  pub request_vote-IsDurable :
      (args : RequestVoteArgs) {r : VoteResult C}
      → IsDurable g rf
      → request_vote g w args rf ≡ some r
      → IsDurable g r.node
  unfolding request_vote
  request_vote-IsDurable args s e v = ground (
    arith,
    s v,
    step_down_locked-IsDurable args.election_term v,
    persist-IsDurable g laws (record rf { voted_for = pos args.candidate_id }) d v,
    persist-IsDurable g laws
        (record rf { term = args.election_term; voted_for = pos args.candidate_id }) d v,
  )

  pub heartbeat-IsDurable :
      (args : HeartbeatArgs) → IsDurable g rf → IsDurable g (heartbeat g w args rf).node
  unfolding heartbeat
  heartbeat-IsDurable args s v = ground (
    arith,
    s v,
    persist-IsDurable g laws (record rf { last_heartbeat = w.now; state = follower }) d v,
    persist-IsDurable g laws
        (record rf {
          term = args.term;
          voted_for = minus_one;
          last_heartbeat = w.now;
          state = follower;
        })
        d v,
  )

  pub beat_answered-IsDurable :
      (t : ℕ) (reply : HeartbeatReply) → IsDurable g rf → IsDurable g (beat_answered g w t reply rf)
  unfolding beat_answered
  beat_answered-IsDurable t reply s v = ground (arith, s v, step_down_locked-IsDurable reply.term v)

  pub start_election-IsDurable :
      {e : Election C} → start_election g w rf ≡ some e → IsDurable g e.node
  unfolding start_election become_leader_locked
  start_election-IsDurable e v = ground (
    arith,
    persist-IsDurable g laws (record rf { term = rf.term + 1; voted_for = pos rf.me }) d v,
  )

  pub append_entries-IsDurable :
      (args : AppendEntriesArgs C) → IsDurable g rf → IsDurable g (append_entries g w args rf).node
  unfolding append_entries
  append_entries-IsDurable args s v =
      let log' = sync_locked rf.log (args.prev_log_index + 1) args.entries in
      let d' : 0 < length log' =
        omega (arith, length-sync_locked rf.log (args.prev_log_index + 1) args.entries) in
      ground (
        arith,
        s v,
        step_down_locked-IsDurable args.term v,
        persist-IsDurable g laws (record rf { log = log' }) d' v,
        persist-IsDurable g laws (record rf { term = args.term; voted_for = minus_one; log = log' })
            d' v,
      )

  pub start-IsDurable :
      (command : Option C) {s : Started C}
      → IsDurable g rf
      → start g command rf ≡ some s
      → IsDurable g s.node
  unfolding start
  start-IsDurable command s e v =
      let log' = rf.log ++ record { term = rf.term; command = command } ∷ [] in
      ground (
        arith,
        s v,
        persist-IsDurable g laws (record rf { log = log' })
            (omega
              (arith, length-append rf.log (record { term = rf.term; command = command } ∷ [])))
            v,
      )

module _ {C : Type 0} (g : Gob C) (laws : GobLaws g) (w : World) (rf : Raft C)
    (d : 0 < length rf.log) where
  pub count_vote-IsDurable :
      (n_peers term : ℕ) (reply : RequestVoteReply) {c : VoteCounted C}
      → IsDurable g rf
      → count_vote g w n_peers term reply rf ≡ some c
      → IsDurable g c.node
  unfolding count_vote become_leader_locked
  count_vote-IsDurable n_peers term reply s e v = ground (
    arith,
    s v,
    step_down_locked-IsDurable g laws w rf d reply.election_term v,
    persist-IsDurable g laws rf d v,
  )

  pub prepare-IsDurable :
      (peer leader_term : ℕ) {p : Prepared C}
      → IsDurable g rf
      → prepare peer leader_term rf ≡ some p
      → IsDurable g p.node
  unfolding prepare
  prepare-IsDurable peer leader_term s e v = ground (arith, s v)

  pub answered-IsDurable :
      (peer leader_term : ℕ) (args : AppendEntriesArgs C) (reply : AppendEntriesReply)
      {a : Answered C}
      → IsDurable g rf
      → answered g w peer leader_term args reply rf ≡ some a
      → IsDurable g a.node
  unfolding answered try_advance_commit_locked
  answered-IsDurable peer leader_term args reply s e v =
      ground (arith, s v, step_down_locked-IsDurable g laws w rf d reply.term v)
