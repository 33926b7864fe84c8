-- ===== src/Raft/Valid/Voting.antt =====
-- The handlers of elections and heartbeats end without a panic and keep the state well-formed.
use cs.Prelude.{
  ℕ, ◌+◌, ◌-◌, ◌<◌, ◌≡◌, refl, inl, inr, arith, length, List, [], ◌∷◌, replicate, ltb, length-set,
  length-replicate, Bool-cases, Ends,
}
use cs.Raft.Defs.{
  Raft, follower, Persister, World, Gob, RequestVoteArgs, RequestVoteReply, HeartbeatArgs,
  HeartbeatReply,
}
use cs.Raft.Persist.{make, read_persist, read_raft_state, fresh}
use cs.Raft.Vote.{VoteResult, Led, step_down_locked, request_vote, become_leader_locked}
use cs.Raft.Election.{Election, VoteCounted, candidacy, start_election, count_vote}
use cs.Raft.Heartbeat.{heartbeat, beat_answered}
use cs.Raft.Valid.{IsValid, AllLe-replicate, AllLe-set, last_log_term_locked-some}

module _ {C : Type 0} (g : Gob C) where
  pub step_down_locked-IsValid :
      (w : World) (term : ℕ) (rf : Raft C) → IsValid rf → IsValid (step_down_locked g w term rf)
  unfolding step_down_locked
  step_down_locked-IsValid w term rf v = ground arith

  -- A server whose index is in range becomes leader, with arrays for all peers.
  pub become_leader_locked-IsValid :
      (rf : Raft C)
      → 0 < length rf.log
      → rf.me < rf.peers
      → Ends (λ (l : Led C). IsValid l.node) (become_leader_locked g rf)
  unfolding become_leader_locked
  become_leader_locked-IsValid rf d s = ground (
    arith,
    length-replicate {A = ℕ} rf.peers 0,
    length-replicate rf.peers (length rf.log - 1 + 1),
    length-set (replicate rf.peers 0) rf.me (length rf.log - 1),
    length-set (replicate rf.peers (length rf.log - 1 + 1)) rf.me (length rf.log - 1 + 1),
    AllLe-set (length rf.log) (replicate rf.peers (length rf.log - 1 + 1)) rf.me
        (length rf.log - 1 + 1) (omega arith)
        (AllLe-replicate (length rf.log) rf.peers (length rf.log - 1 + 1) (omega arith)),
  )

  pub request_vote-IsValid :
      (w : World) (args : RequestVoteArgs) (rf : Raft C)
      → IsValid rf
      → Ends (λ (r : VoteResult C). IsValid r.node) (request_vote g w args rf)
  unfolding request_vote
  request_vote-IsValid w args rf v = elim (Bool-cases (ltb args.election_term rf.term)) [
    | inl old ↦ rw old v
    | inr new ↦ rw new (ground (arith, last_log_term_locked-some rf.log v.has_dummy))
  ]

  pub heartbeat-IsValid :
      (w : World) (args : HeartbeatArgs) (rf : Raft C)
      → IsValid rf
      → IsValid (heartbeat g w args rf).node
  unfolding heartbeat
  heartbeat-IsValid w args rf v = ground arith

  pub beat_answered-IsValid :
      (w : World) (t : ℕ) (reply : HeartbeatReply) (rf : Raft C)
      → IsValid rf
      → IsValid (beat_answered g w t reply rf)
  unfolding beat_answered
  beat_answered-IsValid w t reply rf v = ground arith

  pub start_election-IsValid :
      (w : World) (rf : Raft C)
      → IsValid rf
      → Ends (λ (e : Election C). IsValid e.node) (start_election g w rf)
  unfolding start_election
  start_election-IsValid w rf v = ground (
    arith,
    last_log_term_locked-some rf.log v.has_dummy,
    become_leader_locked-IsValid (candidacy g w rf) v.has_dummy v.self,
  )

  pub count_vote-IsValid :
      (w : World) (n_peers term : ℕ) (reply : RequestVoteReply) (rf : Raft C)
      → IsValid rf
      → Ends (λ (c : VoteCounted C). IsValid c.node) (count_vote g w n_peers term reply rf)
  unfolding count_vote
  count_vote-IsValid w n_peers term reply rf v = ground (
    arith,
    step_down_locked-IsValid w reply.election_term rf v,
    become_leader_locked-IsValid (record rf { vote_count = rf.vote_count + 1 }) v.has_dummy v.self,
  )

  read_persist-IsValid :
      (bytes : List ℕ) (rf : Raft C)
      → rf.state ≡ follower
      → IsValid rf
      → IsValid (read_persist g bytes rf)
  unfolding read_persist
  read_persist-IsValid [] rf f v = v
  read_persist-IsValid (b ∷ bs) rf f v = ground arith

  -- A server that Make returns, from whatever state was persisted, is well-formed.
  pub make-IsValid :
      (w : World) (peers me : ℕ) (ps : Persister) → me < peers → IsValid (make g w peers me ps)
  unfolding make
  make-IsValid w peers me ps h =
      read_persist-IsValid (read_raft_state ps) (fresh w peers me ps) refl (ground arith)
