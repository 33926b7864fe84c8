-- ===== src/Raft/Election/Laws.antt =====
-- Elections in src/raft/raft.go: when a vote is given, when a candidate wins, when a timer runs out.
use cs.Prelude.{
  ℕ, ◌+◌, ◌/◌, ◌≤◌, ◌<◌, ◌≡◌, ◌≢◌, ◌↔◌, ◌⊎◌, pos, minus_one, true, some, arith, ==ℤ_iff,
}
use cs.Raft.Defs.{
  Raft, leader, candidate, World, Gob, RequestVoteArgs, RequestVoteReply, min_election_timeout,
  max_election_timeout,
}
use cs.Raft.Log.{last_log_index_locked, last_log_term_locked}
use cs.Raft.Vote.{VoteResult, request_vote, step_down_locked, become_leader_locked}
use cs.Raft.Election.{VoteCounted, candidacy, count_vote}

module _ {C : Type 0} (g : Gob C) (w : World) where
  -- RequestVote gives the vote exactly when the candidate's term is not older than the server's,
  -- the server has not voted for another candidate in that term, and the candidate's log is at
  -- least as new as the server's: a higher last term, or the same and at least the same length.
  pub request_vote-granted_iff :
      (args : RequestVoteArgs) (rf : Raft C) (last_term : ℕ) (r : VoteResult C)
      → last_log_term_locked rf.log ≡ some last_term
      → request_vote g w args rf ≡ some r
      → (r.reply.vote ≡ true) ↔ (
          (rf.term ≤ args.election_term)
          × ((rf.term < args.election_term)
              ⊎ (rf.voted_for ≡ minus_one)
              ⊎ (rf.voted_for ≡ pos args.candidate_id))
          × ((last_term < args.last_log_term)
              ⊎ ((args.last_log_term ≡ last_term)
                  × (last_log_index_locked rf.log ≤ args.last_log_index))))
  unfolding request_vote
  request_vote-granted_iff args rf last_term r l e = (
    λ v.
        ground
          (arith, ==ℤ_iff rf.voted_for minus_one, ==ℤ_iff rf.voted_for (pos args.candidate_id)),
    λ v.
        ground
          (arith, ==ℤ_iff rf.voted_for minus_one, ==ℤ_iff rf.voted_for (pos args.candidate_id)),
  )

  -- A server becomes leader by an answer exactly when it is a candidate in the term of the election,
  -- the answer is a vote and no newer term, and the vote makes a majority of its count.
  pub count_vote-won_iff :
      (n_peers term : ℕ) (reply : RequestVoteReply) (rf : Raft C) (c : VoteCounted C)
      → count_vote g w n_peers term reply rf ≡ some c
      → (c.won ≡ true) ↔ (
          (reply.election_term ≤ rf.term)
          × (reply.vote ≡ true)
          × (rf.state ≡ candidate)
          × (rf.term ≡ term)
          × (n_peers / 2 < rf.vote_count + 1))
  unfolding count_vote
  count_vote-won_iff n_peers term reply rf c e = (λ v. ground arith, λ v. ground arith)

  -- The votes of an older election are counted in the current one: after an answer to an election
  -- of another term, a candidate becomes leader by one vote less of its own term.
  pub stale_vote-wins :
      (w' : World) (n_peers old_term : ℕ) (stale vote : RequestVoteReply) (rf : Raft C)
      {c c' : VoteCounted C}
      → rf.state ≡ candidate
      → stale.vote ≡ true
      → stale.election_term ≤ rf.term
      → rf.term ≢ old_term
      → vote.vote ≡ true
      → vote.election_term ≤ rf.term
      → n_peers / 2 < rf.vote_count + 2
      → count_vote g w n_peers old_term stale rf ≡ some c
      → count_vote g w' n_peers rf.term vote c.node ≡ some c'
      → (c'.won ≡ true) × (c'.node.state ≡ leader)
  unfolding count_vote become_leader_locked
  stale_vote-wins w' n_peers old_term stale vote rf a b d e f h i j k = ground arith

  -- The election timeout that a server draws lies between the two constants, if Int63n(n) is below n.
  pub election_timeout_bounds :
      ((n : ℕ) → 0 < n → w.int63n n < n)
      → (rf : Raft C) (term : ℕ)
      → (min_election_timeout ≤ (step_down_locked g w term rf).election_timeout)
        × ((step_down_locked g w term rf).election_timeout < max_election_timeout)
        × (min_election_timeout ≤ (candidacy g w rf).election_timeout)
        × ((candidacy g w rf).election_timeout < max_election_timeout)
  unfolding step_down_locked candidacy
  election_timeout_bounds h rf term = ground (arith, h 400_000_000)
