-- ===== src/Raft/Cluster/Roles.antt =====
-- What one event does to the role of a server of src/raft/raft.go: who becomes leader or candidate, and
-- in which term.
use cs.Prelude.{
  ℕ, suc, ◌+◌, ◌/◌, ◌≤◌, ◌<◌, ◌≡◌, ◌⊎◌, some, arith, minus_one, pos, true, Option-cases, inl, inr,
}
use cs.Raft.Defs.{Raft, leader, candidate, World, Gob, RequestVoteArgs, RequestVoteReply}
use cs.Raft.Vote.{VoteResult, Led, step_down_locked, request_vote, become_leader_locked}
use cs.Raft.Election.{Election, VoteCounted, start_election, count_vote}
use cs.Raft.Heartbeat.{heartbeat, start_heartbeat, beat_answered}
use cs.Raft.Append.{append_entries}
use cs.Raft.Commit.{try_advance_commit_locked}
use cs.Raft.Replicate.{prepare, answered}
use cs.Raft.Client.{start, apply_one}
use cs.Raft.Server.{
  Event, elect, beat, vote_asked, beat_received, append_received, vote_answered, beat_returned,
  append_answered, replicate, commanded, applied, step,
}

-- The event has no part in an election.
abbrev pub IsLocal : {C : Type 0} → Event C → Type 0
IsLocal elect = ⊥
IsLocal (vote_asked args) = ⊥
IsLocal (vote_answered term reply) = ⊥
IsLocal _ = Unit

-- No office is gained, and none is kept in a new term.
pub record KeepsRole {C : Type 0} (rf rf' : Raft C) : Type 0 where
  pub same_me : rf'.me ≡ rf.me
  pub same_peers : rf'.peers ≡ rf.peers
  pub leads : rf'.state ≡ leader → (rf.state ≡ leader) × (rf'.term ≡ rf.term)
  pub runs :
      rf'.state ≡ candidate
      → (rf.state ≡ candidate) × (rf'.term ≡ rf.term) × (rf'.vote_count ≤ rf.vote_count)

module _ {C : Type 0} (g : Gob C) (w : World) (rf : Raft C) where
  pub step-KeepsRole :
      (e : Event C) {rf' : Raft C} → IsLocal e → step g w e rf ≡ some rf' → KeepsRole rf rf'
  unfolding step start_heartbeat heartbeat append_entries beat_answered prepare start apply_one
      answered try_advance_commit_locked
  step-KeepsRole elect l e = absurd l
  step-KeepsRole beat l e = ground arith
  step-KeepsRole (vote_asked args) l e = absurd l
  step-KeepsRole (beat_received args) l e = ground arith
  step-KeepsRole (append_received args) l e = ground arith
  step-KeepsRole (vote_answered term reply) l e = absurd l
  step-KeepsRole (beat_returned t reply) l e = ground arith
  step-KeepsRole (append_answered peer leader_term args reply) l e = ground arith
  step-KeepsRole (replicate peer leader_term) l e = ground arith
  step-KeepsRole (commanded c) l e = ground arith
  step-KeepsRole applied l e = ground arith

  pub request_vote-KeepsRole :
      (args : RequestVoteArgs) {r : VoteResult C}
      → request_vote g w args rf ≡ some r
      → KeepsRole rf r.node
  unfolding request_vote
  request_vote-KeepsRole args e = ground arith

  -- A vote goes to the candidate that asks, in its term, and not where another one has it.
  pub request_vote-gives :
      (args : RequestVoteArgs) {r : VoteResult C}
      → request_vote g w args rf ≡ some r
      → r.reply.vote ≡ true
      → (r.node.voted_for ≡ pos args.candidate_id)
        × (r.node.term ≡ args.election_term)
        × (rf.term ≤ args.election_term)
        × (rf.term ≡ args.election_term
            → (rf.voted_for ≡ minus_one) ⊎ (rf.voted_for ≡ pos args.candidate_id))
  unfolding request_vote
  request_vote-gives args e v = ground arith

  -- A candidate has its own vote, in a new term.
  pub start_election-role :
      {e : Election C}
      → start_election g w rf ≡ some e
      → (e.node.term ≡ suc rf.term)
        × (e.node.me ≡ rf.me)
        × (e.node.peers ≡ rf.peers)
        × (e.node.voted_for ≡ pos rf.me)
        × (e.node.vote_count ≡ 1)
        × (e.node.state ≡ leader → rf.peers / 2 < 1)
  unfolding start_election become_leader_locked
  start_election-role e = ground arith

  become_leader_locked-role :
      (old : Raft C) (l : Led C)
      → become_leader_locked g old ≡ some l
      → (l.node.me ≡ old.me)
        × (l.node.peers ≡ old.peers)
        × (l.node.term ≡ old.term)
        × (l.node.state ≡ leader)
  unfolding become_leader_locked
  become_leader_locked-role old l e = ground arith

  -- An answer makes a leader only of a candidate of the election, with a majority of votes.
  pub count_vote-role :
      (term : ℕ) (reply : RequestVoteReply) {v : VoteCounted C}
      → count_vote g w rf.peers term reply rf ≡ some v
      → (v.node.me ≡ rf.me)
        × (v.node.peers ≡ rf.peers)
        × (v.node.state ≡ candidate
            → (rf.state ≡ candidate)
              × (v.node.term ≡ rf.term)
              × ((v.node.vote_count ≡ rf.vote_count)
                  ⊎ ((reply.vote ≡ true) × (v.node.vote_count ≡ suc rf.vote_count))))
        × (v.node.state ≡ leader
            → (v.node.term ≡ rf.term)
              × ((rf.state ≡ leader)
                  ⊎ ((rf.state ≡ candidate)
                      × (reply.vote ≡ true)
                      × (rf.peers / 2 < suc rf.vote_count))))
  unfolding count_vote step_down_locked
  count_vote-role term reply e =
      let more = record rf { vote_count = rf.vote_count + 1 } in
      elim (Option-cases (become_leader_locked g more)) [
        | inl stuck ↦ ground (arith, stuck)
        | inr (l, led) ↦ ground (arith, led, become_leader_locked-role more l led)
      ]
