-- ===== src/Raft/Election.antt =====
-- StartElection, its goroutines' handling of a reply, and the election timer of life in
-- src/raft/raft.go.
pub mod Laws
use cs.Prelude.{
  ℕ, ◌+◌, ◌-◌, ◌/◌, pos, Bool, true, false, ◌&&◌, List, [], map, Option, some, ltb, ◌==◌,
  if◌then◌else◌, ◌>>=◌,
}
use cs.Raft.Defs.{
  Raft, State, leader, candidate, follower, World, Gob, RequestVoteArgs, RequestVoteReply,
  Replication,
}
use cs.Raft.Persist.{persist, reset_election_timeout_locked, update_last_heartbeat_locked}
use cs.Raft.Log.{last_log_index_locked, last_log_term_locked}
use cs.Raft.Vote.{Led, others, is_candidate, step_down_locked, become_leader_locked}

-- A vote request on its way to a peer.
pub record VoteRequest : Type 0 where
  pub peer : ℕ
  pub args : RequestVoteArgs

pub record Election (C : Type 0) : Type 0 where
  pub node : Raft C
  pub replications : List Replication
  pub requests : List VoteRequest

-- `won` says that the goroutine goes on to StartHeartbeat, after it has given up the lock.
pub record VoteCounted (C : Type 0) : Type 0 where
  pub node : Raft C
  pub replications : List Replication
  pub won : Bool

pub data LifeAction : Type 0 where
  elect beat sleep : LifeAction

-- What one round of life does, on the state that it read, at the time of the check: it starts an election,
-- sends heartbeats, or does neither. The pauses of a round are left out.
unfoldable pub life_action : State → (last_heartbeat timeout now : ℕ) → LifeAction
life_action follower last_heartbeat timeout now =
    if ltb timeout (now - last_heartbeat) then elect else sleep
life_action candidate last_heartbeat timeout now =
    if ltb timeout (now - last_heartbeat) then elect else sleep
life_action leader last_heartbeat timeout now = beat

unfoldable pub vote_requests : ℕ → RequestVoteArgs → List VoteRequest
unfolding others
vote_requests n args = map (λ p. record { peer = p; args = args }) (others n args.candidate_id)

module _ {C : Type 0} where
  -- The fields that StartElection sets, up to its persist.
  unfoldable pub candidacy : Gob C → World → Raft C → Raft C
  unfolding reset_election_timeout_locked update_last_heartbeat_locked persist
  candidacy g w rf = update_last_heartbeat_locked w (
      persist g (record (reset_election_timeout_locked w rf) {
        term = rf.term + 1;
        state = candidate;
        voted_for = pos rf.me;
        vote_count = 1;
      }))

  elected : Led C → Election C
  elected l = record { node = l.node; replications = l.replications; requests = [] }

  unfoldable pub start_election : Gob C → World → Raft C → Option (Election C)
  unfolding candidacy vote_requests elected last_log_index_locked last_log_term_locked
  start_election g w rf = last_log_term_locked rf.log >>= λ last_term.
      let node = candidacy g w rf in
      let led = become_leader_locked g node in
      if ltb (rf.peers / 2) node.vote_count
      then (led >>= λ l. some (elected l))
      else some (record {
        node = node;
        replications = [];
        requests = vote_requests rf.peers (record {
          election_term = node.term;
          candidate_id = rf.me;
          last_log_index = last_log_index_locked rf.log;
          last_log_term = last_term;
        });
      })

  counted : Led C → VoteCounted C
  counted l = record { node = l.node; replications = l.replications; won = true }

  unchanged : Raft C → VoteCounted C
  unchanged rf = record { node = rf; replications = []; won = false }

  -- The goroutine of StartElection for a call that was answered; `term` is the election's.
  unfoldable pub count_vote :
      Gob C → World → (n_peers term : ℕ) → RequestVoteReply → Raft C → Option (VoteCounted C)
  unfolding counted unchanged is_candidate
  count_vote g w n_peers term reply rf =
      if ltb rf.term reply.election_term
      then some (unchanged (step_down_locked g w reply.election_term rf))
      else if reply.vote
      then (let more = record rf { vote_count = rf.vote_count + 1 } in
          if ltb (n_peers / 2) more.vote_count && is_candidate more.state && more.term == term
          then (become_leader_locked g more >>= λ l. some (counted l))
          else some (unchanged more))
      else some (unchanged rf)
