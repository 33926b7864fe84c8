-- ===== src/Raft/Vote.antt =====
-- stepDownLocked, RequestVote, becomeLeaderLocked and StartElection of src/raft/raft.go. `none` is
-- a panic: an index out of range.
use cs.Prelude.{
  ℕ, zero, suc, ◌+◌, pos, minus_one, Bool, true, false, ◌&&◌, ◌||◌, List, [], ◌∷◌, map, Option,
  some, store, replicate, ltb, leb, ◌==◌, ◌==ℤ◌, if◌then◌else◌, ◌>>=◌,
}
use cs.Raft.Defs.{
  Raft, State, leader, candidate, follower, World, Gob, RequestVoteArgs, RequestVoteReply,
  Replication,
}
use cs.Raft.Persist.{persist, reset_election_timeout_locked, update_last_heartbeat_locked}
use cs.Raft.Log.{last_log_index_locked, last_log_term_locked}

-- for p := 0; p < n; p++ { if p == me { continue }; ... }: the peers that a loop goes to. The
-- first argument counts the rounds left.
unfoldable pub others_from : ℕ → ℕ → ℕ → List ℕ
others_from zero p me = []
others_from (suc rounds) p me =
    let rest = others_from rounds (p + 1) me in if p == me then rest else p ∷ rest

unfoldable pub others : ℕ → ℕ → List ℕ
unfolding others_from
others n me = others_from n 0 me

unfoldable pub is_candidate : State → Bool
is_candidate leader = false
is_candidate candidate = true
is_candidate follower = false

-- The goroutines that call replicateTo for every peer but me.
unfoldable pub replications : ℕ → ℕ → ℕ → List Replication
unfolding others
replications n me leader_term =
    map (λ p. record { peer = p; leader_term = leader_term }) (others n me)

-- A handler's new state and its reply.
pub record VoteResult (C : Type 0) : Type 0 where
  pub node : Raft C
  pub reply : RequestVoteReply

-- The new state, and the goroutines that becoming leader starts.
pub record Led (C : Type 0) : Type 0 where
  pub node : Raft C
  pub replications : List Replication

up_to_date : RequestVoteArgs → ℕ → ℕ → Bool
up_to_date args my_last_idx my_last_term =
    ltb my_last_term args.last_log_term
    || (args.last_log_term == my_last_term && leb my_last_idx args.last_log_index)

module _ {C : Type 0} where
  unfoldable pub step_down_locked : Gob C → World → ℕ → Raft C → Raft C
  unfolding persist update_last_heartbeat_locked reset_election_timeout_locked
  step_down_locked g w term rf =
      let newer = if ltb rf.term term then record rf { term = term } else rf in
      reset_election_timeout_locked w (
        update_last_heartbeat_locked w
          (persist g (record newer { voted_for = minus_one; state = follower; vote_count = 0 })))

  -- RequestVote below its check of terms; `old_term` is the term that the reply holds by then.
  decide : Gob C → RequestVoteArgs → ℕ → Raft C → ℕ → VoteResult C
  unfolding up_to_date last_log_index_locked persist
  decide g args old_term rf my_last_term =
      if (rf.voted_for ==ℤ minus_one || rf.voted_for ==ℤ pos args.candidate_id)
        && up_to_date args (last_log_index_locked rf.log) my_last_term
      then record {
        node = persist g (record rf { voted_for = pos args.candidate_id });
        reply = record { election_term = rf.term; vote = true };
      }
      else record { node = rf; reply = record { election_term = old_term; vote = false } }

  unfoldable pub request_vote : Gob C → World → RequestVoteArgs → Raft C → Option (VoteResult C)
  unfolding step_down_locked decide last_log_term_locked
  request_vote g w args rf =
      if ltb args.election_term rf.term
      then some (record { node = rf; reply = record { election_term = rf.term; vote = false } })
      else (let current =
            if ltb rf.term args.election_term
            then step_down_locked g w args.election_term rf
            else rf in
          last_log_term_locked current.log >>= λ my_last_term.
          some (decide g args rf.term current my_last_term))

  unfoldable pub become_leader_locked : Gob C → Raft C → Option (Led C)
  unfolding persist last_log_index_locked replications
  become_leader_locked g rf =
      let last = last_log_index_locked rf.log in
      let n = rf.peers in
      store (replicate n 0) rf.me last >>= λ match_index.
      store (replicate n (last + 1)) rf.me (last + 1) >>= λ next_index. some (record {
        node = record (persist g (record rf { state = leader })) {
          next_index = next_index;
          match_index = match_index;
        };
        replications = replications n rf.me rf.term;
      })
