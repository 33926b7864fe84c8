-- ===== src/Raft/Server/Votes.antt =====
-- How the term, the vote and the commit index of a server of src/raft/raft.go change over time.
use cs.Prelude.{
  ℕ, zero, suc, ◌+◌, ◌-◌, ◌≤◌, ◌<◌, ◌≡◌, ◌≢◌, refl, some, arith, length, set, minus_one, pos, sym,
  ◌∙◌, true, Ends,
}
use cs.Raft.Defs.{Raft, World, Gob, HeartbeatReply, RequestVoteArgs}
use cs.Raft.Log.{last_log_term_locked}
use cs.Raft.Vote.{VoteResult, request_vote}
use cs.Raft.Election.{start_election, count_vote}
use cs.Raft.Heartbeat.{heartbeat, start_heartbeat, beat_answered}
use cs.Raft.Append.{append_entries}
use cs.Raft.Commit.{find_commit, try_advance_commit_locked}
use cs.Raft.Replicate.{prepare, answered}
use cs.Raft.Client.{start, apply_one}
use cs.Raft.Vote.{become_leader_locked}
use cs.Raft.Server.{
  Event, elect, beat, vote_asked, beat_received, append_received, vote_answered, beat_returned,
  append_answered, replicate, commanded, applied, step, Steps, here, next,
}

-- The term does not fall, and a vote that was given stays as long as the term does. Nor does the
-- commit index fall, as long as the log still reaches up to it.
pub record IsLater {C : Type 0} (rf rf' : Raft C) : Type 0 where
  pub term_grows : rf.term ≤ rf'.term
  pub vote_stays : rf.term ≡ rf'.term → rf.voted_for ≢ minus_one → rf'.voted_for ≡ rf.voted_for
  pub commit_grows : rf.commit_index < length rf'.log → rf.commit_index ≤ rf'.commit_index

-- The answer to a heartbeat is not stale: one that makes the server step down has a newer term than
-- the server has when it is handled.
abbrev pub IsFresh : {C : Type 0} → Raft C → Event C → Type 0
IsFresh rf (beat_returned t reply) = t < reply.term → rf.term < reply.term
IsFresh rf _ = Unit

module _ {C : Type 0} where
  find_commit-grows :
      (rf : Raft C) (n : ℕ) {c : ℕ} → find_commit rf n ≡ some c → rf.commit_index ≤ c
  unfolding find_commit
  find_commit-grows rf zero e = ground arith
  find_commit-grows rf (suc n) {c = c} e = ground (arith, find_commit-grows rf n {c = c})

module _ {C : Type 0} (g : Gob C) (w : World) (rf : Raft C) where
  pub step-IsLater :
      (e : Event C) {rf' : Raft C} → IsFresh rf e → step g w e rf ≡ some rf' → IsLater rf rf'
  unfolding step start_election become_leader_locked start_heartbeat request_vote heartbeat
      append_entries count_vote beat_answered prepare start apply_one answered
      try_advance_commit_locked
  step-IsLater elect f e = ground arith
  step-IsLater beat f e = ground arith
  step-IsLater (vote_asked args) f e = ground arith
  step-IsLater (beat_received args) f e = ground arith
  step-IsLater (append_received args) f e = ground arith
  step-IsLater (vote_answered term reply) f e = ground arith
  step-IsLater (beat_returned t reply) f e = ground arith
  step-IsLater (append_answered peer leader_term args reply) {rf' = rf'} f e = ground (
    arith,
    find_commit-grows rf (length rf.log - 1) {c = rf'.commit_index},
    find_commit-grows
        (record rf {
          match_index = set rf.match_index peer (args.prev_log_index + length args.entries);
          next_index = set rf.next_index peer (args.prev_log_index + length args.entries + 1);
        })
        (length rf.log - 1) {c = rf'.commit_index},
  )
  step-IsLater (replicate peer leader_term) f e = ground arith
  step-IsLater (commanded c) f e = ground arith
  step-IsLater applied f e = ground arith

-- No answer of the run to a heartbeat is stale.
abbrev pub AllFresh : {C : Type 0} {g : Gob C} {rf rf' : Raft C} → Steps g rf rf' → Type 0
AllFresh here = Unit
AllFresh (next {mid = mid} w e steps f q) = AllFresh steps × IsFresh mid e

-- The term has not fallen, and while it stays, so does the vote.
abbrev pub KeepsVote : {C : Type 0} → Raft C → Raft C → Type 0
KeepsVote a c =
    (a.term ≤ c.term) × (a.term ≡ c.term → a.voted_for ≢ minus_one → c.voted_for ≡ a.voted_for)

KeepsVote-trans : {C : Type 0} (a b c : Raft C) → KeepsVote a b → KeepsVote b c → KeepsVote a c
KeepsVote-trans a b c h k =
    (omega arith, λ e n. let p = h.1 (omega arith) n in k.1 (omega arith) (λ q. n (sym p ∙ q)) ∙ p)

-- In a run in which no answer to a heartbeat is stale the term never falls, and as long as it stays
-- the same a vote that the server has given is neither taken back nor changed.
pub run-KeepsVote :
    {C : Type 0} (g : Gob C) (rf : Raft C) {rf' : Raft C} (steps : Steps g rf rf')
    → AllFresh steps
    → KeepsVote rf rf'
run-KeepsVote g rf here h = (omega arith, λ e n. refl)
run-KeepsVote g rf {rf' = rf'} (next {mid = mid} w e steps f q) h =
    let l = step-IsLater g w mid e h.1 q in
    KeepsVote-trans rf mid rf' (run-KeepsVote g rf steps h.0) (l.term_grows, l.vote_stays)

module _ {C : Type 0} (g : Gob C) where
  granted :
      (w : World) (args : RequestVoteArgs) (rf : Raft C) {r : VoteResult C}
      → request_vote g w args rf ≡ some r
      → r.reply.vote ≡ true
      → (r.node.voted_for ≡ pos args.candidate_id)
        × (r.node.term ≡ args.election_term)
        × (r.reply.election_term ≡ args.election_term)
  unfolding request_vote
  granted w args rf e v = ground arith

  -- A server gives its vote to one candidate in a term: two votes that it gives in one term, with
  -- any events between them among which no answer to a heartbeat is stale, go to the same candidate.
  pub one_vote_per_term :
      (w w' : World) (args args' : RequestVoteArgs) (rf mid : Raft C) {r r' : VoteResult C}
      → request_vote g w args rf ≡ some r
      → r.reply.vote ≡ true
      → (steps : Steps g r.node mid) → AllFresh steps
      → request_vote g w' args' mid ≡ some r'
      → r'.reply.vote ≡ true
      → r.reply.election_term ≡ r'.reply.election_term
      → args.candidate_id ≡ args'.candidate_id
  unfolding step
  one_vote_per_term w w' args args' rf mid {r = r} {r' = r'} e v steps fresh e' v' same =
      let a = granted w args rf e v in
      let b = granted w' args' mid e' v' in
      let q : step g w' (vote_asked args') mid ≡ some r'.node = rw e' in
      let k = run-KeepsVote g r.node (next w' (vote_asked args') steps tt q) (fresh, tt) in
      let t : r.node.term ≡ r'.node.term = omega arith in
      let n : r.node.voted_for ≢ minus_one = ground arith in let p = k.1 t n in ground (arith, p)

  -- A stale answer to a heartbeat, with a term that is newer than the heartbeat's and not newer
  -- than the server's, takes the server's vote back within the term: the server then gives it to
  -- any candidate of the same term with a newer log, whomever it had voted for.
  pub stale_beat-second_vote :
      (w w' : World) (t : ℕ) (reply : HeartbeatReply) (args : RequestVoteArgs) (rf : Raft C)
      {last_term : ℕ}
      → t < reply.term
      → reply.term ≤ rf.term
      → args.election_term ≡ rf.term
      → last_log_term_locked rf.log ≡ some last_term
      → last_term < args.last_log_term
      → Ends
          (λ (r : VoteResult C).
            (r.reply.vote ≡ true)
            × (r.reply.election_term ≡ rf.term)
            × (r.node.voted_for ≡ pos args.candidate_id))
          (request_vote g w' args (beat_answered g w t reply rf))
  unfolding request_vote beat_answered
  stale_beat-second_vote w w' t reply args rf a b c d e = ground arith
