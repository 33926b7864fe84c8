-- ===== src/Raft/Samples/Witnesses.antt =====
-- The theorems about src/raft at concrete servers.
use cs.Prelude.{
  ℕ, zero, suc, ◌+◌, ◌≤◌, ◌<◌, ◌≡◌, ◌≢◌, ◌↔◌, ◌⊎◌, refl, pos, minus_one, true, false, [], ◌∷◌, none,
  arith, length, take, get_elem?, Ends,
}
use cs.Raft.Defs.{leader}
use cs.Raft.Persist.{make}
use cs.Raft.Persist.Durable.{IsDurable}
use cs.Raft.Log.{sync_locked, last_log_index_locked, last_log_term_locked, term_at_locked}
use cs.Raft.Log.Sync.{terms, sync_locked-overwrite}
use cs.Raft.Vote.{VoteResult, Led, become_leader_locked, request_vote}
use cs.Raft.Election.{candidacy, start_election, count_vote}
use cs.Raft.Election.Laws.{request_vote-granted_iff, stale_vote-wins}
use cs.Raft.Heartbeat.{beat_answered}
use cs.Raft.Append.{append_entries}
use cs.Raft.Append.Laws.{append_entries-conflict_le, late_append-loses_commit}
use cs.Raft.Commit.{try_advance_commit_locked}
use cs.Raft.Commit.Majority.{IsAdvance, try_advance_commit_locked-IsAdvance}
use cs.Raft.Replicate.Loop.{replicate_to}
use cs.Raft.Replicate.Rounds.{Related}
use cs.Raft.Replicate.Converge.{Converged, replicate_to-Converged}
use cs.Raft.Replicate.Progress.{Ready}
use cs.Raft.Client.{apply_all}
use cs.Raft.Apply.{messages, apply_all-messages}
use cs.Raft.Server.{elect, vote_asked, step, here, next}
use cs.Raft.Server.Runs.{run_no_panic, run-IsDurable}
use cs.Raft.Server.Votes.{KeepsVote, run-KeepsVote, one_vote_per_term, stale_beat-second_vote}
use cs.Raft.Samples.Values.{
  sample_gob, sample_laws, sample_world, entry, dummy, no_bytes, voter, office, runner, ask, late,
}

office-Ready : Ready 0 3 office voter
office-Ready = record {
  leads = refl;
  next_found = refl;
  next_positive = omega arith;
  next_bound = omega arith;
  next_length = refl;
  matched_length = refl;
  self = omega arith;
  peer_bound = omega arith;
  follower_log = omega arith;
  follower_term = omega arith;
}

office-same_origin :
    (i j : ℕ)
    → i ≤ j
    → j < length office.log
    → i < length voter.log
    → term_at_locked office.log j ≡ term_at_locked voter.log i
    → term_at_locked office.log i ≡ term_at_locked voter.log i
unfolding term_at_locked
office-same_origin zero j h a b e = refl
office-same_origin (suc zero) j h a b e = refl
office-same_origin (suc (suc zero)) zero h a b e = absurd (omega arith)
office-same_origin (suc (suc zero)) (suc zero) h a b e = absurd (omega arith)
office-same_origin (suc (suc zero)) (suc (suc zero)) h a b e = e
office-same_origin (suc (suc zero)) (suc (suc (suc zero))) h a b e = ground arith
office-same_origin (suc (suc zero)) (suc (suc (suc (suc j)))) h a b e = absurd (omega arith)
office-same_origin (suc (suc (suc i))) j h a b e = absurd (omega arith)

office-same_prefix :
    (i : ℕ)
    → i < length office.log
    → i < length voter.log
    → term_at_locked office.log i ≡ term_at_locked voter.log i
    → take (i + 1) (terms office.log) ≡ take (i + 1) (terms voter.log)
unfolding term_at_locked
office-same_prefix zero a b e = refl
office-same_prefix (suc zero) a b e = refl
office-same_prefix (suc (suc zero)) a b e = ground arith
office-same_prefix (suc (suc (suc i))) a b e = absurd (omega arith)

office-Related : Related office.log voter.log
office-Related = record { same_origin = office-same_origin; same_prefix = office-same_prefix }

replicate_to-Converged_example :
    Ends (Converged office.log) (replicate_to sample_gob sample_world 0 3 3 office voter)
replicate_to-Converged_example =
    replicate_to-Converged sample_gob sample_world 0 3 3 3 office voter refl office-Ready
      office-Related (omega arith)

try_advance_commit_locked-IsAdvance_example :
    Ends
      (λ (l : Led ℕ).
        IsAdvance office (last_log_index_locked office.log) l.node.commit_index
        × (l.node ≡ record office { commit_index = l.node.commit_index }))
      (try_advance_commit_locked office)
try_advance_commit_locked-IsAdvance_example =
    try_advance_commit_locked-IsAdvance office refl (omega arith) (omega arith)

sync_locked-overwrite_example :
    sync_locked voter.log 2 (entry 2 20 ∷ []) ≡ dummy ∷ entry 1 10 ∷ entry 2 20 ∷ []
sync_locked-overwrite_example =
    sync_locked-overwrite voter.log 2 (entry 2 20) [] (omega arith) (λ e. absurd (omega arith), tt)

late_succeeds : (append_entries sample_gob sample_world late voter).reply.success ≡ true
unfolding append_entries
late_succeeds = refl

append_entries-conflict_le_example :
    (append_entries sample_gob sample_world late voter).reply.conflict_index ≤ 0
append_entries-conflict_le_example = append_entries-conflict_le sample_gob sample_world late voter

late_append-loses_commit_example :
    let node = (append_entries sample_gob sample_world late voter).node in
    (get_elem? node.log 2 ≡ none) × (2 < 9 → node.commit_index < 2)
late_append-loses_commit_example =
    late_append-loses_commit sample_gob sample_world late voter (entry 1 10) [] late_succeeds refl
      (omega arith)

-- The voter moves to term 3 with a vote for server 1, refuses server 2, and is asked again.
one_vote_per_term_example : ◌≡◌ {A = ℕ} 1 1
unfolding request_vote step
one_vote_per_term_example =
    one_vote_per_term sample_gob sample_world sample_world (ask 3 1) (ask 3 1) voter _ refl refl
      (next sample_world (vote_asked (ask 3 2)) here tt refl) (tt, tt) refl refl refl

run-KeepsVote_example : KeepsVote voter voter
unfolding request_vote step
run-KeepsVote_example =
    run-KeepsVote sample_gob voter (next sample_world (vote_asked (ask 2 2)) here tt refl) (tt, tt)

-- A server is made, and starts an election.
run_no_panic_example :
    step sample_gob sample_world elect (make sample_gob sample_world 3 0 no_bytes) ≢ none
run_no_panic_example =
    run_no_panic sample_gob 3 0 no_bytes (omega arith) sample_world sample_world elect here tt

run-IsDurable_example :
    IsDurable sample_gob
      (candidacy sample_gob sample_world (make sample_gob sample_world 3 0 no_bytes))
unfolding step start_election make
run-IsDurable_example =
    run-IsDurable sample_gob 3 0 no_bytes (omega arith) sample_laws sample_world
      (next sample_world elect here tt refl)

stale_beat-second_vote_example :
    Ends
      (λ (r : VoteResult ℕ).
        (r.reply.vote ≡ true) × (r.reply.election_term ≡ 2) × (r.node.voted_for ≡ pos 2))
      (request_vote sample_gob sample_world
        (ask 2 2)
        (beat_answered sample_gob sample_world 1 (record { term = 2; status = false }) voter))
unfolding last_log_term_locked
stale_beat-second_vote_example =
    stale_beat-second_vote sample_gob sample_world sample_world 1
      (record { term = 2; status = false }) (ask 2 2) voter {last_term = 1} (omega arith)
      (omega arith) refl refl (omega arith)

request_vote-granted_iff_example : (true ≡ true) ↔ (
    (2 ≤ 3)
    × ((2 < 3) ⊎ (pos 1 ≡ minus_one) ⊎ (pos 1 ≡ pos 2))
    × ((1 < 5) ⊎ ((◌≡◌ {A = ℕ} 5 1) × (last_log_index_locked voter.log ≤ 9))))
unfolding request_vote
request_vote-granted_iff_example =
    request_vote-granted_iff sample_gob sample_world (ask 3 2) voter 1 _ refl refl

-- A vote for term 1 is counted in term 2, and then one vote of five is enough.
stale_vote-wins_example : (true ≡ true) × (leader ≡ leader)
unfolding count_vote become_leader_locked
stale_vote-wins_example =
    stale_vote-wins sample_gob sample_world sample_world 5 1
      (record { election_term = 1; vote = true }) (record { election_term = 2; vote = true })
      (record runner { peers = 5 }) refl refl (omega arith) (omega arith) refl (omega arith)
      (omega arith) refl refl

apply_all-messages_example : apply_all voter ≡ record {
  node = record voter { last_applied = 2 };
  msgs = messages 1 (entry 1 10 ∷ entry 1 11 ∷ []);
}
apply_all-messages_example = apply_all-messages voter (omega arith) (omega arith)
