-- ===== src/Raft/Samples/Logs.antt =====
-- The logs of src/raft at a run of three servers.
use cs.Prelude.{ℕ, Ends, ◌≡◌, refl, some, none, get_elem?, take, arith}
use cs.Raft.Defs.{Raft}
use cs.Raft.Cluster.{elects, asks, counts, acts, boot, elect_at, ask_at, count_at}
use cs.Raft.Cluster.Safety.{IsPrompt}
use cs.Raft.Persist.{make, make_persister}
use cs.Raft.Vote.{request_vote, become_leader_locked}
use cs.Raft.Election.{start_election, count_vote}
use cs.Raft.Client.{start}
use cs.Raft.Commit.{try_advance_commit_locked}
use cs.Raft.Append.{append_entries}
use cs.Raft.Replicate.{prepare, answered}
use cs.Raft.Server.{step, commanded}
use cs.Raft.Replicas.{
  Replicas, moves, sends, delivers, answers, answer_at, Reaches, here, next, send_at, deliver_at,
  new_replicas,
}
use cs.Raft.Replicate.Loop.{replicate_to}
use cs.Raft.Replicate.Converge.{Converged}
use cs.Raft.Replicas.CatchUp.{replicas_catch_up}
use cs.Raft.Replicas.Matching.{logs_match}
use cs.Raft.Samples.Values.{sample_gob, sample_laws, sample_world}

-- Server 0 wins an election with the vote of server 1, takes a command, and sends it to server 1, which answers.
abbrev replicated : (r : Replicas ℕ) × Reaches sample_gob (new_replicas sample_gob sample_world 3) r
unfolding new_replicas boot make make_persister start_election elect_at request_vote ask_at
    count_vote become_leader_locked count_at step start prepare send_at append_entries deliver_at
    answered answer_at try_advance_commit_locked
replicated = (
  _,
  next
      (next
        (next
          (next
            (next
              (next (next here (moves (elects sample_world 0 refl refl) tt))
                (moves (asks sample_world 0 refl refl refl refl) tt))
              (moves (counts sample_world 0 refl refl refl refl) tt))
            (moves (acts sample_world 0 (commanded (some 7)) refl tt tt refl) tt))
          (sends 0 1 1 refl (omega arith) refl refl))
        (delivers sample_world 0 refl refl))
      (answers sample_world 0 refl refl refl),
)

abbrev server_at : ℕ → Replicas ℕ → Raft ℕ
unfolding make make_persister
server_at i r = elim (get_elem? r.cluster.servers i) [
  | none ↦ make sample_gob sample_world 3 i make_persister
  | some rf ↦ rf
]

logs_match_example : take 2 (server_at 0 replicated.0).log ≡ take 2 (server_at 1 replicated.0).log
unfolding new_replicas boot make make_persister start_election elect_at request_vote ask_at
    count_vote become_leader_locked count_at step start prepare send_at append_entries deliver_at
    answered answer_at try_advance_commit_locked IsPrompt
logs_match_example =
    logs_match sample_gob sample_laws 3 sample_world replicated.1 ((((tt, tt), tt), λ v. refl), tt)
      0 1 1 _ _ _ _ refl refl refl refl refl

-- Server 2 has missed everything.
replicas_catch_up_example : Ends (Converged (server_at 0 replicated.0).log) (
    replicate_to sample_gob sample_world 2 2 1
      (server_at 0 replicated.0)
      (server_at 2 replicated.0))
unfolding new_replicas boot make make_persister start_election elect_at request_vote ask_at
    count_vote become_leader_locked count_at step start prepare send_at append_entries deliver_at
    answered answer_at try_advance_commit_locked IsPrompt
replicas_catch_up_example =
    replicas_catch_up sample_gob sample_laws 3 sample_world replicated.1
      ((((tt, tt), tt), λ v. refl), tt) 0 2 _ _ refl refl refl (omega arith)
