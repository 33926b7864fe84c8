-- ===== src/Raft/Samples/Clusters.antt =====
-- The theorems about clusters of src/raft at a run of three servers.
use cs.Prelude.{ℕ, ◌≡◌, refl, List, [], ◌∷◌}
use cs.Raft.Defs.{Persister}
use cs.Raft.Persist.{make}
use cs.Raft.Vote.{request_vote, become_leader_locked}
use cs.Raft.Election.{start_election, count_vote}
use cs.Raft.Cluster.{
  Cluster, elects, asks, counts, Run, here, next, boot, elect_at, ask_at, count_at,
}
use cs.Raft.Cluster.Safety.{IsPrompt, one_leader_per_term}
use cs.Raft.Samples.Values.{sample_gob, sample_laws, sample_world, no_bytes}

abbrev three : List Persister
three = no_bytes ∷ no_bytes ∷ no_bytes ∷ []

-- Server 0 starts an election, server 1 votes for it, and the vote arrives.
abbrev won : (c : Cluster ℕ) × Run sample_gob (boot sample_gob sample_world three) c
unfolding boot start_election make elect_at request_vote ask_at count_vote become_leader_locked
won = (
  _,
  next
      (next (next here (elects sample_world 0 refl refl)) (asks sample_world 0 refl refl refl refl))
      (counts sample_world 0 refl refl refl refl),
)

-- Server 2 then starts one in the same term.
one_leader_per_term_example : ◌≡◌ {A = ℕ} 0 0
unfolding boot start_election make elect_at request_vote ask_at count_vote become_leader_locked
    count_at IsPrompt
one_leader_per_term_example =
    one_leader_per_term sample_gob sample_laws sample_world three won.1
      (next here (elects sample_world 2 refl refl)) (((tt, tt), tt), λ v. refl) (tt, tt) 0 0 _ _
      refl refl refl refl refl
