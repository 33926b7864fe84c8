-- ===== src/Raft/Server/Runs.antt =====
-- What holds of a server after any sequence of events: it has not panicked, a restart recovers its
-- term, vote and log, and its term and commit index have not fallen.
use cs.Prelude.{
  ℕ, ◌<◌, ◌≡◌, none, some, arith, length, Ends, Ends-part, part-of_some, subst, some-eq, ◌≢◌,
}
use cs.Raft.Defs.{Raft, Persister, World, Gob}
use cs.Raft.Persist.{make}
use cs.Raft.Persist.Durable.{GobLaws, IsDurable, make-IsDurable}
use cs.Raft.Vote.{request_vote}
use cs.Raft.Election.{start_election, count_vote}
use cs.Raft.Heartbeat.{start_heartbeat}
use cs.Raft.Replicate.{prepare, answered}
use cs.Raft.Client.{start, apply_one}
use cs.Raft.Valid.{IsValid}
use cs.Raft.Valid.Voting
use cs.Raft.Valid.Replication
use cs.Raft.Durable
use cs.Raft.Server.{
  Event, elect, beat, vote_asked, beat_received, append_received, vote_answered, beat_returned,
  append_answered, replicate, commanded, applied, step, Fits, Steps, here, next,
}

module _ {C : Type 0} (g : Gob C) (w : World) where
  apply_one-IsValid : (rf : Raft C) → IsValid rf → Ends IsValid (step g w applied rf)
  unfolding step apply_one
  apply_one-IsValid rf v = ground arith

  -- No event makes a well-formed server panic, and the server stays well-formed.
  pub step-IsValid :
      (e : Event C) (rf : Raft C) → IsValid rf → Fits rf e → Ends IsValid (step g w e rf)
  unfolding step start_heartbeat
  step-IsValid elect rf v f =
      Ends-part IsValid (start_election g w rf) (λ r. r.node)
        (Voting.start_election-IsValid g w rf v)
  step-IsValid beat rf v f = ground arith
  step-IsValid (vote_asked args) rf v f =
      Ends-part IsValid (request_vote g w args rf) (λ r. r.node)
        (Voting.request_vote-IsValid g w args rf v)
  step-IsValid (beat_received args) rf v f = Voting.heartbeat-IsValid g w args rf v
  step-IsValid (append_received args) rf v f = Replication.append_entries-IsValid g w args rf v
  step-IsValid (vote_answered term reply) rf v f =
      Ends-part IsValid (count_vote g w rf.peers term reply rf) (λ r. r.node)
        (Voting.count_vote-IsValid g w rf.peers term reply rf v)
  step-IsValid (beat_returned t reply) rf v f = Voting.beat_answered-IsValid g w t reply rf v
  step-IsValid (append_answered peer leader_term args reply) rf v f =
      Ends-part IsValid (answered g w peer leader_term args reply rf) (λ r. r.node)
        (Replication.answered-IsValid g w peer leader_term args reply rf v f.0 f.1 f.2)
  step-IsValid (replicate peer leader_term) rf v f =
      Ends-part IsValid (prepare peer leader_term rf) (λ r. r.node)
        (Replication.prepare-IsValid g peer leader_term rf v f)
  step-IsValid (commanded c) rf v f =
      Ends-part IsValid (start g c rf) (λ r. r.node) (Replication.start-IsValid g c rf v)
  step-IsValid applied rf v f = apply_one-IsValid rf v

module _ {C : Type 0} (g : Gob C) (laws : GobLaws g) (w : World) where
  -- Nor does any event leave a state that a restart would not recover.
  pub step-IsDurable :
      (e : Event C) (rf : Raft C) {rf' : Raft C}
      → 0 < length rf.log
      → IsDurable g rf
      → step g w e rf ≡ some rf'
      → IsDurable g rf'
  unfolding step start_heartbeat apply_one
  step-IsDurable elect rf d s e =
      part-of_some (IsDurable g) (start_election g w rf) (λ r. r.node) e
        (λ r q. Durable.start_election-IsDurable g laws w rf d q)
  step-IsDurable beat rf d s e = subst (IsDurable g) (some-eq e) s
  step-IsDurable (vote_asked args) rf d s e =
      part-of_some (IsDurable g) (request_vote g w args rf) (λ r. r.node) e
        (λ r q. Durable.request_vote-IsDurable g laws w rf d args s q)
  step-IsDurable (beat_received args) rf d s e =
      subst (IsDurable g) (some-eq e) (Durable.heartbeat-IsDurable g laws w rf d args s)
  step-IsDurable (append_received args) rf d s e =
      subst (IsDurable g) (some-eq e) (Durable.append_entries-IsDurable g laws w rf d args s)
  step-IsDurable (vote_answered term reply) rf d s e =
      part-of_some (IsDurable g) (count_vote g w rf.peers term reply rf) (λ c. c.node) e
        (λ c q. Durable.count_vote-IsDurable g laws w rf d rf.peers term reply s q)
  step-IsDurable (beat_returned t reply) rf d s e =
      subst (IsDurable g) (some-eq e) (Durable.beat_answered-IsDurable g laws w rf d t reply s)
  step-IsDurable (append_answered peer leader_term args reply) rf d s e =
      part-of_some (IsDurable g) (answered g w peer leader_term args reply rf) (λ a. a.node) e
        (λ a q. Durable.answered-IsDurable g laws w rf d peer leader_term args reply s q)
  step-IsDurable (replicate peer leader_term) rf d s e =
      part-of_some (IsDurable g) (prepare peer leader_term rf) (λ p. p.node) e
        (λ p q. Durable.prepare-IsDurable g laws w rf d peer leader_term s q)
  step-IsDurable (commanded c) rf d s e =
      part-of_some (IsDurable g) (start g c rf) (λ r. r.node) e
        (λ r q. Durable.start-IsDurable g laws w rf d c s q)
  step-IsDurable applied rf d s e = λ v. ground (arith, s v)

Steps-IsValid :
    {C : Type 0} (g : Gob C) (rf : Raft C) {rf' : Raft C}
    → IsValid rf
    → Steps g rf rf'
    → IsValid rf'
Steps-IsValid g rf v here = v
Steps-IsValid g rf {rf' = rf'} v (next {mid = mid} w e steps f q) =
    subst (Ends IsValid) q (step-IsValid g w e mid (Steps-IsValid g rf v steps) f)

module _ {C : Type 0} (g : Gob C) (peers me : ℕ) (ps : Persister) (self : me < peers) where
  -- From Make on, whatever the order of the events, no event makes the server panic.
  pub run_no_panic :
      (w₀ w : World) {rf : Raft C} (e : Event C)
      → Steps g (make g w₀ peers me ps) rf
      → Fits rf e
      → step g w e rf ≢ none
  run_no_panic w₀ w {rf = rf} e steps f q = subst (Ends IsValid) q (
      step-IsValid g w e rf (Steps-IsValid g _ (Voting.make-IsValid g w₀ peers me ps self) steps) f)

  -- From Make on, at every moment a crash and a restart from the persister recover the term, the
  -- vote and the log that the server has.
  pub run-IsDurable :
      (laws : GobLaws g) (w₀ : World) {rf : Raft C}
      → Steps g (make g w₀ peers me ps) rf
      → IsDurable g rf
  run-IsDurable laws w₀ here = make-IsDurable g w₀ peers me ps
  run-IsDurable laws w₀ (next {mid = mid} w e steps f q) =
      step-IsDurable g laws w e mid
        (Steps-IsValid g _ (Voting.make-IsValid g w₀ peers me ps self) steps).has_dummy
        (run-IsDurable laws w₀ steps) q
