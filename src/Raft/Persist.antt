-- ===== src/Raft/Persist.antt =====
-- The persister, and persist, readPersist, Make, GetState of src/raft/raft.go.
pub mod Durable
use cs.Prelude.{ℕ, ◌+◌, ◌-◌, minus_one, Bool, true, false, List, [], ◌∷◌, none, some, length}
use cs.Raft.Defs.{
  LogEntry, Persister, Raft, State, leader, candidate, follower, World, Gob, min_election_timeout,
  max_election_timeout,
}

unfoldable pub make_persister : Persister
make_persister = record { raftstate = []; snapshot = [] }

unfoldable pub copy : Persister → Persister
unfolding make_persister
copy ps = record make_persister { raftstate = ps.raftstate; snapshot = ps.snapshot }

unfoldable pub save_raft_state : Persister → List ℕ → Persister
save_raft_state ps bytes = record ps { raftstate = bytes }

unfoldable pub read_raft_state : Persister → List ℕ
read_raft_state ps = ps.raftstate

unfoldable pub raft_state_size : Persister → ℕ
raft_state_size ps = length ps.raftstate

unfoldable pub save_snapshot : Persister → List ℕ → Persister
save_snapshot ps bytes = record ps { snapshot = bytes }

unfoldable pub read_snapshot : Persister → List ℕ
read_snapshot ps = ps.snapshot

unfoldable pub is_leader : State → Bool
is_leader leader = true
is_leader candidate = false
is_leader follower = false

module _ {C : Type 0} where
  -- The entry {Term: 0} at index 0.
  abbrev pub dummy_log : List (LogEntry C)
  dummy_log = record { term = 0; command = none } ∷ []

  unfoldable pub reset_election_timeout_locked : World → Raft C → Raft C
  reset_election_timeout_locked w rf = record rf {
    election_timeout =
        w.int63n (max_election_timeout - min_election_timeout) + min_election_timeout;
  }

  unfoldable pub update_last_heartbeat_locked : World → Raft C → Raft C
  update_last_heartbeat_locked w rf = record rf { last_heartbeat = w.now }

  unfoldable pub get_state : Raft C → record { term : ℕ; is_leader : Bool }
  unfolding is_leader
  get_state rf = record { term = rf.term; is_leader = is_leader rf.state }

  unfoldable pub persist : Gob C → Raft C → Raft C
  unfolding save_raft_state
  persist g rf = record rf {
    persister = save_raft_state rf.persister (g.encode rf.term rf.voted_for rf.log);
  }

  -- An empty log is replaced by the dummy entry.
  unfoldable pub recovered_log : List (LogEntry C) → List (LogEntry C)
  recovered_log [] = dummy_log
  recovered_log (e ∷ es) = e ∷ es

  unfoldable pub read_persist : Gob C → List ℕ → Raft C → Raft C
  unfolding recovered_log
  read_persist g [] rf = rf
  read_persist g (b ∷ bs) rf = elim (g.decode (b ∷ bs)) [
    | none ↦ rf
    | some d ↦ record rf { term = d.term; voted_for = d.voted_for; log = recovered_log d.log }
  ]

  -- What Make sets before it reads the persisted state; fields that it leaves out are zero.
  unfoldable pub fresh : World → (peers me : ℕ) → Persister → Raft C
  unfolding reset_election_timeout_locked update_last_heartbeat_locked
  fresh w peers me persister = update_last_heartbeat_locked w (
      reset_election_timeout_locked w (record {
        peers = peers;
        persister = persister;
        me = me;
        state = follower;
        term = 0;
        voted_for = minus_one;
        election_timeout = 0;
        last_heartbeat = 0;
        vote_count = 0;
        log = dummy_log;
        commit_index = 0;
        last_applied = 0;
        next_index = [];
        match_index = [];
      }))

  unfoldable pub make : Gob C → World → (peers me : ℕ) → Persister → Raft C
  unfolding fresh read_persist read_raft_state
  make g w peers me persister =
      read_persist g (read_raft_state persister) (fresh w peers me persister)
