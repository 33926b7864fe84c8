-- ===== src/Raft/Defs.antt =====
-- The types of src/raft/raft.go and src/raft/persister.go. Indices, terms, counts and times are
-- numbers; an `int` that also holds the mark -1 is a ℤ. A mutex is held over each handler.
use cs.Prelude.{ℕ, ◌*◌, ℤ, Bool, List, Option}

-- An interface{} value is nil or a command.
pub record LogEntry (C : Type 0) : Type 0 where
  pub term : ℕ
  pub command : Option C

pub record ApplyMsg (C : Type 0) : Type 0 where
  pub index : ℕ
  pub command : Option C

pub data State : Type 0 where
  leader candidate follower : State

-- Durations and times are in nanoseconds.
abbrev pub millisecond : ℕ
millisecond = 1_000_000

abbrev pub min_election_timeout : ℕ
min_election_timeout = 500 * millisecond

abbrev pub max_election_timeout : ℕ
max_election_timeout = 900 * millisecond

-- A nil byte slice and an empty one are both [].
pub record Persister : Type 0 where
  pub raftstate : List ℕ
  pub snapshot : List ℕ

-- `peers` is the number of client ends: the code uses the slice for its length and for the calls.
pub record Raft (C : Type 0) : Type 0 where
  pub peers : ℕ
  pub persister : Persister
  pub me : ℕ
  pub state : State
  pub term : ℕ
  pub voted_for : ℤ
  pub election_timeout : ℕ
  pub last_heartbeat : ℕ
  pub vote_count : ℕ
  pub log : List (LogEntry C)
  pub commit_index : ℕ
  pub last_applied : ℕ
  pub next_index : List ℕ
  pub match_index : List ℕ

pub record RequestVoteArgs : Type 0 where
  pub election_term : ℕ
  pub candidate_id : ℕ
  pub last_log_index : ℕ
  pub last_log_term : ℕ

pub record RequestVoteReply : Type 0 where
  pub election_term : ℕ
  pub vote : Bool

pub record HeartbeatArgs : Type 0 where
  pub leader_id : ℕ
  pub term : ℕ
  pub entry : ℕ

pub record HeartbeatReply : Type 0 where
  pub term : ℕ
  pub status : Bool

pub record AppendEntriesArgs (C : Type 0) : Type 0 where
  pub term : ℕ
  pub leader_id : ℕ
  pub prev_log_index : ℕ
  pub prev_log_term : ℤ
  pub entries : List (LogEntry C)
  pub leader_commit : ℕ

pub record AppendEntriesReply : Type 0 where
  pub term : ℕ
  pub success : Bool
  pub conflict_term : ℤ
  pub conflict_index : ℕ

-- A call of `replicateTo` that a handler leaves to a goroutine.
pub record Replication : Type 0 where
  pub peer : ℕ
  pub leader_term : ℕ

-- What a handler reads from outside: the clock, and `rand.Int63n`.
pub record World : Type 0 where
  pub now : ℕ
  pub int63n : ℕ → ℕ

-- Encoding/gob, as persist and readPersist use it: three values, one after the other.
pub record Gob (C : Type 0) : Type 0 where
  pub encode : ℕ → ℤ → List (LogEntry C) → List ℕ
  pub decode : List ℕ → Option (record { term : ℕ; voted_for : ℤ; log : List (LogEntry C) })
