-- ===== src/Raft/Server.antt =====
-- One server of src/raft/raft.go under any sequence of events: each is a stretch of code that runs
-- under the server's lock, and the order of the events is free.
pub mod Runs
pub mod Votes
use cs.Prelude.{ℕ, ◌+◌, ◌≤◌, ◌<◌, ◌≡◌, Option, some, length, ◌>>=◌, List, []}
use cs.Raft.Defs.{
  Raft, Persister, World, Gob, RequestVoteArgs, RequestVoteReply, HeartbeatArgs, HeartbeatReply,
  AppendEntriesArgs, AppendEntriesReply,
}
use cs.Raft.Persist.{make}
use cs.Raft.Vote.{request_vote}
use cs.Raft.Election.{start_election, count_vote}
use cs.Raft.Heartbeat.{heartbeat, start_heartbeat, beat_answered}
use cs.Raft.Append.{append_entries}
use cs.Raft.Replicate.{prepare, answered}
use cs.Raft.Client.{start, apply_one, Applied}

pub data Event (C : Type 0) : Type 0 where
  -- life: the timer of a follower or candidate, and the round of a leader
  elect beat : Event C
  -- the RPC handlers
  vote_asked : RequestVoteArgs → Event C
  beat_received : HeartbeatArgs → Event C
  append_received : AppendEntriesArgs C → Event C
  -- the answers to the server's own calls
  vote_answered : (term : ℕ) → RequestVoteReply → Event C
  beat_returned : (t : ℕ) → HeartbeatReply → Event C
  append_answered : (peer leader_term : ℕ) → AppendEntriesArgs C → AppendEntriesReply → Event C
  -- the first half of a round of replicateTo, the service's command, a round of applier
  replicate : (peer leader_term : ℕ) → Event C
  commanded : Option C → Event C
  applied : Event C

module _ {C : Type 0} where
  applied_node : Raft C → Option (Applied C) → Raft C
  applied_node rf Option.none = rf
  applied_node rf (Option.some a) = a.node

  -- `none` is a panic.
  unfoldable pub step : Gob C → World → Event C → Raft C → Option (Raft C)
  unfolding applied_node
  step g w elect rf = start_election g w rf >>= λ e. some e.node
  step g w beat rf = some (start_heartbeat w rf).node
  step g w (vote_asked args) rf = request_vote g w args rf >>= λ r. some r.node
  step g w (beat_received args) rf = some (heartbeat g w args rf).node
  step g w (append_received args) rf = some (append_entries g w args rf).node
  step g w (vote_answered term reply) rf =
      count_vote g w rf.peers term reply rf >>= λ c. some c.node
  step g w (beat_returned t reply) rf = some (beat_answered g w t reply rf)
  step g w (append_answered peer leader_term args reply) rf =
      answered g w peer leader_term args reply rf >>= λ a. some a.node
  step g w (replicate peer leader_term) rf = prepare peer leader_term rf >>= λ p. some p.node
  step g w (commanded c) rf = start g c rf >>= λ s. some s.node
  step g w applied rf = some (applied_node rf (apply_one rf))

  -- What the rest of the program sees to: replicateTo runs for a peer, what it sent is part of the
  -- log, and the conflict index of the answer is at most the index that was checked.
  abbrev pub Fits : Raft C → Event C → Type 0
  Fits rf elect = Unit
  Fits rf beat = Unit
  Fits rf (vote_asked args) = Unit
  Fits rf (beat_received args) = Unit
  Fits rf (append_received args) = Unit
  Fits rf (vote_answered term reply) = Unit
  Fits rf (beat_returned t reply) = Unit
  Fits rf (append_answered peer leader_term args reply) =
      (peer < rf.peers)
      × (args.prev_log_index + length args.entries < length rf.log)
      × (reply.conflict_index ≤ args.prev_log_index)
  Fits rf (replicate peer leader_term) = peer < rf.peers
  Fits rf (commanded c) = Unit
  Fits rf applied = Unit

-- The states that a server comes to from a given one.
pub data Steps {C : Type 0} (g : Gob C) (rf : Raft C) : Raft C → Type 0 where
  here : Steps g rf rf
  next :
      {mid rf' : Raft C} (w : World) (e : Event C)
      → Steps g rf mid
      → Fits mid e
      → step g w e mid ≡ some rf'
      → Steps g rf rf'
