-- ===== src/Raft/Replicas.antt =====
-- The servers of a cluster of src/raft/raft.go and the AppendEntries messages between them. A message
-- stays deliverable once it is sent: it may reach its server any number of times, at any time or
-- never, also when its sender or its receiver has crashed and restarted since. So does the answer.
pub mod Logs
pub mod Events
pub mod Fair
pub mod Books
pub mod Writes
pub mod Moves
pub mod Answers
pub mod Sound
pub mod Matching
pub mod CatchUp
use cs.Prelude.{ℕ, ◌<◌, ◌≡◌, List, [], ◌∷◌, some, get_elem?, set, replicate, true}
use cs.Raft.Defs.{Raft, World, Gob, AppendEntriesArgs, AppendEntriesReply}
use cs.Raft.Persist.{make_persister}
use cs.Raft.Append.{AppendResult, append_entries}
use cs.Raft.Replicate.{Prepared, Answered, prepare, answered}
use cs.Raft.Server.{Event, append_received, replicate as replicate_event}
use cs.Raft.Cluster.{Cluster, Move, acts, elects, asks, counts, fails, restarts, boot}
use cs.Raft.Cluster.Safety.{IsPrompt}
use cs.Raft.Replicas.Events.{NoAppend}

pub record Message (C : Type 0) : Type 0 where
  pub to : ℕ
  pub args : AppendEntriesArgs C

pub record Answer (C : Type 0) : Type 0 where
  pub from : ℕ
  pub args : AppendEntriesArgs C
  pub reply : AppendEntriesReply

-- `sent` and `answers` are the messages that were ever sent, and the answers to them.
pub record Replicas (C : Type 0) : Type 0 where
  pub cluster : Cluster C
  pub sent : List (Message C)
  pub answers : List (Answer C)

module _ {C : Type 0} where
  -- A round of replicateTo of server i up to its call.
  unfoldable pub send_at : (i peer : ℕ) → Prepared C → AppendEntriesArgs C → Replicas C → Replicas C
  send_at i peer p args r = record r {
    cluster = record r.cluster { servers = set r.cluster.servers i p.node };
    sent = record { to = peer; args = args } ∷ r.sent;
  }

  unfoldable pub deliver_at : Message C → AppendResult C → Replicas C → Replicas C
  deliver_at m res r = record r {
    cluster = record r.cluster { servers = set r.cluster.servers m.to res.node };
    answers = record { from = m.to; args = m.args; reply = res.reply } ∷ r.answers;
  }

  -- The rest of the round.
  unfoldable pub answer_at : Answer C → Answered C → Replicas C → Replicas C
  answer_at m a r = record r {
    cluster = record r.cluster { servers = set r.cluster.servers m.args.leader_id a.node };
  }

  -- New servers, whose persisters are empty.
  unfoldable pub new_replicas : Gob C → World → ℕ → Replicas C
  new_replicas g w n = record {
    cluster = boot g w (replicate n make_persister);
    sent = [];
    answers = [];
  }

-- The move has no part in a call of AppendEntries.
abbrev pub IsApart : {C : Type 0} {g : Gob C} {c c' : Cluster C} → Move g c c' → Type 0
IsApart (acts w i e found fits local q) = NoAppend e
IsApart _ = Unit

-- What can happen next.
pub data Step {C : Type 0} (g : Gob C) (r : Replicas C) : Replicas C → Type 0 where
  moves :
      {c' : Cluster C} (move : Move g r.cluster c')
      → IsApart move
      → Step g r (record r { cluster = c' })
  sends :
      (i peer leader_term : ℕ) {rf : Raft C} {p : Prepared C} {args : AppendEntriesArgs C}
      → get_elem? r.cluster.servers i ≡ some rf
      → peer < rf.peers
      → prepare peer leader_term rf ≡ some p
      → p.args ≡ some args
      → Step g r (send_at i peer p args r)
  delivers :
      (w : World) (k : ℕ) {m : Message C} {rf : Raft C}
      → get_elem? r.sent k ≡ some m
      → get_elem? r.cluster.servers m.to ≡ some rf
      → Step g r (deliver_at m (append_entries g w m.args rf) r)
  answers :
      (w : World) (k : ℕ) {m : Answer C} {rf : Raft C} {a : Answered C}
      → get_elem? r.answers k ≡ some m
      → get_elem? r.cluster.servers m.args.leader_id ≡ some rf
      → answered g w m.from m.args.term m.args m.reply rf ≡ some a
      → Step g r (answer_at m a r)

-- The states that the servers come to.
pub data Reaches {C : Type 0} (g : Gob C) (r : Replicas C) : Replicas C → Type 0 where
  here : Reaches g r r
  next : {mid r' : Replicas C} → Reaches g r mid → Step g mid r' → Reaches g r r'

-- The moves of the run are prompt.
abbrev pub IsTimely : {C : Type 0} {g : Gob C} {r r' : Replicas C} → Reaches g r r' → Type 0
IsTimely here = Unit
IsTimely (next run (moves move apart)) = IsTimely run × IsPrompt move
IsTimely (next run _) = IsTimely run
