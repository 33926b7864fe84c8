-- ===== src/Raft/Cluster.antt =====
-- Several servers of src/raft/raft.go and the vote requests between them, with crashes. A call of
-- RequestVote runs the handler at most once and its answer is handled at most once, as src/labrpc
-- sees to; a call or its answer may be late for any time or lost. All other messages may hold anything.
pub mod Roles
pub mod Tally
pub mod Keeps
pub mod Moves
pub mod Elects
pub mod Asks
pub mod Counts
pub mod Crashes
pub mod Safety
use cs.Prelude.{
  ℕ, ◌+◌, length, ◌==◌, ◌≡◌, Bool, true, false, List, [], ◌∷◌, ◌++◌, map, Option, none, some,
  get_elem?, set, if◌then◌else◌,
}
use cs.Raft.Defs.{Raft, Persister, World, Gob, RequestVoteArgs, RequestVoteReply}
use cs.Raft.Persist.{make}
use cs.Raft.Vote.{VoteResult, request_vote}
use cs.Raft.Election.{VoteRequest, Election, VoteCounted, start_election, count_vote}
use cs.Raft.Server.{Event, Fits, step}
use cs.Raft.Cluster.Roles.{IsLocal}

-- Where a goroutine of StartElection stands: its call waits for the handler, the answer is on its way,
-- or it has ended.
pub data CallState : Type 0 where
  waiting : CallState
  replied : RequestVoteReply → CallState
  over : CallState

pub record Call : Type 0 where
  pub sender : ℕ
  pub to : ℕ
  pub args : RequestVoteArgs
  pub state : CallState

-- A vote that a server has given to a candidate of a term.
pub record Vote : Type 0 where
  pub voter : ℕ
  pub term : ℕ
  pub candidate : ℕ

-- `given` and `counted` are the history: the votes that were given, and those that have reached their
-- candidate.
pub record Cluster (C : Type 0) : Type 0 where
  pub servers : List (Raft C)
  pub calls : List Call
  pub given : List Vote
  pub counted : List Vote

unfoldable pub add_if : Bool → Vote → List Vote → List Vote
add_if true v votes = v ∷ votes
add_if false v votes = votes

-- The vote of a call.
abbrev pub vote_of : Call → Vote
vote_of call = record { voter = call.to; term = call.args.election_term; candidate = call.sender }

unfoldable pub calls_of : ℕ → List VoteRequest → List Call
calls_of i = map (λ r. record { sender = i; to = r.peer; args = r.args; state = waiting })

-- A crash ends the goroutines of the server.
unfoldable pub end_calls : ℕ → List Call → List Call
end_calls i [] = []
end_calls i (call ∷ calls) =
    (if call.sender == i then record call { state = over } else call) ∷ end_calls i calls

module _ {C : Type 0} where
  -- StartElection of a server: it votes for itself, and its goroutines call the others.
  unfoldable pub elect_at : ℕ → Election C → Cluster C → Cluster C
  unfolding calls_of
  elect_at i e c =
      let own : Vote = record { voter = i; term = e.node.term; candidate = i } in
      record {
        servers = set c.servers i e.node;
        calls = c.calls ++ calls_of i e.requests;
        given = own ∷ c.given;
        counted = own ∷ c.counted;
      }

  -- A call reaches its voter, whose answer is then on its way.
  unfoldable pub ask_at : ℕ → Call → VoteResult C → Cluster C → Cluster C
  unfolding add_if
  ask_at k call r c = record c {
    servers = set c.servers call.to r.node;
    calls = set c.calls k (record call { state = replied r.reply });
    given = add_if r.reply.vote (vote_of call) c.given;
  }

  -- An answer reaches its goroutine, which then ends.
  unfoldable pub count_at : ℕ → Call → RequestVoteReply → VoteCounted C → Cluster C → Cluster C
  unfolding add_if
  count_at k call reply v c = record c {
    servers = set c.servers call.sender v.node;
    calls = set c.calls k (record call { state = over });
    counted = add_if reply.vote (vote_of call) c.counted;
  }

  unfoldable pub restart_at : ℕ → Raft C → Cluster C → Cluster C
  unfolding end_calls
  restart_at i rf c = record c { servers = set c.servers i rf; calls = end_calls i c.calls }

  -- The servers of a cluster whose persisters are given, each fresh from Make.
  unfoldable pub made : Gob C → World → (n i : ℕ) → List Persister → List (Raft C)
  made g w n i [] = []
  made g w n i (ps ∷ rest) = make g w n i ps ∷ made g w n (i + 1) rest

  unfoldable pub boot : Gob C → World → List Persister → Cluster C
  unfolding made
  boot g w persisters = record {
    servers = made g w (length persisters) 0 persisters;
    calls = [];
    given = [];
    counted = [];
  }

-- What can happen next.
pub data Move {C : Type 0} (g : Gob C) (c : Cluster C) : Cluster C → Type 0 where
  elects :
      (w : World) (i : ℕ) {rf : Raft C} {e : Election C}
      → get_elem? c.servers i ≡ some rf
      → start_election g w rf ≡ some e
      → Move g c (elect_at i e c)
  asks :
      (w : World) (k : ℕ) {call : Call} {rf : Raft C} {r : VoteResult C}
      → get_elem? c.calls k ≡ some call
      → call.state ≡ waiting
      → get_elem? c.servers call.to ≡ some rf
      → request_vote g w call.args rf ≡ some r
      → Move g c (ask_at k call r c)
  counts :
      (w : World) (k : ℕ) {call : Call} {reply : RequestVoteReply} {rf : Raft C} {v : VoteCounted C}
      → get_elem? c.calls k ≡ some call
      → call.state ≡ replied reply
      → get_elem? c.servers call.sender ≡ some rf
      → count_vote g w rf.peers call.args.election_term reply rf ≡ some v
      → Move g c (count_at k call reply v c)
  fails :
      (k : ℕ) {call : Call}
      → get_elem? c.calls k ≡ some call
      → Move g c (record c { calls = set c.calls k (record call { state = over }) })
  acts :
      (w : World) (i : ℕ) (e : Event C) {rf rf' : Raft C}
      → get_elem? c.servers i ≡ some rf
      → Fits rf e
      → IsLocal e
      → step g w e rf ≡ some rf'
      → Move g c (record c { servers = set c.servers i rf' })
  restarts :
      (w : World) (i : ℕ) {rf : Raft C}
      → get_elem? c.servers i ≡ some rf
      → Move g c (restart_at i (make g w rf.peers rf.me rf.persister) c)

-- The states that a cluster comes to.
pub data Run {C : Type 0} (g : Gob C) (c : Cluster C) : Cluster C → Type 0 where
  here : Run g c c
  next : {mid c' : Cluster C} → Run g c mid → Move g mid c' → Run g c c'
