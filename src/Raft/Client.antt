-- ===== src/Raft/Client.antt =====
-- Start and applier of src/raft/raft.go.
use cs.Prelude.{
  ℕ, zero, suc, ◌+◌, ◌-◌, ℤ, pos, minus_one, Bool, true, false, List, [], ◌∷◌, ◌++◌, Option, none,
  some, length, get_elem?, store, leb, if◌then◌else◌, ◌>>=◌,
}
use cs.Raft.Defs.{LogEntry, ApplyMsg, Raft, Gob, Replication}
use cs.Raft.Persist.{persist, is_leader}
use cs.Raft.Vote.{replications}

pub record Started (C : Type 0) : Type 0 where
  pub node : Raft C
  pub index : ℤ
  pub term : ℕ
  pub is_leader : Bool
  pub replications : List Replication

-- The state after one message to the service.
pub record Applied (C : Type 0) : Type 0 where
  pub node : Raft C
  pub msg : ApplyMsg C

pub record Drained (C : Type 0) : Type 0 where
  pub node : Raft C
  pub msgs : List (ApplyMsg C)

module _ {C : Type 0} where
  refused : Raft C → Started C
  refused rf = record {
    node = rf;
    index = minus_one;
    term = rf.term;
    is_leader = false;
    replications = [];
  }

  -- `none` is a panic: an index out of range.
  unfoldable pub start : Gob C → Option C → Raft C → Option (Started C)
  unfolding refused is_leader persist replications
  start g command rf =
      if is_leader rf.state
      then (let entry : LogEntry C = record { term = rf.term; command = command } in
          let appended = record rf { log = rf.log ++ entry ∷ [] } in
          let index = length appended.log - 1 in
          let saved = persist g appended in
          store saved.match_index rf.me index >>= λ match_index.
          store saved.next_index rf.me (index + 1) >>= λ next_index. some (record {
            node = record saved { match_index = match_index; next_index = next_index };
            index = pos index;
            term = rf.term;
            is_leader = true;
            replications = replications rf.peers rf.me rf.term;
          }))
      else some (refused rf)

  apply_next : Raft C → ℕ → Option (LogEntry C) → Option (Applied C)
  apply_next rf next none = none
  apply_next rf next (some entry) = some (record {
    node = record rf { last_applied = next };
    msg = record { index = next; command = entry.command };
  })

  -- One round of applier's inner loop; `none` where it breaks.
  unfoldable pub apply_one : Raft C → Option (Applied C)
  unfolding apply_next
  apply_one rf =
      let next = rf.last_applied + 1 in
      if leb rf.commit_index rf.last_applied
      then none
      else if leb (length rf.log) next
      then none
      else apply_next rf next (get_elem? rf.log next)

  -- The inner loop, with nothing between its rounds. Each round raises lastApplied, so that
  -- commitIndex rounds are enough.
  unfoldable pub apply_loop : ℕ → Raft C → Drained C
  apply_loop zero rf = record { node = rf; msgs = [] }
  apply_loop (suc fuel) rf = elim (apply_one rf) [
    | none ↦ record { node = rf; msgs = [] }
    | some a ↦
        let rest = apply_loop fuel a.node in record { node = rest.node; msgs = a.msg ∷ rest.msgs }
  ]

  unfoldable pub apply_all : Raft C → Drained C
  unfolding apply_loop
  apply_all rf = apply_loop rf.commit_index rf
