-- ===== src/Raft/Replicate/Loop.antt =====
-- The loop of replicateTo in src/raft/raft.go against a peer that answers each call by its
-- AppendEntries, with no other event at either server between the rounds.
use cs.Prelude.{ℕ, zero, suc, Option, none, some, ◌>>=◌, if◌then◌else◌}
use cs.Raft.Defs.{Raft, World, Gob}
use cs.Raft.Append.{append_entries}
use cs.Raft.Replicate.{prepare, answered}

-- The two servers after the loop.
pub record Pair (C : Type 0) : Type 0 where
  pub from : Raft C
  pub to : Raft C

pub data Outcome (C : Type 0) : Type 0 where
  stopped : Pair C → Outcome C
  out_of_fuel : Outcome C

module _ {C : Type 0} (g : Gob C) (w : World) (peer : ℕ) where
  -- One round for each unit of fuel; the outer `none` is a panic.
  unfoldable pub replicate_to : ℕ → ℕ → Raft C → Raft C → Option (Outcome C)
  replicate_to zero leader_term from to = some out_of_fuel
  replicate_to (suc fuel) leader_term from to = prepare peer leader_term from >>= λ p. elim p.args [
    | none ↦ some (stopped (record { from = p.node; to = to }))
    | some args ↦
        let r = append_entries g w args to in
        answered g w peer leader_term args r.reply p.node >>= λ a.
        let more = replicate_to fuel leader_term a.node r.node in
        if a.again then more else some (stopped (record { from = a.node; to = r.node }))
  ]
