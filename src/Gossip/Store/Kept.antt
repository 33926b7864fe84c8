-- ===== src/Gossip/Store/Kept.antt =====
-- The rumors of project/gossip/pkg/gossip/store.go over its operations: the first one of an ID stays.
use cs.Prelude.{◌≡◌, List, [], ◌∷◌, some, arith, Text, =ᵗ_iff, inl, inr, Option-cases}
use cs.Prelude.Dicts.{lookup, lookup-insert}
use cs.Gossip.Defs.{Rumor}
use cs.Gossip.Store.{write_log, add, ready_to_push}
use cs.Gossip.Store.Runs.{
  Op, adds, pushes, logs_inject, logs_sent, logs_received, History, apply, run,
}

apply-kept :
    (op : Op) (h : History) (k : Text) (r : Rumor)
    → lookup k h.store.seen ≡ some r
    → lookup k (apply op h).store.seen ≡ some r
unfolding apply add write_log ready_to_push
apply-kept (adds now new) h k r e = elim (Option-cases (lookup new.id h.store.seen)) [
  | inl absent ↦ ground (arith, e, absent, =ᵗ_iff new.id k, lookup-insert new.id k new h.store.seen)
  | inr (old, found) ↦ ground (arith, e, found)
]
apply-kept pushes h k r e = e
apply-kept (logs_inject now new) h k r e = e
apply-kept (logs_sent now new) h k r e = e
apply-kept (logs_received now new) h k r e = e

-- A rumor that the store knows is neither lost nor changed by any operations, additions of other
-- rumors under its ID included.
pub run-kept :
    (ops : List Op) (h : History) (k : Text) (r : Rumor)
    → lookup k h.store.seen ≡ some r
    → lookup k (run ops h).store.seen ≡ some r
unfolding run
run-kept [] h k r e = e
run-kept (op ∷ ops) h k r e = run-kept ops (apply op h) k r (apply-kept op h k r e)
