-- ===== src/Gossip/Store/Deliveries.antt =====
-- The log and the contents of the store of project/gossip/pkg/gossip/store.go over its operations.
use cs.Prelude.{
  ℕ, ◌≡◌, sym, subst, true, List, [], ◌∷◌, none, some, arith, Text, if◌then◌else◌, =ᵗ_iff, inl, inr,
  Option-cases,
}
use cs.Prelude.Dicts.{lookup, has, lookup-insert}
use cs.Gossip.Defs.{Rumor, LogRec}
use cs.Gossip.Store.{new_store, write_log, add, ready_to_push}
use cs.Gossip.Store.Runs.{
  Op, adds, pushes, logs_inject, logs_sent, logs_received, History, apply, run, started, deliveries,
  is_deliver, add_old,
}

-- The log has one deliver record for each ID that the store knows, and none for any other.
abbrev pub IsCounted : History → Type 0
IsCounted h =
    (k : Text) (recs : List LogRec)
    → h.store.logf ≡ some recs
    → deliveries k recs ≡ (if has k h.store.seen then 1 else 0)

add-IsCounted :
    (now : ℕ) (r : Rumor) (h : History)
    → lookup r.id h.store.seen ≡ none
    → IsCounted h
    → IsCounted (apply (adds now r) h)
unfolding apply add deliveries is_deliver has
add-IsCounted now r h e c k recs q = elim (Option-cases h.store.logf) [
  | inl n ↦ ground arith
  | inr (old, p) ↦ ground (arith, p, c k old p, =ᵗ_iff r.id k, lookup-insert r.id k r h.store.seen)
]

apply-IsCounted : (op : Op) (h : History) → IsCounted h → IsCounted (apply op h)
unfolding apply write_log deliveries is_deliver ready_to_push
apply-IsCounted (adds now r) h c = elim (Option-cases (lookup r.id h.store.seen)) [
  | inl e ↦ add-IsCounted now r h e c
  | inr (old, e) ↦ subst IsCounted (sym (add_old now r h e)) c
]
apply-IsCounted pushes h c = c
apply-IsCounted (logs_inject now r) h c = λ k recs q. elim (Option-cases h.store.logf) [
  | inl n ↦ ground arith
  | inr (old, p) ↦ ground (arith, p, c k old p)
]
apply-IsCounted (logs_sent now r) h c = λ k recs q. elim (Option-cases h.store.logf) [
  | inl n ↦ ground arith
  | inr (old, p) ↦ ground (arith, p, c k old p)
]
apply-IsCounted (logs_received now r) h c = λ k recs q. elim (Option-cases h.store.logf) [
  | inl n ↦ ground arith
  | inr (old, p) ↦ ground (arith, p, c k old p)
]

run-IsCounted : (ops : List Op) (h : History) → IsCounted h → IsCounted (run ops h)
unfolding run
run-IsCounted [] h c = c
run-IsCounted (op ∷ ops) h c = run-IsCounted ops (apply op h) (apply-IsCounted op h c)

started-IsCounted : (node_id : Text) → IsCounted (started true node_id)
unfolding new_store has lookup deliveries
started-IsCounted node_id k recs q = ground arith

-- After any operations on a new store whose log file is open, the log holds exactly one deliver
-- record for each ID that the store knows, and none for any other ID.
pub run-delivered_once :
    (ops : List Op) (node_id k : Text) (recs : List LogRec)
    → (run ops (started true node_id)).store.logf ≡ some recs
    → deliveries k recs ≡ (if has k (run ops (started true node_id)).store.seen then 1 else 0)
run-delivered_once ops node_id =
    run-IsCounted ops (started true node_id) (started-IsCounted node_id)
