-- ===== src/Raft/Apply.antt =====
-- What applier of src/raft/raft.go hands to the service.
use cs.Prelude.{
  ℕ, zero, suc, ◌+◌, ◌-◌, ◌≤◌, ◌<◌, ◌≡◌, refl, List, [], ◌∷◌, none, some, arith, length, get_elem?,
  get_elem?-lt, drop, take,
}
use cs.Raft.Defs.{LogEntry, ApplyMsg, Raft}
use cs.Raft.Client.{apply_one, apply_loop, apply_all}

module _ {C : Type 0} where
  -- The messages for a list of entries that begins at an index.
  pub messages : ℕ → List (LogEntry C) → List (ApplyMsg C)
  messages i [] = []
  messages i (e ∷ es) = record { index = i; command = e.command } ∷ messages (i + 1) es

  apply_one-some :
      (rf : Raft C) (e : LogEntry C)
      → rf.last_applied < rf.commit_index
      → get_elem? rf.log (rf.last_applied + 1) ≡ some e
      → rf.last_applied + 1 < length rf.log
      → apply_one rf
        ≡ some (record {
          node = record rf { last_applied = rf.last_applied + 1 };
          msg = record { index = rf.last_applied + 1; command = e.command };
        })
  unfolding apply_one
  apply_one-some rf e a p b = ground arith

  apply_one-none : (rf : Raft C) → rf.commit_index ≤ rf.last_applied → apply_one rf ≡ none
  unfolding apply_one
  apply_one-none rf a = ground arith

  drop-step :
      (log : List (LogEntry C)) (i : ℕ) {e : LogEntry C}
      → get_elem? log i ≡ some e
      → drop i log ≡ e ∷ drop (i + 1) log
  drop-step [] i p = cc
  drop-step (x ∷ xs) zero p = ground arith
  drop-step (x ∷ xs) (suc i) {e = e} p =
      let s : suc i + 1 ≡ suc (i + 1) = omega arith in rw s (drop-step xs i p)

  apply_loop-messages :
      (n i : ℕ) (rf : Raft C)
      → rf.last_applied ≡ i
      → i + n ≡ rf.commit_index
      → rf.commit_index < length rf.log
      → (fuel : ℕ) → n ≤ fuel
      → apply_loop fuel rf ≡ record {
        node = record rf { last_applied = rf.commit_index };
        msgs = messages (i + 1) (take n (drop (i + 1) rf.log));
      }
  unfolding apply_loop messages
  apply_loop-messages zero i rf e h c zero l = ground arith
  apply_loop-messages zero i rf e h c (suc fuel) l =
      rw (apply_one-none rf (omega arith), apply_loop) (ground arith)
  apply_loop-messages (suc n) i rf e h c zero l = absurd (omega arith)
  apply_loop-messages (suc n) i rf e h c (suc fuel) l =
      let (x, p) = get_elem?-lt rf.log (rf.last_applied + 1) (omega arith) in
      let rf' = record rf { last_applied = rf.last_applied + 1 } in
      let a : i + 1 ≡ rf.last_applied + 1 = omega arith in
      rw (
        apply_one-some rf x (omega arith) p (omega arith),
        apply_loop,
        apply_loop-messages n (rf.last_applied + 1) rf' refl (omega arith) c fuel (omega arith),
        a,
        drop-step rf.log (rf.last_applied + 1) p,
      )

  -- Where the log reaches up to the commit index, applier hands over exactly the entries behind the
  -- last one applied and up to the commit index: each once, in the order of the log, under its own
  -- index. Nothing but lastApplied changes, and it is the commit index then.
  pub apply_all-messages :
      (rf : Raft C)
      → rf.last_applied ≤ rf.commit_index
      → rf.commit_index < length rf.log
      → apply_all rf ≡ record {
        node = record rf { last_applied = rf.commit_index };
        msgs =
            messages
              (rf.last_applied + 1)
              (take (rf.commit_index - rf.last_applied) (drop (rf.last_applied + 1) rf.log));
      }
  unfolding apply_all
  apply_all-messages rf h c =
      apply_loop-messages (rf.commit_index - rf.last_applied) rf.last_applied rf refl (omega arith)
        c rf.commit_index (omega arith)
