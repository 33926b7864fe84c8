-- ===== src/Raft/Replicate/Rounds.antt =====
-- One round of replicateTo in src/raft/raft.go against a peer that runs AppendEntries.
use cs.Prelude.{
  ℕ, zero, suc, ◌+◌, ◌-◌, ◌≤◌, ◌<◌, ◌≡◌, ◌≢◌, refl, sym, ◌⊎◌, inl, inr, ℤ, minus_one, true, false,
  List, Option, none, some, arith, length, get_elem?, get_elem?-lt, take, drop, Ends, Ends-result,
  ltb, ◌==ℤ◌, ==ℤ_iff, Bool-cases,
}
use cs.Raft.Defs.{LogEntry, Raft, leader, World, Gob, AppendEntriesArgs}
use cs.Raft.Log.{term_at_locked, last_log_index_locked, sync_locked, first_index_of}
use cs.Raft.Log.Sync.{terms}
use cs.Raft.Append.{append_entries, refusal}
use cs.Raft.Replicate.{prepare, backtrack, at_least_one, last_index_of, or_conflict}
use cs.Raft.Replicate.Backtrack.{IsLast, last_index_of-IsLast, first_index_of-le}

-- What Raft's elections see to, of the logs of a leader and a follower. An entry's term was written
-- by one leader, whose log only grew: where the follower has a term at an index and the leader has
-- it at that index or later, the leader has it at that index too. And logs that have the same
-- term at an index agree up to it.
pub record Related {C : Type 0} (ls fs : List (LogEntry C)) : Type 0 where
  pub same_origin :
      (i j : ℕ)
      → i ≤ j
      → j < length ls
      → i < length fs
      → term_at_locked ls j ≡ term_at_locked fs i
      → term_at_locked ls i ≡ term_at_locked fs i
  pub same_prefix :
      (i : ℕ)
      → i < length ls
      → i < length fs
      → term_at_locked ls i ≡ term_at_locked fs i
      → take (i + 1) (terms ls) ≡ take (i + 1) (terms fs)

==ℤ-false : (a b : ℤ) → a ≢ b → (a ==ℤ b) ≡ false
==ℤ-false a b h = ground (arith, ==ℤ_iff a b)

module _ {C : Type 0} where
  -- The message of a round that begins at a next index.
  abbrev pub message : Raft C → ℕ → AppendEntriesArgs C
  message from next = record {
    term = from.term;
    leader_id = from.me;
    prev_log_index = next - 1;
    prev_log_term = term_at_locked from.log (next - 1);
    entries = drop next from.log;
    leader_commit = from.commit_index;
  }

  pub prepare-message :
      (peer next leader_term : ℕ) (from : Raft C)
      → from.state ≡ leader
      → from.term ≡ leader_term
      → get_elem? from.next_index peer ≡ some next
      → 0 < next
      → next ≤ length from.log
      → prepare peer leader_term from
        ≡ some (record { node = from; args = some (message from next) })
  unfolding prepare
  prepare-message peer next leader_term from l t p h k = ground arith

  -- A term of the log is no mark.
  pub term_at_locked-ne :
      (log : List (LogEntry C)) (i : ℕ) → i < length log → term_at_locked log i ≢ minus_one
  unfolding term_at_locked
  term_at_locked-ne log zero h = λ e. cc
  term_at_locked-ne log (suc i) h = ground (arith, get_elem?-lt log (suc i) h)

  -- The three outcomes of AppendEntries on a message that is not from an older term.
  abbrev pub Verdict : Gob C → World → AppendEntriesArgs C → Raft C → Type 0
  Verdict g w args to =
      let r = append_entries g w args to in
      (r.node.term ≡ args.term)
      × (((last_log_index_locked to.log < args.prev_log_index)
            × (r.reply ≡ refusal to.term minus_one (last_log_index_locked to.log + 1))
            × (r.node.log ≡ to.log))
          ⊎ ((args.prev_log_index ≤ last_log_index_locked to.log)
              × (term_at_locked to.log args.prev_log_index ≢ args.prev_log_term)
              × (r.reply
                  ≡ refusal to.term (term_at_locked to.log args.prev_log_index) (
                      first_index_of to.log (term_at_locked to.log args.prev_log_index)
                        args.prev_log_index))
              × (r.node.log ≡ to.log))
          ⊎ ((args.prev_log_index ≤ last_log_index_locked to.log)
              × (term_at_locked to.log args.prev_log_index ≡ args.prev_log_term)
              × (r.reply.success ≡ true)
              × (r.reply.term ≡ args.term)
              × (r.node.log ≡ sync_locked to.log (args.prev_log_index + 1) args.entries)))

  pub append_entries-Verdict :
      (g : Gob C) (w : World) (args : AppendEntriesArgs C) (to : Raft C)
      → to.term ≤ args.term
      → Verdict g w args to
  unfolding append_entries
  append_entries-Verdict g w args to h =
      ground (arith, ==ℤ_iff (term_at_locked to.log args.prev_log_index) args.prev_log_term)

  mismatch_positive :
      (ls fs : List (LogEntry C)) (prev : ℕ)
      → term_at_locked fs prev ≢ term_at_locked ls prev
      → 0 < prev
  unfolding term_at_locked
  mismatch_positive ls fs zero d = absurd (d refl)
  mismatch_positive ls fs (suc prev) d = omega arith

  last-lt :
      (ls fs : List (LogEntry C)) (prev k : ℕ)
      → Related ls fs
      → prev < length fs
      → k < length ls
      → term_at_locked fs prev ≢ term_at_locked ls prev
      → term_at_locked ls k ≡ term_at_locked fs prev
      → k < prev
  last-lt ls fs prev k rel f l d t = elim (Bool-cases (ltb k prev)) [
    | inl low ↦ ground arith
    | inr high ↦ absurd (d (sym (rel.same_origin prev k (ground arith) l f t)))
  ]

  pub backtrack-mismatch :
      (ls fs : List (LogEntry C)) (term next : ℕ)
      → Related ls fs
      → next ≤ length ls
      → next ≤ length fs
      → 0 < next
      → term_at_locked fs (next - 1) ≢ term_at_locked ls (next - 1)
      → Ends
          (λ n. at_least_one n < next)
          (backtrack ls (
            refusal term
              (term_at_locked fs (next - 1))
              (first_index_of fs (term_at_locked fs (next - 1)) (next - 1))))
  unfolding backtrack at_least_one or_conflict
  backtrack-mismatch ls fs term next rel hl hf p d =
      let ct = term_at_locked fs (next - 1) in
      let (r, e, found) =
        Ends-result (IsLast ls ct (length ls - 1)) (last_index_of ls ct (length ls - 1))
          (last_index_of-IsLast ls ct (length ls - 1) (omega arith)) in
      rw (==ℤ-false ct minus_one (term_at_locked-ne fs (next - 1) (omega arith)), e)
        (retreat r found)
    where
      retreat :
          (r : Option ℕ)
          → IsLast ls (term_at_locked fs (next - 1)) (length ls - 1) r
          → at_least_one
              (or_conflict r (first_index_of fs (term_at_locked fs (next - 1)) (next - 1)))
            < next
      retreat none h = ground (
        arith,
        mismatch_positive ls fs (next - 1) d,
        first_index_of-le fs (term_at_locked fs (next - 1)) (next - 1),
      )
      retreat (some k) h =
          ground (arith, last-lt ls fs (next - 1) k rel (omega arith) (omega arith) d h.2)
