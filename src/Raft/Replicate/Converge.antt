-- ===== src/Raft/Replicate/Converge.antt =====
-- The loop of replicateTo in src/raft/raft.go ends, and then the peer has the leader's log.
use cs.Prelude.{
  take-all, ℕ, zero, suc, ◌+◌, ◌-◌, ◌≤◌, ◌<◌, ◌≡◌, refl, sym, ap, ◌∙◌, inl, inr, minus_one, true,
  false, List, [], ◌∷◌, ◌++◌, some, arith, length, subst, take, drop, Ends, Ends->>=, length-drop,
  length-map, take-append-drop, ◌>>=◌, if◌then◌else◌,
}
use cs.Raft.Defs.{LogEntry, Raft, World, Gob, AppendEntriesReply}
use cs.Raft.Log.{term_at_locked, last_log_index_locked, sync_locked}
use cs.Raft.Log.Sync.{terms, drop-terms, sync_locked-terms, sync_locked-nil}
use cs.Raft.Append.{append_entries, refusal}
use cs.Raft.Replicate.{answered, backtrack, at_least_one}
use cs.Raft.Replicate.Loop.{Outcome, stopped, out_of_fuel, replicate_to}
use cs.Raft.Replicate.Rounds.{
  Related, message, prepare-message, append_entries-Verdict, backtrack-mismatch,
}
use cs.Raft.Replicate.Progress.{
  Ready, Retried, Finished, answered-Finished, answered-Retried, Retried-Ready,
}

module _ {C : Type 0} where
  -- The loop has stopped; the leader's log is ls, and the follower's has its terms, up to its length.
  abbrev pub Converged : List (LogEntry C) → Outcome C → Type 0
  Converged ls out_of_fuel = ⊥
  Converged ls (stopped p) = (p.from.log ≡ ls) × (take (length ls) (terms p.to.log) ≡ terms ls)

  accepted-terms :
      (ls fs : List (LogEntry C)) (next : ℕ)
      → Related ls fs
      → 0 < next
      → next ≤ length ls
      → next ≤ length fs
      → term_at_locked fs (next - 1) ≡ term_at_locked ls (next - 1)
      → take (length ls) (terms (sync_locked fs (next - 1 + 1) (drop next ls))) ≡ terms ls
  accepted-terms ls fs next rel p hl hf t = go (drop next ls) refl
    where
      back : next - 1 + 1 ≡ next
      back = omega arith

      agree : take next (terms ls) ≡ take next (terms fs)
      agree = rw back at (rel.same_prefix (next - 1) (omega arith) (omega arith) (sym t))

      go :
          (rest : List (LogEntry C))
          → drop next ls ≡ rest
          → take (length ls) (terms (sync_locked fs (next - 1 + 1) rest)) ≡ terms ls
      go [] q =
          let e : length ls ≡ next = omega (arith, ap length q, length-drop next ls) in
          rw (sync_locked-nil fs (next - 1 + 1), e, ← agree)
            (take-all next (terms ls) (omega (arith, length-map ls (λ x. x.term))))
      go (x ∷ xs) q =
          let tail : terms (x ∷ xs) ≡ drop next (terms ls) =
            sym (ap terms q) ∙ drop-terms next ls in
          let whole : take next (terms fs) ++ drop next (terms ls) ≡ terms ls =
            rw (← agree) (take-append-drop next (terms ls)) in
          rw (back, sync_locked-terms fs next x xs ∙ ap (◌++◌ (take next (terms fs))) tail ∙ whole)
            (take-all (length ls) (terms ls) (omega (arith, length-map ls (λ x. x.term))))

  -- What the rest of the loop does from a state that is ready with a lower next index.
  abbrev Rest : Gob C → World → (peer fuel leader_term next : ℕ) (from to : Raft C) → Type 0
  Rest g w peer fuel leader_term next from to =
      (n : ℕ) (from' to' : Raft C)
      → n < next
      → from'.term ≡ leader_term
      → Ready peer n from' to'
      → from'.log ≡ from.log
      → to'.log ≡ to.log
      → Ends (Converged from.log) (replicate_to g w peer fuel leader_term from' to')

  retried :
      (g : Gob C) (w : World) (peer fuel next leader_term : ℕ) (from to : Raft C)
      (reply : AppendEntriesReply) (to' : Raft C)
      → from.term ≡ leader_term
      → Ready peer next from to
      → Rest g w peer fuel leader_term next from to
      → reply.term ≤ from.term
      → reply.success ≡ false
      → Ends (λ n. at_least_one n < next) (backtrack from.log reply)
      → to'.log ≡ to.log
      → to'.term ≡ from.term
      → Ends (Converged from.log) (
          answered g w peer leader_term (message from next) reply from >>= λ a.
          let more = replicate_to g w peer fuel leader_term a.node to' in
          if a.again then more else some (stopped (record { from = a.node; to = to' })))
  retried g w peer fuel next leader_term from to reply to' t r rest rt rs b log term =
      Ends->>= (Retried next peer from) _
        (answered g w peer leader_term (message from next) reply from) _
        (answered-Retried g w peer next leader_term (message from next) reply from r.leads t rt rs
          (omega (arith, r.peer_bound, r.next_length)) b)
        λ a ret.
          let (n, lt, ps, f) = ret.lower in
          rw ret.again (
            rest n a.node to' lt (ret.same_term ∙ t)
              (Retried-Ready peer next n from to to' a r ret lt ps f log term) ret.same_log log)

  finish :
      (g : Gob C) (w : World) (peer fuel next leader_term : ℕ) (from to : Raft C)
      (reply : AppendEntriesReply) (to' : Raft C)
      → from.term ≡ leader_term
      → Ready peer next from to
      → reply.term ≤ from.term
      → reply.success ≡ true
      → take (length from.log) (terms to'.log) ≡ terms from.log
      → Ends (Converged from.log) (
          answered g w peer leader_term (message from next) reply from >>= λ a.
          let more = replicate_to g w peer fuel leader_term a.node to' in
          if a.again then more else some (stopped (record { from = a.node; to = to' })))
  finish g w peer fuel next leader_term from to reply to' t r rt rs c =
      Ends->>= (Finished from) _ (answered g w peer leader_term (message from next) reply from) _
        (answered-Finished g w peer leader_term (message from next) reply from r.leads t rt rs
          r.peer_bound r.matched_length r.next_length r.self
          (omega (arith, r.next_positive, r.next_bound)))
        λ a f. rw f.last_round (f.same_log, c)

  short-backtrack :
      (log : List (LogEntry C)) (term last next : ℕ)
      → last < next - 1
      → Ends (λ n. at_least_one n < next) (backtrack log (refusal term minus_one (last + 1)))
  unfolding backtrack at_least_one
  short-backtrack log term last next h = ground arith

  next_le :
      (log : List (LogEntry C)) (next : ℕ)
      → next - 1 ≤ last_log_index_locked log
      → 0 < length log
      → next ≤ length log
  unfolding last_log_index_locked
  next_le log next h d = omega arith

  -- Against a follower of no newer term whose log is related to the leader's as in Raft, the loop
  -- of replicateTo ends without a panic after at most as many rounds as the next index it begins
  -- with: each refusal lowers the next index. The leader's log is then as it was, and the
  -- follower's log has the leader's terms up to the leader's last index.
  pub replicate_to-Converged :
      (g : Gob C) (w : World) (peer leader_term : ℕ) (fuel next : ℕ) (from to : Raft C)
      → from.term ≡ leader_term
      → Ready peer next from to
      → Related from.log to.log
      → next ≤ fuel
      → Ends (Converged from.log) (replicate_to g w peer fuel leader_term from to)
  unfolding replicate_to
  replicate_to-Converged g w peer leader_term zero next from to t r rel h =
      absurd (omega (arith, r.next_positive))
  replicate_to-Converged g w peer leader_term (suc fuel) next from to t r rel h =
      let args = message from next in
      let res = append_entries g w args to in
      let rest : Rest g w peer fuel leader_term next from to = λ n from' to' lt t' r' lf lt'.
        subst (λ ls. Ends (Converged ls) (replicate_to g w peer fuel leader_term from' to')) lf
          (replicate_to-Converged g w peer leader_term fuel n from' to' t' r' (rw (lf, lt') rel)
            (omega arith)) in
      let (term, verdict) = append_entries-Verdict g w args to r.follower_term in
      rw
        (prepare-message peer next leader_term from r.leads t r.next_found r.next_positive
          r.next_bound)
        (elim verdict [
          | inl (short, e, log) ↦
              retried g w peer fuel next leader_term from to res.reply res.node t r rest
                (rw e r.follower_term) (rw e)
                (rw e (short-backtrack from.log to.term (last_log_index_locked to.log) next short))
                log term
          | inr other ↦ elim other [
            | inl (le, ne, e, log) ↦
                retried g w peer fuel next leader_term from to res.reply res.node t r rest
                  (rw e r.follower_term) (rw e)
                  (rw e (
                    backtrack-mismatch from.log to.log to.term next rel r.next_bound
                      (next_le to.log next le r.follower_log) r.next_positive ne))
                  log term
            | inr (le, same, ok, rt, log) ↦
                finish g w peer fuel next leader_term from to res.reply res.node t r
                  (omega (arith, rt)) ok
                  (rw log (
                    accepted-terms from.log to.log next rel r.next_positive r.next_bound
                      (next_le to.log next le r.follower_log) same))
          ]
        ])
