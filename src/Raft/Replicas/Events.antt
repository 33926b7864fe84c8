-- ===== src/Raft/Replicas/Events.antt =====
-- What one event does to the log of a server of src/raft/raft.go.
use cs.Prelude.{
  take-all, ℕ, suc, ◌+◌, ◌-◌, ◌≤◌, ◌<◌, ◌≡◌, ◌⊎◌, refl, some, arith, length, List, [], ◌∷◌, ◌++◌,
  Option, drop, ltb, Bool-cases, Option-cases, get_elem?, inl, inr,
}
use cs.Raft.Defs.{
  LogEntry, Raft, leader, World, Gob, RequestVoteArgs, RequestVoteReply, AppendEntriesArgs,
}
use cs.Raft.Log.{term_at_locked, sync_locked}
use cs.Raft.Replicas.Logs.{IsChunk}
use cs.Raft.Vote.{VoteResult, step_down_locked, request_vote, become_leader_locked}
use cs.Raft.Election.{Election, VoteCounted, start_election, count_vote}
use cs.Raft.Heartbeat.{heartbeat, start_heartbeat, beat_answered}
use cs.Raft.Append.{append_entries}
use cs.Raft.Commit.{try_advance_commit_locked}
use cs.Raft.Replicate.{Prepared, prepare, answered}
use cs.Raft.Client.{start, apply_one}
use cs.Raft.Server.{
  Event, elect, beat, vote_asked, beat_received, append_received, vote_answered, beat_returned,
  append_answered, replicate, commanded, applied, step,
}

-- The event has no part in a call of AppendEntries.
abbrev pub NoAppend : {C : Type 0} → Event C → Type 0
NoAppend (append_received args) = ⊥
NoAppend (append_answered peer leader_term args reply) = ⊥
NoAppend (replicate peer leader_term) = ⊥
NoAppend _ = Unit

-- The event leaves the log.
abbrev pub IsQuiet : {C : Type 0} → Event C → Type 0
IsQuiet (append_received args) = ⊥
IsQuiet (commanded c) = ⊥
IsQuiet _ = Unit

pub IsQuiet-cases :
    {C : Type 0} (e : Event C) → NoAppend e → IsQuiet e ⊎ ((c : Option C) × (e ≡ commanded c))
IsQuiet-cases elect a = inl tt
IsQuiet-cases beat a = inl tt
IsQuiet-cases (vote_asked args) a = inl tt
IsQuiet-cases (beat_received args) a = inl tt
IsQuiet-cases (append_received args) a = absurd a
IsQuiet-cases (vote_answered term reply) a = inl tt
IsQuiet-cases (beat_returned t reply) a = inl tt
IsQuiet-cases (append_answered peer leader_term args reply) a = absurd a
IsQuiet-cases (replicate peer leader_term) a = absurd a
IsQuiet-cases (commanded c) a = inr (c, refl)
IsQuiet-cases applied a = inl tt

module _ {C : Type 0} where
  whole-IsChunk :
      (log : List (LogEntry C)) (args : AppendEntriesArgs C) (next : ℕ)
      → 0 < next
      → next ≤ length log
      → args.prev_log_index ≡ next - 1
      → args.prev_log_term ≡ term_at_locked log (next - 1)
      → args.entries ≡ drop next log
      → IsChunk log args
  whole-IsChunk log args next p le i t es =
      let h : length log ≤ length log = omega arith in
      let back : suc args.prev_log_index ≡ next = omega (arith, i) in
      record {
        end = length log;
        in_log = omega arith;
        in_order = omega (arith, i);
        entries = rw (back, take-all (length log) log h) es;
        prev_term = rw (take-all (length log) log h, i) t;
      }

module _ {C : Type 0} (g : Gob C) (w : World) (rf : Raft C) where
  pub step-log :
      (e : Event C) {rf' : Raft C} → IsQuiet e → step g w e rf ≡ some rf' → rf'.log ≡ rf.log
  unfolding step start_election become_leader_locked start_heartbeat request_vote heartbeat
      append_entries count_vote beat_answered prepare start apply_one answered
      try_advance_commit_locked step_down_locked
  step-log elect q e = ground arith
  step-log beat q e = ground arith
  step-log (vote_asked args) q e = ground arith
  step-log (beat_received args) q e = ground arith
  step-log (append_received args) q e = absurd q
  step-log (vote_answered term reply) q e = ground arith
  step-log (beat_returned t reply) q e = ground arith
  step-log (append_answered peer leader_term args reply) q e = ground arith
  step-log (replicate peer leader_term) q e = ground arith
  step-log (commanded c) q e = absurd q
  step-log applied q e = ground arith

  pub elect-step :
      {e : Election C} → start_election g w rf ≡ some e → step g w elect rf ≡ some e.node
  unfolding step
  elect-step q = rw q refl

  pub asked-step :
      (args : RequestVoteArgs) {r : VoteResult C}
      → request_vote g w args rf ≡ some r
      → step g w (vote_asked args) rf ≡ some r.node
  unfolding step
  asked-step args q = rw q refl

  pub counted-step :
      (term : ℕ) (reply : RequestVoteReply) {v : VoteCounted C}
      → count_vote g w rf.peers term reply rf ≡ some v
      → step g w (vote_answered term reply) rf ≡ some v.node
  unfolding step
  counted-step term reply q = rw q refl

  pub prepared-step :
      (peer leader_term : ℕ) {p : Prepared C}
      → prepare peer leader_term rf ≡ some p
      → step g w (replicate peer leader_term) rf ≡ some p.node
  unfolding step
  prepared-step peer leader_term q = rw q refl

  -- A leader appends the command in its term; any other server refuses.
  pub commanded-log :
      (c : Option C) {rf' : Raft C}
      → step g w (commanded c) rf ≡ some rf'
      → (rf'.term ≡ rf.term)
        × (rf'.state ≡ rf.state)
        × ((rf'.log ≡ rf.log)
            ⊎ ((rf.state ≡ leader)
                × (rf'.log ≡ rf.log ++ record { term = rf.term; command = c } ∷ [])))
  unfolding step start
  commanded-log c e = ground arith

  -- What a server that is no leader afterwards takes from a message.
  pub append_entries-log :
      (args : AppendEntriesArgs C)
      → ((append_entries g w args rf).node.log ≡ rf.log)
        ⊎ (((append_entries g w args rf).node.log
              ≡ sync_locked rf.log (args.prev_log_index + 1) args.entries)
            × (args.prev_log_index ≤ length rf.log - 1)
            × (term_at_locked rf.log args.prev_log_index ≡ args.prev_log_term))
  unfolding append_entries
  append_entries-log args = ground arith

  pub append_entries-leader :
      (args : AppendEntriesArgs C)
      → (append_entries g w args rf).node.state ≡ leader
      → (append_entries g w args rf).node.log ≡ rf.log
  unfolding append_entries
  append_entries-leader args l = ground arith

  -- The fields of the message of a round.
  abbrev SendsFrom : AppendEntriesArgs C → ℕ → Type 0
  SendsFrom args next =
      (rf.state ≡ leader)
      × (args.term ≡ rf.term)
      × (0 < next)
      × (next ≤ length rf.log)
      × (args.prev_log_index ≡ next - 1)
      × (args.prev_log_term ≡ term_at_locked rf.log (next - 1))
      × (args.entries ≡ drop next rf.log)

  prepare-SendsFrom :
      (peer leader_term : ℕ) (args : AppendEntriesArgs C) {p : Prepared C}
      → prepare peer leader_term rf ≡ some p
      → p.args ≡ some args
      → (next : ℕ) × SendsFrom args next
  unfolding prepare
  prepare-SendsFrom peer leader_term args e f = elim (Option-cases (get_elem? rf.next_index peer)) [
    | inl out ↦ absurd (ground (arith, out))
    | inr (next, found) ↦ elim (Bool-cases (ltb next 1)) [
      | inl low ↦ (1, ground (arith, found, low))
      | inr high ↦ (next, ground (arith, found, high))
    ]
  ]

  -- What replicateTo sends is part of the log of a leader, in its term.
  pub prepare-IsChunk :
      (peer leader_term : ℕ) (args : AppendEntriesArgs C) {p : Prepared C}
      → prepare peer leader_term rf ≡ some p
      → p.args ≡ some args
      → (rf.state ≡ leader) × (args.term ≡ rf.term) × IsChunk rf.log args
  prepare-IsChunk peer leader_term args e f =
      let (next, fields) = prepare-SendsFrom peer leader_term args e f in
      let (l, t, more, le, i, q, es) = fields in
      (l, t, whole-IsChunk rf.log args next more le i q es)

  pub prepare-keeps :
      (peer leader_term : ℕ) {p : Prepared C}
      → prepare peer leader_term rf ≡ some p
      → (p.node.state ≡ rf.state) × (p.node.term ≡ rf.term) × (p.node.log ≡ rf.log)
  unfolding prepare
  prepare-keeps peer leader_term e = ground arith
