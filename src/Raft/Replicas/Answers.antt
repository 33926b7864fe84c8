-- ===== src/Raft/Replicas/Answers.antt =====
-- The answers to AppendEntries in a cluster of src/raft/raft.go: what replicateTo does with one fits the
-- server's log.
use cs.Prelude.{
  ℕ, suc, ◌+◌, ◌≤◌, ◌<◌, ◌≡◌, refl, sym, ap, ◌∙◌, true, false, List, [], ◌∷◌, some, inl, inr, arith,
  length, length-take, length-drop, get_elem?, take, Bool-cases,
}
use cs.Prelude.Every.{Every, Every-mono}
use cs.Raft.Defs.{LogEntry, Raft, leader, World, Gob, AppendEntriesArgs, AppendEntriesReply}
use cs.Raft.Replicate.{Answered, answered, leads}
use cs.Raft.Server.{append_answered, Fits, step}
use cs.Raft.Replicas.{Message, Answer}
use cs.Raft.Replicas.Logs.{IsChunk}

module _ {C : Type 0} where
  -- The answer of a server to a message that was sent.
  pub record AnswerOk (n : ℕ) (sent : List (Message C)) (m : Answer C) : Type 0 where
    pub peer : m.from < n
    pub conflict : m.reply.conflict_index ≤ m.args.prev_log_index
    pub place : ℕ
    pub message : Message C
    pub found : get_elem? sent place ≡ some message
    pub same_args : message.args ≡ m.args

  pub AnswerOk-more :
      (n : ℕ) (sent : List (Message C)) (x : Message C) (answers : List (Answer C))
      → Every (AnswerOk n sent) answers
      → Every (AnswerOk n (x ∷ sent)) answers
  AnswerOk-more n sent x answers h =
      Every-mono _ _ answers
        (λ m ok. record {
          peer = ok.peer;
          conflict = ok.conflict;
          place = suc ok.place;
          message = ok.message;
          found = ok.found;
          same_args = ok.same_args;
        })
        h

  IsChunk-within :
      (log : List (LogEntry C)) (args : AppendEntriesArgs C)
      → IsChunk log args
      → args.prev_log_index + length args.entries < length log
  IsChunk-within log args c =
      let order = c.in_order in
      let whole = c.in_log in
      omega (
        arith,
        ap length c.entries,
        length-drop (suc args.prev_log_index) (take c.end log),
        length-take c.end log,
      )

  leads-leader :
      (leader_term : ℕ) (rf : Raft C)
      → leads leader_term rf ≡ true
      → (rf.state ≡ leader) × (rf.term ≡ leader_term)
  unfolding leads
  leads-leader leader_term rf e = ground arith

  -- A server that does not lead reads neither the indices of an answer nor what was sent.
  unread :
      (g : Gob C) (w : World) (peer leader_term : ℕ) (args args' : AppendEntriesArgs C)
      (reply : AppendEntriesReply) (i : ℕ) (rf : Raft C)
      → leads leader_term rf ≡ false
      → answered g w peer leader_term args reply rf
        ≡ answered g w peer leader_term args' (record reply { conflict_index = i }) rf
  unfolding answered
  unread g w peer leader_term args args' reply i rf e = ground (arith, e)

  -- The handling of an answer is an event that fits the server.
  pub record Handled (g : Gob C) (w : World) (rf rf' : Raft C) (peer leader_term : ℕ) : Type 0 where
    pub args : AppendEntriesArgs C
    pub reply : AppendEntriesReply
    pub fits : Fits rf (append_answered peer leader_term args reply)
    pub ends : step g w (append_answered peer leader_term args reply) rf ≡ some rf'

  pub answered-Handled :
      (g : Gob C) (w : World) (peer leader_term : ℕ) (args : AppendEntriesArgs C)
      (reply : AppendEntriesReply) (rf : Raft C) {a : Answered C}
      → answered g w peer leader_term args reply rf ≡ some a
      → peer < rf.peers
      → 0 < length rf.log
      → reply.conflict_index ≤ args.prev_log_index
      → (rf.state ≡ leader → rf.term ≡ leader_term → IsChunk rf.log args)
      → Handled g w rf a.node peer leader_term
  unfolding step
  answered-Handled g w peer leader_term args reply rf e bound filled conflict chunk =
      elim (Bool-cases (leads leader_term rf)) [
        | inl l ↦
            let (led, t) = leads-leader leader_term rf l in
            record {
              args = args;
              reply = reply;
              fits = (bound, IsChunk-within rf.log args (chunk led t), conflict);
              ends = rw e refl;
            }
        | inr l ↦
            let args' = record args { prev_log_index = 0; entries = [] } in
            record {
              args = args';
              reply = record reply { conflict_index = 0 };
              fits = (bound, omega arith, omega arith);
              ends = rw (sym (unread g w peer leader_term args args' reply 0 rf l) ∙ e) refl;
            }
      ]
