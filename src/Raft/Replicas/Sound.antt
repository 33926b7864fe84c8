-- ===== src/Raft/Replicas/Sound.antt =====
-- A message of AppendEntries that is sent, delivered or answered keeps the invariants of a cluster of
-- src/raft/raft.go.
use cs.Prelude.{
  ℕ, ◌<◌, ◌≡◌, refl, sym, ap, ◌∙◌, subst, some, arith, get_elem?, lt_of_get_elem?,
  get_elem?-set_self, set,
}
use cs.Prelude.Every.{Every, Every-get}
use cs.Raft.Defs.{Raft, leader, World, Gob, AppendEntriesArgs}
use cs.Raft.Persist.Durable.{GobLaws}
use cs.Raft.Append.{append_entries}
use cs.Raft.Append.Laws.{append_entries-conflict_le}
use cs.Raft.Replicate.{Prepared, Answered, prepare, answered}
use cs.Raft.Server.{append_received, append_answered, replicate as replicate_event, step}
use cs.Raft.Cluster.Roles.{step-KeepsRole}
use cs.Raft.Cluster.Keeps.{IsFair}
use cs.Raft.Cluster.Moves.{KeepsVote-step, acts-IsFair}
use cs.Raft.Replicas.{Message, Replicas, Answer, answer_at, send_at, deliver_at}
use cs.Raft.Replicas.Logs.{IsChunk}
use cs.Raft.Replicas.Events.{prepare-IsChunk, prepare-keeps, prepared-step}
use cs.Raft.Replicas.Answers.{AnswerOk, AnswerOk-more, answered-Handled}
use cs.Raft.Replicas.Writes.{HasBooks, received-HasBooks}
use cs.Raft.Replicas.Moves.{quiet-HasBooks, KeepsRole-GoesOn}

module _ {C : Type 0} (g : Gob C) (laws : GobLaws g) (n : ℕ) where
  abbrev pub IsSound : Replicas C → Type 0
  IsSound r =
      IsFair g n r.cluster × HasBooks n r.cluster r.sent × Every (AnswerOk n r.sent) r.answers

  pub sends-IsSound :
      (w : World) (r : Replicas C) (i peer leader_term : ℕ) (rf : Raft C) (p : Prepared C)
      (args : AppendEntriesArgs C)
      → get_elem? r.cluster.servers i ≡ some rf
      → peer < rf.peers
      → prepare peer leader_term rf ≡ some p
      → p.args ≡ some args
      → IsSound r
      → IsSound (send_at i peer p args r)
  unfolding send_at
  sends-IsSound w r i peer leader_term rf p args found bound q f (fair, books, ok) =
      let c' = record r.cluster { servers = set r.cluster.servers i p.node } in
      let e = replicate_event peer leader_term in
      let s = prepared-step g w rf peer leader_term q in
      let fair' = acts-IsFair g laws n r.cluster fair w i e rf p.node found bound tt tt s in
      let (book, log_fair) =
        quiet-HasBooks g laws n r.sent r.cluster c' i rf p.node found refl (λ v t j h. h) fair'
          books w e s tt tt (step-KeepsRole g w rf e tt s) in
      let at_i =
        get_elem?-set_self r.cluster.servers i p.node (lt_of_get_elem? r.cluster.servers i found) in
      let (l, t, chunk) = prepare-IsChunk g w rf peer leader_term args q f in
      let (ks, kt, kl) = prepare-keeps g w rf peer leader_term q in
      let mine : rf.log ≡ book args.term =
        sym kl ∙ (log_fair.logs i p.node at_i).leads (ks ∙ l) ∙ ap book (kt ∙ sym t) in
      (
        fair',
        (
          book,
          record {
            logs = log_fair.logs;
            books = log_fair.books;
            crowned = log_fair.crowned;
            messages = (subst (λ log. IsChunk log args) mine chunk, log_fair.messages);
          },
        ),
        AnswerOk-more n r.sent (record { to = peer; args = args }) r.answers ok,
      )

  pub delivers-IsSound :
      (w : World) (r : Replicas C) (k : ℕ) (m : Message C) (rf : Raft C)
      → get_elem? r.sent k ≡ some m
      → get_elem? r.cluster.servers m.to ≡ some rf
      → IsSound r
      → IsSound (deliver_at m (append_entries g w m.args rf) r)
  unfolding deliver_at step
  delivers-IsSound w r k m rf sent found (fair, books, ok) =
      let res = append_entries g w m.args rf in
      let c' = record r.cluster { servers = set r.cluster.servers m.to res.node } in
      let e = append_received m.args in
      let fair' = acts-IsFair g laws n r.cluster fair w m.to e rf res.node found tt tt tt refl in
      let (le, _) = KeepsVote-step g laws w e rf res.node refl tt in
      let keeps = step-KeepsRole g w rf e tt refl in
      let peer : m.to < n =
        omega (arith, fair.size, lt_of_get_elem? r.cluster.servers m.to found) in
      (
        fair',
        received-HasBooks g n r.cluster c' r.sent m.to rf res.node found refl (λ v t j h. h) fair'
            (KeepsRole-GoesOn g laws n r.sent rf res.node le keeps) books.0 books.1 w m.args refl
            keeps (Every-get _ r.sent k books.1.messages sent),
        (
          record {
            peer = peer;
            conflict = append_entries-conflict_le g w m.args rf;
            place = k;
            message = m;
            found = sent;
            same_args = refl;
          },
          ok,
        ),
      )

  -- What a leader sent in its term is part of its log.
  own_chunk :
      (r : Replicas C) (m : Answer C) (i : ℕ) (rf : Raft C)
      → get_elem? r.cluster.servers i ≡ some rf
      → HasBooks n r.cluster r.sent
      → AnswerOk n r.sent m
      → rf.state ≡ leader
      → rf.term ≡ m.args.term
      → IsChunk rf.log m.args
  own_chunk r m i rf found books ok l t =
      let chunk = Every-get _ r.sent ok.place books.1.messages ok.found in
      rw ((books.1.logs i rf found).leads l, t)
        (subst (λ args. IsChunk (books.0 args.term) args) ok.same_args chunk)

  pub answers-IsSound :
      (w : World) (r : Replicas C) (k : ℕ) (m : Answer C) (rf : Raft C) (a : Answered C)
      → get_elem? r.answers k ≡ some m
      → get_elem? r.cluster.servers m.args.leader_id ≡ some rf
      → answered g w m.from m.args.term m.args m.reply rf ≡ some a
      → IsSound r
      → IsSound (answer_at m a r)
  unfolding answer_at
  answers-IsSound w r k m rf a came found q (fair, books, ok) =
      let i = m.args.leader_id in
      let c' = record r.cluster { servers = set r.cluster.servers i a.node } in
      let mine = Every-get _ r.answers k ok came in
      let server = fair.servers i rf found in
      let done =
        answered-Handled g w m.from m.args.term m.args m.reply rf q
          (subst (λ p. m.from < p) (sym server.peers) mine.peer) server.valid.has_dummy
          mine.conflict (own_chunk r m i rf found books mine) in
      let e = append_answered m.from m.args.term done.args done.reply in
      let fair' =
        acts-IsFair g laws n r.cluster fair w i e rf a.node found done.fits tt tt done.ends in
      (
        fair',
        quiet-HasBooks g laws n r.sent r.cluster c' i rf a.node found refl (λ v t j h. h) fair'
            books w e done.ends tt tt (step-KeepsRole g w rf e tt done.ends),
        ok,
      )
