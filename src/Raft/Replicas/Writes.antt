-- ===== src/Raft/Replicas/Writes.antt =====
-- What a server of src/raft/raft.go that gets an office, a command or a message of AppendEntries does to
-- the books of the terms.
use cs.Prelude.{
  take-all, ℕ, ◌≤◌, ◌<◌, ◌≡◌, ◌≢◌, ◌⊎◌, refl, sym, ap, ◌∙◌, subst, List, [], ◌∷◌, ◌++◌, some,
  some-eq, arith, length, length-take, get_elem?, get_elem?-take, get_elem?-set_self,
  get_elem?-append_left, lt_of_get_elem?, set, take, inl, inr,
}
use cs.Raft.Defs.{LogEntry, Raft, State, leader, candidate, follower, World, Gob, AppendEntriesArgs}
use cs.Raft.Persist.{dummy_log}
use cs.Raft.Append.{append_entries}
use cs.Raft.Cluster.{Cluster}
use cs.Raft.Cluster.Roles.{KeepsRole}
use cs.Raft.Cluster.Tally.{tally-le, Includes}
use cs.Raft.Cluster.Keeps.{IsFair}
use cs.Raft.Replicas.{Message}
use cs.Raft.Replicas.Logs.{
  IsPrefix, take-append, Rooted, Rooted-take, Rooted-snoc, Rooted-Extends, HasDummy, IsChunk,
  sync_locked-sent,
}
use cs.Raft.Replicas.Books.{write, write-same, write-Extends, write-Writes, HasDummy-IsPrefix}
use cs.Raft.Replicas.Events.{append_entries-log, append_entries-leader}
use cs.Raft.Replicas.Fair.{LogOk, LogFair, GoesOn, Extends-refl, LogFair-set, one_leader}

leader_cases : (s : State) → (s ≡ leader) ⊎ (s ≢ leader)
leader_cases leader = inl refl
leader_cases candidate = inr (λ e. cc)
leader_cases follower = inr (λ e. cc)

module _ {C : Type 0} where
  -- A server that leads led before, or has won an election since.
  abbrev pub Rises : Raft C → Raft C → Type 0
  Rises rf rf' =
      rf'.state ≡ leader
      → ((rf'.term ≡ rf.term) × ((rf.state ≡ leader) ⊎ (rf.state ≡ candidate)))
        ⊎ (rf.term < rf'.term)

  abbrev pub HasBooks : ℕ → Cluster C → List (Message C) → Type 0
  HasBooks n c sent = (book : ℕ → List (LogEntry C)) × LogFair book n c.servers c.counted sent

  -- A message whose check succeeds leaves the log, or makes it a part of a book.
  received-LogOk :
      (g : Gob C) (w : World) (book : ℕ → List (LogEntry C)) (rf : Raft C)
      (args : AppendEntriesArgs C)
      → LogOk book rf
      → HasDummy (book args.term)
      → Rooted book (book args.term)
      → IsChunk (book args.term) args
      → HasDummy (append_entries g w args rf).node.log
        × Rooted book (append_entries g w args rf).node.log
  received-LogOk g w book rf args ok d r chunk = elim (append_entries-log g w rf args) [
    | inl same ↦ rw same (ok.dummy, ok.rooted)
    | inr (new, le, t) ↦
        let part = take chunk.end (book args.term) in
        let filled = lt_of_get_elem? rf.log 0 ok.dummy in
        let order = chunk.in_order in
        let whole = chunk.in_log in
        let size = length-take chunk.end (book args.term) in
        let d' = get_elem?-take chunk.end (book args.term) 0 (omega arith) ∙ d in
        let r' = Rooted-take book chunk.end (book args.term) r in
        rw (new, chunk.entries)
          (elim (sync_locked-sent book rf.log part args.prev_log_index ok.rooted r' ok.dummy d'
            (omega arith) (omega arith) (t ∙ chunk.prev_term)) [
              | inl same ↦ rw same (ok.dummy, ok.rooted)
              | inr same ↦ rw same (d', r')
            ])
  ]

  module _ (g : Gob C) (n : ℕ) (c c' : Cluster C) (sent : List (Message C)) (i : ℕ)
      (rf rf' : Raft C) (found : get_elem? c.servers i ≡ some rf)
      (now : c'.servers ≡ set c.servers i rf') (more : Includes c'.counted c.counted)
      (fair' : IsFair g n c') (on : GoesOn rf rf') (book : ℕ → List (LogEntry C))
      (log_fair : LogFair book n c.servers c.counted sent) where
    ok : LogOk book rf
    ok = log_fair.logs i rf found

    -- The book stays.
    kept : LogOk book rf' → HasBooks n c' sent
    kept ok' = (
      book,
      LogFair-set book book g n c' c.servers c.counted sent i rf rf' found now more fair' log_fair
          on (Extends-refl book) (λ t. inl refl) ok',
    )

    -- The leader's log is the new book of its term.
    written :
        rf'.state ≡ leader
        → HasDummy rf'.log
        → IsPrefix (book rf'.term) rf'.log
        → Rooted (write book rf'.term rf'.log) rf'.log
        → HasBooks n c' sent
    written l d p r =
        let book' = write book rf'.term rf'.log in
        let mine = write-same book rf'.term rf'.log in
        (
          book',
          LogFair-set book' book g n c' c.servers c.counted sent i rf rf' found now more fair'
              log_fair on (write-Extends book rf'.term rf'.log p) (write-Writes book rf' l)
              (record { dummy = d; rooted = r; leads = λ l'. sym mine }),
        )

    unled :
        rf'.state ≡ leader
        → (rf.state ≡ candidate) ⊎ (rf.term < rf'.term)
        → rf.term ≤ rf'.term
        → book rf'.term ≡ dummy_log
    unled l new le = elim (log_fair.crowned rf'.term) [
      | inl none ↦ none
      | inr crown ↦
          let at_i =
            ap (λ l. get_elem? l i) now
            ∙ get_elem?-set_self c.servers i rf' (lt_of_get_elem? c.servers i found) in
          let grows = tally-le c'.counted c.counted rf'.term crown.winner n more in
          let majority = crown.majority in
          let same =
            one_leader g n c' fair' rf'.term crown.winner i (omega arith)
              ((fair'.servers i rf' at_i).leads l) in
          let was : crown.node ≡ rf =
            some-eq (sym crown.found ∙ ap (get_elem? c.servers) same ∙ found) in
          let reached = subst (λ (s : Raft C). rf'.term ≤ s.term) was crown.reached in
          let past : rf.state ≡ candidate → rf'.term < rf.term =
            subst (λ (s : Raft C). s.state ≡ candidate → rf'.term < s.term) was crown.past in
          elim new [
            | inl ran ↦ let lt = past ran in absurd (omega arith)
            | inr newer ↦ absurd (omega arith)
          ]
    ]

    -- The office is new.
    elected :
        rf'.log ≡ rf.log
        → rf'.state ≡ leader
        → (rf.state ≡ candidate) ⊎ (rf.term < rf'.term)
        → HasBooks n c' sent
    elected same l new =
        let prefix : IsPrefix (book rf'.term) rf'.log =
          rw (unled l new on.0, same) (HasDummy-IsPrefix rf.log ok.dummy) in
        written l (rw same ok.dummy) prefix (
          Rooted-Extends _ book rf'.log (write-Extends book rf'.term rf'.log prefix)
            (rw same ok.rooted))

    pub same_log-HasBooks : rf'.log ≡ rf.log → Rises rf rf' → HasBooks n c' sent
    same_log-HasBooks same rises = elim (leader_cases rf'.state) [
      | inr other ↦ kept (record {
        dummy = rw same ok.dummy;
        rooted = rw same ok.rooted;
        leads = λ l. absurd (other l);
      })
      | inl l ↦ elim (rises l) [
        | inr newer ↦ elected same l (inr newer)
        | inl (t, inr ran) ↦ elected same l (inl ran)
        | inl (t, inl led) ↦ kept (record {
          dummy = rw same ok.dummy;
          rooted = rw same ok.rooted;
          leads = λ _. rw (same, t) (ok.leads led);
        })
      ]
    ]

    pub commanded-HasBooks :
        (e : LogEntry C)
        → e.term ≡ rf.term
        → rf'.term ≡ rf.term
        → rf.state ≡ leader
        → rf'.state ≡ leader
        → rf'.log ≡ rf.log ++ e ∷ []
        → HasBooks n c' sent
    commanded-HasBooks e te t l l' new =
        let mine : book rf'.term ≡ rf.log = rw t (sym (ok.leads l)) in
        let prefix : IsPrefix (book rf'.term) rf'.log =
          rw (mine, new)
            (take-append (length rf.log) rf.log (e ∷ []) (omega arith)
              ∙ take-all (length rf.log) rf.log (omega arith)) in
        let book' = write book rf'.term rf'.log in
        let whole : book' e.term ≡ rf.log ++ e ∷ [] =
          ap book' (te ∙ sym t) ∙ write-same book rf'.term rf'.log ∙ new in
        written l'
          (rw new (
            get_elem?-append_left rf.log (e ∷ []) 0 (lt_of_get_elem? rf.log 0 ok.dummy) ∙ ok.dummy))
          prefix
          (subst (Rooted book') (sym new) (
            Rooted-snoc book' rf.log e
              (Rooted-Extends book' book rf.log (write-Extends book rf'.term rf'.log prefix)
                ok.rooted)
              whole))

    pub received-HasBooks :
        (w : World) (args : AppendEntriesArgs C)
        → rf' ≡ (append_entries g w args rf).node
        → KeepsRole rf rf'
        → IsChunk (book args.term) args
        → HasBooks n c' sent
    received-HasBooks w args e keeps chunk =
        let (d, r) = log_fair.books args.term in
        let (d', r') = received-LogOk g w book rf args ok d r chunk in
        kept (record {
          dummy = rw e d';
          rooted = rw e r';
          leads = λ l.
              let (led, t) = keeps.leads l in
              let same : rf'.log ≡ rf.log = rw e (
                append_entries-leader g w rf args (subst (λ (s : Raft C). s.state ≡ leader) e l)) in
              same ∙ ok.leads led ∙ ap book (sym t);
        })
