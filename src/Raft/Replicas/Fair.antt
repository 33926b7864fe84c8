-- ===== src/Raft/Replicas/Fair.antt =====
-- The invariant of the logs of a cluster of src/raft/raft.go, with the messages of AppendEntries, and
-- what a new state of one server changes of it.
use cs.Prelude.{
  take-all, ℕ, ◌/◌, ◌≤◌, ◌<◌, ◌≡◌, ◌≢◌, ◌⊎◌, sym, ap, ◌∙◌, subst, List, some, some-eq, arith,
  length, get_elem?, get_elem?-set, get_elem?-set_self, lt_of_get_elem?, set, ◌==◌, inl, inr,
  Bool-cases,
}
use cs.Prelude.Every.{Every, Every-mono}
use cs.Raft.Defs.{LogEntry, Raft, leader, candidate, Gob}
use cs.Raft.Persist.{dummy_log}
use cs.Raft.Cluster.{Vote, Cluster}
use cs.Raft.Cluster.Tally.{tally, tally-le, Includes, majority_unique}
use cs.Raft.Cluster.Keeps.{IsFair}
use cs.Raft.Replicas.{Message}
use cs.Raft.Replicas.Logs.{Rooted, Rooted-Extends, Extends, HasDummy, IsChunk, IsChunk-Extends}

module _ {C : Type 0} where
  -- The log has the dummy entry and agrees with the books; a leader's is the book of its term.
  pub record LogOk (book : ℕ → List (LogEntry C)) (rf : Raft C) : Type 0 where
    pub dummy : HasDummy rf.log
    pub rooted : Rooted book rf.log
    pub leads : rf.state ≡ leader → rf.log ≡ book rf.term

  -- Server i had a majority in the term, and will not have it again.
  pub record Crowned (servers : List (Raft C)) (counted : List Vote) (n t : ℕ) : Type 0 where
    pub winner : ℕ
    pub node : Raft C
    pub found : get_elem? servers winner ≡ some node
    pub majority : n / 2 < tally counted t winner n
    pub reached : t ≤ node.term
    pub past : node.state ≡ candidate → t < node.term

  -- A term that nobody has led has the empty book.
  pub record LogFair (book : ℕ → List (LogEntry C)) (n : ℕ) (servers : List (Raft C))
      (counted : List Vote) (sent : List (Message C)) : Type 0 where
    pub logs : (i : ℕ) (rf : Raft C) → get_elem? servers i ≡ some rf → LogOk book rf
    pub books : (t : ℕ) → HasDummy (book t) × Rooted book (book t)
    pub crowned : (t : ℕ) → (book t ≡ dummy_log) ⊎ Crowned servers counted n t
    pub messages : Every (λ m. IsChunk (book m.args.term) m.args) sent

  -- The server stays past the terms that it led.
  abbrev pub GoesOn : Raft C → Raft C → Type 0
  GoesOn rf rf' =
      (rf.term ≤ rf'.term) × (rf'.state ≡ candidate → (rf.state ≡ candidate) ⊎ (rf.term < rf'.term))

  -- The books are the same, but for the one of a leader.
  abbrev pub Writes : (ℕ → List (LogEntry C)) → (ℕ → List (LogEntry C)) → Raft C → ℕ → Type 0
  Writes book' book rf' t =
      (book' t ≡ book t) ⊎ ((t ≡ rf'.term) × (rf'.state ≡ leader) × (book' t ≡ rf'.log))

  pub Extends-refl : (book : ℕ → List (LogEntry C)) → Extends book book
  Extends-refl book t = take-all (length (book t)) (book t) (omega arith)

  LogOk-Writes :
      (book' book : ℕ → List (LogEntry C)) (rf' s : Raft C)
      → Extends book' book
      → ((t : ℕ) → Writes book' book rf' t)
      → ¬ ((s.state ≡ leader) × (rf'.state ≡ leader) × (s.term ≡ rf'.term))
      → LogOk book s
      → LogOk book' s
  LogOk-Writes book' book rf' s grows writes apart ok = record {
    dummy = ok.dummy;
    rooted = Rooted-Extends book' book s.log grows ok.rooted;
    leads = λ l. elim (writes s.term) [
      | inl same ↦ ok.leads l ∙ sym same
      | inr (t, l', e) ↦ absurd (apart (l, l', t))
    ];
  }

  pub one_leader :
      (g : Gob C) (n : ℕ) (c : Cluster C)
      → IsFair g n c
      → (t i j : ℕ) → n / 2 < tally c.counted t i n
      → n / 2 < tally c.counted t j n
      → i ≡ j
  one_leader g n c fair t i j a b =
      majority_unique c.counted t i j n
        (λ v h k. fair.unique v t i j (fair.sound v t i h) (fair.sound v t j k)) a b

  -- The servers other than i after i changed.
  set-others :
      (servers : List (Raft C)) (i : ℕ) (rf rf' : Raft C)
      → get_elem? servers i ≡ some rf
      → (j : ℕ) (s : Raft C) → get_elem? (set servers i rf') j ≡ some s
      → ((i ≡ j) × (rf' ≡ s)) ⊎ ((i ≢ j) × (get_elem? servers j ≡ some s))
  set-others servers i rf rf' e j s f = elim (Bool-cases (i == j)) [
    | inl same ↦
        let p : some rf' ≡ some s = ground (arith, get_elem?-set servers i j rf' e, same, f) in
        inl (ground arith, some-eq p)
    | inr other ↦
        inr (λ q. ground (arith, q), ground (arith, get_elem?-set servers i j rf' e, other, f))
  ]

  set-winner :
      (servers : List (Raft C)) (counted more : List Vote) (n t i : ℕ) (rf rf' : Raft C)
      → get_elem? servers i ≡ some rf
      → Includes more counted
      → GoesOn rf rf'
      → Crowned servers counted n t
      → Crowned (set servers i rf') more n t
  set-winner servers counted more n t i rf rf' e h on crown =
      let le = tally-le more counted t crown.winner n h in
      let wins = crown.majority in
      elim (Bool-cases (i == crown.winner)) [
        | inl same ↦
            let w : i ≡ crown.winner = ground arith in
            let was : rf ≡ crown.node = some-eq (sym e ∙ ap (get_elem? servers) w ∙ crown.found) in
            let reached = subst (λ (s : Raft C). t ≤ s.term) (sym was) crown.reached in
            let past : rf.state ≡ candidate → t < rf.term =
              subst (λ (s : Raft C). s.state ≡ candidate → t < s.term) (sym was) crown.past in
            record {
              winner = crown.winner;
              node = rf';
              found = ground (arith, get_elem?-set servers i crown.winner rf' e, same);
              majority = omega arith;
              reached = omega (arith, on.0);
              past = λ c. elim (on.1 c) [
                | inl before ↦ let lt = past before in omega (arith, on.0)
                | inr newer ↦ omega arith
              ];
            }
        | inr other ↦ record {
          winner = crown.winner;
          node = crown.node;
          found = ground (arith, get_elem?-set servers i crown.winner rf' e, other, crown.found);
          majority = omega arith;
          reached = crown.reached;
          past = crown.past;
        }
      ]

  module _ (book' book : ℕ → List (LogEntry C)) (g : Gob C) (n : ℕ) (c' : Cluster C)
      (servers : List (Raft C)) (counted : List Vote) (sent : List (Message C)) (i : ℕ)
      (rf rf' : Raft C) (found : get_elem? servers i ≡ some rf)
      (now : c'.servers ≡ set servers i rf') (more : Includes c'.counted counted)
      (fair' : IsFair g n c') (log_fair : LogFair book n servers counted sent) (on : GoesOn rf rf')
      (grows : Extends book' book) (writes : (t : ℕ) → Writes book' book rf' t)
      (ok : LogOk book' rf') where
    at_i : get_elem? c'.servers i ≡ some rf'
    at_i =
        ap (λ l. get_elem? l i) now
        ∙ get_elem?-set_self servers i rf' (lt_of_get_elem? servers i found)

    logs_after : (j : ℕ) (s : Raft C) → get_elem? c'.servers j ≡ some s → LogOk book' s
    logs_after j s at_j =
        elim (set-others servers i rf rf' found j s
          (subst (λ l. get_elem? l j ≡ some s) now at_j)) [
            | inl (same, e) ↦ subst (LogOk book') e ok
            | inr (other, old) ↦
                LogOk-Writes book' book rf' s grows writes
                  (λ (l, l', t). other (
                    one_leader g n c' fair' s.term i j
                      (subst (λ u. n / 2 < tally c'.counted u i n) (sym t)
                        ((fair'.servers i rf' at_i).leads l'))
                      ((fair'.servers j s at_j).leads l)))
                  (log_fair.logs j s old)
          ]

    Crowned-after : (t : ℕ) → (book' t ≡ dummy_log) ⊎ Crowned c'.servers c'.counted n t
    Crowned-after t = elim (writes t) [
      | inr (term, l, e) ↦ inr (record {
        winner = i;
        node = rf';
        found = at_i;
        majority =
            subst (λ u. n / 2 < tally c'.counted u i n) (sym term)
              ((fair'.servers i rf' at_i).leads l);
        reached = omega (arith, term);
        past = λ k. absurd (ground (arith, l, k));
      })
      | inl same ↦ elim (log_fair.crowned t) [
        | inl none ↦ inl (same ∙ none)
        | inr crown ↦ inr (
            subst (λ l. Crowned l c'.counted n t) (sym now)
              (set-winner servers counted c'.counted n t i rf rf' found more on crown))
      ]
    ]

    pub LogFair-set : LogFair book' n c'.servers c'.counted sent
    LogFair-set = record {
      logs = logs_after;
      books = λ t. elim (writes t) [
        | inl same ↦
            let (d, r) = log_fair.books t in
            (
              subst HasDummy (sym same) d,
              subst (Rooted book') (sym same) (Rooted-Extends book' book (book t) grows r),
            )
        | inr (term, l, e) ↦
            (subst HasDummy (sym e) ok.dummy, subst (Rooted book') (sym e) ok.rooted)
      ];
      crowned = Crowned-after;
      messages =
          Every-mono _ _ sent
            (λ m chunk.
              IsChunk-Extends (book m.args.term) (book' m.args.term) m.args (grows m.args.term)
                chunk)
            log_fair.messages;
    }
