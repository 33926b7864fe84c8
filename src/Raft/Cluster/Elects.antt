-- ===== src/Raft/Cluster/Elects.antt =====
-- A server of a cluster of src/raft that starts an election.
use cs.Prelude.{
  ℕ, ◌/◌, ◌≤◌, ◌<◌, ◌≡◌, ◌⊎◌, refl, sym, ap, ◌∙◌, subst, true, not, ◌&&◌, List, [], ◌∷◌, ◌++◌, map,
  some, some-eq, pos, arith, length-set, get_elem?, get_elem?-set, get_elem?-set_self, set, ◌==◌,
  ltb, if◌then◌else◌, inl, inr, Bool-cases, Option-cases, >>=-eq-some, lt_of_get_elem?,
}
use cs.Prelude.Every.{Every, Every-append, Every-mono}
use cs.Raft.Defs.{Raft, World, Gob, RequestVoteArgs}
use cs.Raft.Persist.Durable.{GobLaws}
use cs.Raft.Log.{last_log_index_locked, last_log_term_locked}
use cs.Raft.Vote.{become_leader_locked}
use cs.Raft.Election.{VoteRequest, Election, start_election, vote_requests, candidacy}
use cs.Raft.Server.{elect, step}
use cs.Raft.Cluster.{Vote, Cluster, calls_of, elect_at}
use cs.Raft.Cluster.Roles.{start_election-role}
use cs.Raft.Cluster.Tally.{
  has_vote, is_vote, tally-lt, Includes-cons, has_vote-own, has_vote-cases, open_calls,
  open_calls-append, open_calls-requests,
}
use cs.Raft.Cluster.Keeps.{
  ServerOk, CallOk, CallOk-more, Once, Recent, IsFair, AllServers-set, Recent-set, Kept-set,
  Kept-cons, Unique-cons,
}
use cs.Raft.Cluster.Moves.{ServerOk-step, KeepsVote-step}

-- What StartElection asks of the others.
record IsRequests {C : Type 0} (rf : Raft C) (term : ℕ) (requests : List VoteRequest) : Type 0 where
  args : RequestVoteArgs
  own : args.candidate_id ≡ rf.me
  in_term : args.election_term ≡ term
  all : (requests ≡ []) ⊎ (requests ≡ vote_requests rf.peers args)

start_election-requests :
    {C : Type 0} (g : Gob C) (w : World) (rf : Raft C) {e : Election C}
    → start_election g w rf ≡ some e
    → IsRequests rf e.node.term e.requests
unfolding start_election candidacy
start_election-requests g w rf {e = e} q =
    let (last, found, rest) = >>=-eq-some (last_log_term_locked rf.log) _ q in
    let term = start_election-role g w rf q in
    record {
      args = record {
        election_term = (candidacy g w rf).term;
        candidate_id = rf.me;
        last_log_index = last_log_index_locked rf.log;
        last_log_term = last;
      };
      own = refl;
      in_term = ground (arith, term.0);
      all = elim (Bool-cases (ltb (rf.peers / 2) (candidacy g w rf).vote_count)) [
        | inl alone ↦ elim (Option-cases (become_leader_locked g (candidacy g w rf))) [
          | inl stuck ↦ absurd (ground (arith, rest, alone, stuck))
          | inr (l, led) ↦ inl (ground (arith, rest, alone, led))
        ]
        | inr others ↦ inr (ground (arith, rest, others))
      ];
    }

none_open : (v t j i bound : ℕ) → open_calls v t j (calls_of i []) ≤ bound
unfolding open_calls calls_of
none_open v t j i bound = omega arith

-- New calls wait for their voters.
CallOk-requests :
    (given : List Vote) (n i : ℕ) (args : RequestVoteArgs) (ps : List ℕ)
    → args.candidate_id ≡ i
    → Every (CallOk given n) (calls_of i (map (λ p. record { peer = p; args = args }) ps))
unfolding calls_of
CallOk-requests given n i args [] own = tt
CallOk-requests given n i args (p ∷ ps) own =
    (record { own = own; granted = λ reply e v. cc }, CallOk-requests given n i args ps own)

module _ {C : Type 0} (g : Gob C) (laws : GobLaws g) (n : ℕ) (c : Cluster C) (fair : IsFair g n c)
    (w : World) (i : ℕ) (rf : Raft C) (e : Election C) (found : get_elem? c.servers i ≡ some rf)
    (started : start_election g w rf ≡ some e) where
  abbrev own_vote : Vote
  own_vote = record { voter = i; term = e.node.term; candidate = i }

  elect_step : step g w elect rf ≡ some e.node
  unfolding step
  elect_step = rw started refl

  is_me : rf.me ≡ i
  is_me = (fair.servers i rf found).me

  newer : rf.term < e.node.term
  newer = let role = start_election-role g w rf started in omega (arith, role.0)

  -- The calls of the election are the only ones of the term.
  few_open :
      (v t j : ℕ)
      → open_calls v t j (calls_of i e.requests)
        ≤ (if (e.node.term == t) && (i == j) && not (v == j) then 1 else 0)
  few_open v t j =
      let r = start_election-requests g w rf started in
      elim r.all [
        | inl alone ↦ rw alone (none_open v t j i _)
        | inr others ↦
            let mine =
              subst
                (λ a.
                  open_calls v t j (calls_of a (vote_requests rf.peers r.args))
                  ≤ (if (r.args.election_term == t) && (a == j) && not (v == j) then 1 else 0))
                (r.own ∙ is_me) (open_calls-requests v t j r.args rf.peers) in
            rw others (
              subst
                (λ term.
                  open_calls v t j (calls_of i (vote_requests rf.peers r.args))
                  ≤ (if (term == t) && (i == j) && not (v == j) then 1 else 0))
                r.in_term mine)
      ]

  valid_calls : Every (CallOk (own_vote ∷ c.given) n) (calls_of i e.requests)
  unfolding calls_of vote_requests
  valid_calls =
      let r = start_election-requests g w rf started in
      elim r.all [
        | inl alone ↦ rw alone tt
        | inr others ↦ rw others (CallOk-requests _ n i r.args _ (r.own ∙ is_me))
      ]

  still-Once : Once (c.calls ++ calls_of i e.requests) (own_vote ∷ c.counted)
  unfolding has_vote is_vote
  still-Once v t j = ground (
    arith,
    fair.once v t j,
    open_calls-append v t j c.calls (calls_of i e.requests),
    few_open v t j,
    fair.recent i rf found v e.node.term newer,
  )

  still-Recent :
      Recent (set c.servers i e.node) (c.calls ++ calls_of i e.requests) (own_vote ∷ c.counted)
  unfolding has_vote is_vote
  still-Recent j s at_j v t lt =
      let old =
        Recent-set c.servers i rf e.node found c.calls c.counted (omega (arith, newer)) fair.recent
          j s at_j v t lt in
      let now : (i == j) ≡ true → s.term ≡ e.node.term = λ same.
        ap (λ (s : Raft C). s.term)
          (sym (
            some-eq (
              let p : some e.node ≡ some s =
                ground (arith, same, at_j, get_elem?-set c.servers i j e.node found) in
              p))) in
      ground
        (arith, old, now, open_calls-append v t j c.calls (calls_of i e.requests), few_open v t j)

  first_vote : (j : ℕ) → has_vote i e.node.term j c.given ≡ true → j ≡ i
  first_vote j voted =
      let (le, _) = fair.kept i rf found e.node.term j voted in absurd (omega (arith, newer))

  stands_by :
      (s : Raft C)
      → get_elem? (set c.servers i e.node) i ≡ some s
      → (s.term ≡ e.node.term) × (s.voted_for ≡ pos i)
  stands_by s at_i =
      let role = start_election-role g w rf started in
      let q : some e.node ≡ some s =
        sym (get_elem?-set_self c.servers i e.node (lt_of_get_elem? c.servers i found)) ∙ at_i in
      (
        ap (λ (s : Raft C). s.term) (sym (some-eq q)),
        ap (λ (s : Raft C). s.voted_for) (sym (some-eq q)) ∙ role.3 ∙ ap (λ (k : ℕ). pos k) is_me,
      )

  candidate_ok : ServerOk g (own_vote ∷ c.counted) n i e.node
  candidate_ok =
      let ok = fair.servers i rf found in
      let (term, me, peers, vote, one, alone) = start_election-role g w rf started in
      let none = fair.recent i rf found i e.node.term newer in
      let lt = subst (λ m. i < m) fair.size (lt_of_get_elem? c.servers i found) in
      let counted = tally-lt own_vote c.counted n lt none.1 in
      ServerOk-step g laws w elect c.counted (own_vote ∷ c.counted) n i rf e.node elect_step tt ok
        me peers (λ r. omega arith)
        (λ l. let majority = subst (λ p. p / 2 < 1) ok.peers (alone l) in omega arith)

  pub elects-IsFair : IsFair g n (elect_at i e c)
  unfolding elect_at
  elects-IsFair =
      let later = KeepsVote-step g laws w elect rf e.node elect_step tt in
      record {
        size = length-set c.servers i e.node ∙ fair.size;
        servers =
            AllServers-set c.servers i rf e.node found g (own_vote ∷ c.counted) c.counted n
              (Includes-cons own_vote c.counted) candidate_ok fair.servers;
        calls =
            Every-append _ c.calls (calls_of i e.requests)
              (Every-mono _ _ c.calls
                (λ x ok.
                  CallOk-more (own_vote ∷ c.given) c.given n x (Includes-cons own_vote c.given) ok)
                fair.calls)
              valid_calls;
        once = still-Once;
        recent = still-Recent;
        sound = λ v t j h. elim (has_vote-cases v t j own_vote c.counted h) [
          | inl (a, b, d) ↦ rw (← a, ← b, ← d) (has_vote-own own_vote c.given)
          | inr old ↦ Includes-cons own_vote c.given v t j (fair.sound v t j old)
        ];
        kept =
            Kept-cons _ own_vote c.given stands_by
              (Kept-set c.servers i rf e.node found c.given later fair.kept);
        unique = Unique-cons own_vote c.given first_vote fair.unique;
      }
