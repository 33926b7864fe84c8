-- ===== src/Raft/Cluster/Asks.antt =====
-- A vote request that reaches its voter, in a cluster of src/raft.
use cs.Prelude.{
  ℕ, ◌<◌, ◌≡◌, refl, sym, ap, ◌∙◌, subst, true, false, Bool, List, some, some-eq, pos, arith,
  length-set, get_elem?, get_elem?-set_self, set, inl, inr, lt_of_get_elem?,
}
use cs.Prelude.Every.{Every-get, Every-set, Every-mono}
use cs.Raft.Defs.{Raft, World, Gob, RequestVoteReply}
use cs.Raft.Persist.Durable.{GobLaws}
use cs.Raft.Vote.{VoteResult, request_vote}
use cs.Raft.Server.{vote_asked, step}
use cs.Raft.Cluster.{waiting, replied, Call, Vote, Cluster, add_if, vote_of, ask_at}
use cs.Raft.Cluster.Roles.{request_vote-KeepsRole, request_vote-gives}
use cs.Raft.Cluster.Tally.{
  has_vote, has_vote-own, Includes-add_if, open_calls, weight, open_calls-set,
}
use cs.Raft.Cluster.Keeps.{
  CallOk, CallOk-more, Kept, Unique, IsFair, AllServers-set, Recent-set, Kept-set, Kept-cons,
  Unique-cons,
}
use cs.Raft.Cluster.Moves.{ServerOk-KeepsRole, KeepsVote-step}

Unique-add_if :
    (b : Bool) (x : Vote) (given : List Vote)
    → (b ≡ true → (i : ℕ) → has_vote x.voter x.term i given ≡ true → i ≡ x.candidate)
    → Unique given
    → Unique (add_if b x given)
unfolding add_if
Unique-add_if true x given new h v t i j = Unique-cons x given (new refl) h v t i j
Unique-add_if false x given new h v t i j = h v t i j

Kept-add_if :
    {C : Type 0} (servers : List (Raft C)) (b : Bool) (x : Vote) (given : List Vote)
    → (b ≡ true
        → (rf : Raft C) → get_elem? servers x.voter ≡ some rf
        → (rf.term ≡ x.term) × (rf.voted_for ≡ pos x.candidate))
    → Kept servers given
    → Kept servers (add_if b x given)
unfolding add_if
Kept-add_if servers true x given new h v rf e t i =
    Kept-cons servers x given (new refl) h v rf e t i
Kept-add_if servers false x given new h v rf e t i = h v rf e t i

has_vote-add_if :
    (b : Bool) (x : Vote) (given : List Vote)
    → b ≡ true
    → has_vote x.voter x.term x.candidate (add_if b x given) ≡ true
unfolding add_if
has_vote-add_if true x given e = has_vote-own x given
has_vote-add_if false x given e = ground arith

replied-same : {a b : RequestVoteReply} → replied a ≡ replied b → a ≡ b
replied-same e = cc

-- A call that waits and one whose answer is on its way are both open.
weight-replied :
    (v t i : ℕ) (call : Call) (reply : RequestVoteReply)
    → call.state ≡ waiting
    → weight v t i (record call { state = replied reply }) ≡ weight v t i call
unfolding weight
weight-replied v t i call reply e = ground arith

module _ {C : Type 0} (g : Gob C) (laws : GobLaws g) (n : ℕ) (c : Cluster C) (fair : IsFair g n c)
    (w : World) (k : ℕ) (call : Call) (rf : Raft C) (r : VoteResult C)
    (at_k : get_elem? c.calls k ≡ some call) (waits : call.state ≡ waiting)
    (found : get_elem? c.servers call.to ≡ some rf)
    (asked : request_vote g w call.args rf ≡ some r) where
  same_open :
      (v t i : ℕ)
      → open_calls v t i (set c.calls k (record call { state = replied r.reply }))
        ≡ open_calls v t i c.calls
  same_open v t i = omega (
    arith,
    open_calls-set v t i c.calls k call (record call { state = replied r.reply }) at_k,
    weight-replied v t i call r.reply waits,
  )

  asked_step : step g w (vote_asked call.args) rf ≡ some r.node
  unfolding step
  asked_step = rw asked refl

  own_call : call.args.candidate_id ≡ call.sender
  own_call = (Every-get (CallOk c.given n) c.calls k fair.calls at_k).own

  -- The voter has not voted for another candidate in the term.
  no_other :
      r.reply.vote ≡ true
      → (i : ℕ) → has_vote call.to call.args.election_term i c.given ≡ true
      → i ≡ call.sender
  no_other v i voted =
      let (to, now, le, free) = request_vote-gives g w rf call.args asked v in
      let (older, stands) = fair.kept call.to rf found call.args.election_term i voted in
      let same : rf.term ≡ call.args.election_term = omega arith in
      let vote = stands (sym same) in
      elim (free same) [ inl none ↦ absurd (ground arith) | inr that ↦ ground (arith, own_call) ]

  stands_by :
      r.reply.vote ≡ true
      → (s : Raft C) → get_elem? (set c.servers call.to r.node) call.to ≡ some s
      → (s.term ≡ call.args.election_term) × (s.voted_for ≡ pos call.sender)
  stands_by v s e =
      let (to, now, le, free) = request_vote-gives g w rf call.args asked v in
      let q : some r.node ≡ some s =
        sym (get_elem?-set_self c.servers call.to r.node (lt_of_get_elem? c.servers call.to found))
        ∙ e in
      (
        ap (λ (s : Raft C). s.term) (sym (some-eq q)) ∙ now,
        ap (λ (s : Raft C). s.voted_for) (sym (some-eq q)) ∙ to ∙ ap (λ (k : ℕ). pos k) own_call,
      )

  pub asks-IsFair : IsFair g n (ask_at k call r c)
  unfolding ask_at
  asks-IsFair =
      let later = KeepsVote-step g laws w (vote_asked call.args) rf r.node asked_step tt in
      let more = Includes-add_if r.reply.vote (vote_of call) c.given in
      record {
        size = length-set c.servers call.to r.node ∙ fair.size;
        servers =
            AllServers-set c.servers call.to rf r.node found g c.counted c.counted n (λ v t j h. h)
              (ServerOk-KeepsRole g laws w (vote_asked call.args) c.counted n call.to rf r.node
                asked_step tt (request_vote-KeepsRole g w rf call.args asked)
                (fair.servers call.to rf found))
              fair.servers;
        calls =
            Every-set _ c.calls k (record call { state = replied r.reply })
              (record {
                own = own_call;
                granted = λ reply e v. (
                  has_vote-add_if r.reply.vote (vote_of call) c.given
                      (ap (λ (a : RequestVoteReply). a.vote) (replied-same e) ∙ v),
                  subst (λ m. call.to < m) fair.size (lt_of_get_elem? c.servers call.to found),
                );
              })
              (Every-mono _ _ c.calls (λ x ok. CallOk-more _ c.given n x more ok) fair.calls);
        once = λ v t i. omega (arith, same_open v t i, fair.once v t i);
        recent = λ i s e v t lt.
            let (none, not_counted) =
              Recent-set c.servers call.to rf r.node found c.calls c.counted later.0 fair.recent i s
                e v t lt in
            (same_open v t i ∙ none, not_counted);
        sound = λ v t i h. more v t i (fair.sound v t i h);
        kept =
            Kept-add_if _ r.reply.vote (vote_of call) c.given stands_by
              (Kept-set c.servers call.to rf r.node found c.given later fair.kept);
        unique = Unique-add_if r.reply.vote (vote_of call) c.given no_other fair.unique;
      }
