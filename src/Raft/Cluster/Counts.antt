-- ===== src/Raft/Cluster/Counts.antt =====
-- An answer that reaches its candidate, in a cluster of src/raft.
use cs.Prelude.{
  ℕ, suc, ◌+◌, ◌/◌, ◌≤◌, ◌<◌, ◌≡◌, refl, ap, ◌∙◌, subst, true, false, List, some, arith, length-set,
  get_elem?, set, inl, inr, Bool-cases,
}
use cs.Prelude.Every.{Every-get, Every-set}
use cs.Raft.Defs.{Raft, World, Gob, RequestVoteReply}
use cs.Raft.Persist.Durable.{GobLaws}
use cs.Raft.Election.{VoteCounted, count_vote}
use cs.Raft.Server.{vote_answered, step}
use cs.Raft.Cluster.{replied, over, Call, Vote, Cluster, add_if, vote_of, count_at}
use cs.Raft.Cluster.Roles.{count_vote-role}
use cs.Raft.Cluster.Tally.{
  has_vote, tally, tally-le, tally-lt, Includes, Includes-add_if, add_if-cases, is_open, open_calls,
  weight, weight-open, weight-over, open_calls-set,
}
use cs.Raft.Cluster.Keeps.{
  ServerOk, CallOk, Once, NoneYet, IsFair, AllServers-set, Recent-set, Kept-set,
}
use cs.Raft.Cluster.Moves.{ServerOk-step, KeepsVote-step}

module _ {C : Type 0} (g : Gob C) (laws : GobLaws g) (n : ℕ) (c : Cluster C) (fair : IsFair g n c)
    (w : World) (k : ℕ) (call : Call) (reply : RequestVoteReply) (rf : Raft C) (v : VoteCounted C)
    (at_k : get_elem? c.calls k ≡ some call) (came : call.state ≡ replied reply)
    (found : get_elem? c.servers call.sender ≡ some rf)
    (counted : count_vote g w rf.peers call.args.election_term reply rf ≡ some v)
    (prompt : reply.vote ≡ true → rf.term ≡ call.args.election_term) where
  abbrev more : List Vote
  more = add_if reply.vote (vote_of call) c.counted

  abbrev calls_after : List Call
  calls_after = set c.calls k (record call { state = over })

  counted_step : step g w (vote_answered call.args.election_term reply) rf ≡ some v.node
  unfolding step
  counted_step = rw counted refl

  one_open : weight call.to call.args.election_term call.sender call ≡ 1
  unfolding is_open
  one_open = weight-open call (rw came refl)

  fewer_open :
      (u t i : ℕ) → open_calls u t i calls_after + weight u t i call ≡ open_calls u t i c.calls
  fewer_open u t i = omega (
    arith,
    open_calls-set u t i c.calls k call (record call { state = over }) at_k,
    weight-over u t i call,
  )

  not_counted : has_vote call.to call.args.election_term call.sender c.counted ≡ false
  not_counted = ground (
    arith,
    fair.once call.to call.args.election_term call.sender,
    fewer_open call.to call.args.election_term call.sender,
    one_open,
  )

  -- With one more vote for the candidate in its term, one more is counted.
  tally_grows :
      reply.vote ≡ true
      → suc (tally c.counted rf.term call.sender n) ≤ tally more rf.term call.sender n
  unfolding add_if
  tally_grows vote =
      let (has, lt) =
        (Every-get (CallOk c.given n) c.calls k fair.calls at_k).granted reply came vote in
      rw (prompt vote, vote) (tally-lt (vote_of call) c.counted n lt not_counted)

  more_than : Includes more c.counted
  more_than = Includes-add_if reply.vote (vote_of call) c.counted

  sender_ok : ServerOk g more n call.sender v.node
  sender_ok =
      let ok = fair.servers call.sender rf found in
      let (me, peers, runs, leads) = count_vote-role g w rf call.args.election_term reply counted in
      let le = tally-le more c.counted rf.term call.sender n more_than in
      ServerOk-step g laws w (vote_answered call.args.election_term reply) c.counted more n
        call.sender rf v.node counted_step tt ok me peers
        (λ r.
          let (was, same, count) = runs r in
          let now = ap (λ t. tally more t call.sender n) same in
          let before = ok.runs was in
          elim count [
            | inl e ↦ omega arith
            | inr (vote, e) ↦ let grows = tally_grows vote in omega arith
          ])
        (λ l.
          let (same, how) = leads l in
          let now = ap (λ t. tally more t call.sender n) same in
          elim how [
            | inl was ↦ let before = ok.leads was in omega arith
            | inr (was, vote, majority) ↦
                let grows = tally_grows vote in
                let before = ok.runs was in
                let enough = subst (λ p. p / 2 < suc rf.vote_count) ok.peers majority in omega arith
          ])

  still-Once : Once calls_after more
  still-Once u t i = elim (Bool-cases (has_vote u t i more)) [
    | inr lacks ↦ ground (arith, lacks, fewer_open u t i, fair.once u t i)
    | inl holds ↦ elim (add_if-cases u t i reply.vote (vote_of call) c.counted holds) [
      | inl (vote, a, b, d) ↦
          let one : weight u t i call ≡ 1 = rw (← a, ← b, ← d) one_open in
          ground (arith, holds, one, fewer_open u t i, fair.once u t i)
      | inr old ↦ ground (arith, holds, old, fewer_open u t i, fair.once u t i)
    ]
  ]

  still_none : (u t i : ℕ) → NoneYet c.calls c.counted u t i → NoneYet calls_after more u t i
  still_none u t i (none, unseen) = (
    omega (arith, fewer_open u t i),
    elim (Bool-cases (has_vote u t i more)) [
      | inr lacks ↦ lacks
      | inl holds ↦ elim (add_if-cases u t i reply.vote (vote_of call) c.counted holds) [
        | inl (vote, a, b, d) ↦
            let one : weight u t i call ≡ 1 = rw (← a, ← b, ← d) one_open in
            absurd (omega (arith, fewer_open u t i))
        | inr old ↦ absurd (ground (arith, old, unseen))
      ]
    ],
  )

  still_sound : Includes c.given more
  still_sound u t i h = elim (add_if-cases u t i reply.vote (vote_of call) c.counted h) [
    | inl (vote, a, b, d) ↦
        let (has, _) =
          (Every-get (CallOk c.given n) c.calls k fair.calls at_k).granted reply came vote in
        rw (← a, ← b, ← d) has
    | inr old ↦ fair.sound u t i old
  ]

  pub counts-IsFair : IsFair g n (count_at k call reply v c)
  unfolding count_at
  counts-IsFair =
      let later =
        KeepsVote-step g laws w (vote_answered call.args.election_term reply) rf v.node counted_step
          tt in
      record {
        size = length-set c.servers call.sender v.node ∙ fair.size;
        servers =
            AllServers-set c.servers call.sender rf v.node found g more c.counted n more_than
              sender_ok fair.servers;
        calls =
            Every-set _ c.calls k (record call { state = over })
              (record {
                own = (Every-get (CallOk c.given n) c.calls k fair.calls at_k).own;
                granted = λ reply e vote. cc;
              })
              fair.calls;
        once = still-Once;
        recent = λ i s e u t lt. still_none u t i (
            Recent-set c.servers call.sender rf v.node found c.calls c.counted later.0 fair.recent i
              s e u t lt);
        sound = still_sound;
        kept = Kept-set c.servers call.sender rf v.node found c.given later fair.kept;
        unique = fair.unique;
      }
