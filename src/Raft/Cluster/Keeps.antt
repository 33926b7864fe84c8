-- ===== src/Raft/Cluster/Keeps.antt =====
-- The invariant of a cluster of src/raft, and what a new state of one server changes of it.
use cs.Prelude.{
  ℕ, ◌+◌, ◌/◌, ◌≤◌, ◌<◌, ◌≡◌, sym, ap, ◌∙◌, subst, true, false, List, ◌∷◌, some, some-eq, pos,
  arith, length, get_elem?, get_elem?-set, set, ◌==◌, if◌then◌else◌, inl, inr, Bool-cases,
}
use cs.Prelude.Every.{Every}
use cs.Raft.Defs.{Raft, leader, candidate, Gob, RequestVoteReply}
use cs.Raft.Valid.{IsValid}
use cs.Raft.Persist.Durable.{IsDurable}
use cs.Raft.Server.Votes.{KeepsVote}
use cs.Raft.Cluster.{replied, Call, Vote, Cluster}
use cs.Raft.Cluster.Tally.{has_vote, has_vote-cases, tally, Includes, tally-le, open_calls}

-- A candidate has no more votes than were counted for it in its term, and a leader a majority.
pub record ServerOk {C : Type 0} (g : Gob C) (counted : List Vote) (n i : ℕ) (rf : Raft C)
    : Type 0 where
  pub me : rf.me ≡ i
  pub peers : rf.peers ≡ n
  pub valid : IsValid rf
  pub durable : IsDurable g rf
  pub runs : rf.state ≡ candidate → rf.vote_count ≤ tally counted rf.term i n
  pub leads : rf.state ≡ leader → n / 2 < tally counted rf.term i n

pub record CallOk (given : List Vote) (n : ℕ) (call : Call) : Type 0 where
  pub own : call.args.candidate_id ≡ call.sender
  pub granted :
      (reply : RequestVoteReply)
      → call.state ≡ replied reply
      → reply.vote ≡ true
      → (has_vote call.to call.args.election_term call.sender given ≡ true) × (call.to < n)

-- A vote of a server for a candidate in a term is on its way or counted, once.
abbrev pub Once : List Call → List Vote → Type 0
Once calls counted =
    (v t i : ℕ) → open_calls v t i calls + (if has_vote v t i counted then 1 else 0) ≤ 1

abbrev pub NoneYet : List Call → List Vote → (v t i : ℕ) → Type 0
NoneYet calls counted v t i = (open_calls v t i calls ≡ 0) × (has_vote v t i counted ≡ false)

abbrev pub Unique : List Vote → Type 0
Unique given = (v t i j : ℕ) → has_vote v t i given ≡ true → has_vote v t j given ≡ true → i ≡ j

pub CallOk-more :
    (more given : List Vote) (n : ℕ) (call : Call)
    → Includes more given
    → CallOk given n call
    → CallOk more n call
CallOk-more more given n call h ok = record {
  own = ok.own;
  granted = λ reply e v. let (has, lt) = ok.granted reply e v in (h _ _ _ has, lt);
}

module _ {C : Type 0} where
  abbrev pub AllServers : Gob C → List Vote → ℕ → List (Raft C) → Type 0
  AllServers g counted n servers =
      (i : ℕ) (rf : Raft C) → get_elem? servers i ≡ some rf → ServerOk g counted n i rf

  -- There is nothing of terms that the candidate has not come to.
  abbrev pub Recent : List (Raft C) → List Call → List Vote → Type 0
  Recent servers calls counted =
      (i : ℕ) (rf : Raft C)
      → get_elem? servers i ≡ some rf
      → (v t : ℕ) → rf.term < t
      → NoneYet calls counted v t i

  -- A server stands by the votes that it gave.
  abbrev pub Kept : List (Raft C) → List Vote → Type 0
  Kept servers given =
      (v : ℕ) (rf : Raft C)
      → get_elem? servers v ≡ some rf
      → (t i : ℕ) → has_vote v t i given ≡ true
      → (t ≤ rf.term) × (t ≡ rf.term → rf.voted_for ≡ pos i)

  pub record IsFair (g : Gob C) (n : ℕ) (c : Cluster C) : Type 0 where
    pub size : length c.servers ≡ n
    pub servers : AllServers g c.counted n c.servers
    pub calls : Every (CallOk c.given n) c.calls
    pub once : Once c.calls c.counted
    pub recent : Recent c.servers c.calls c.counted
    pub sound : Includes c.given c.counted
    pub kept : Kept c.servers c.given
    pub unique : Unique c.given

  -- The servers of a list after one of them changed.
  pub set-cases :
      (Q : ℕ → Raft C → Type 0) (servers : List (Raft C)) (i : ℕ) (rf rf' : Raft C)
      → get_elem? servers i ≡ some rf
      → Q i rf'
      → ((j : ℕ) (s : Raft C) → get_elem? servers j ≡ some s → Q j s)
      → (j : ℕ) (s : Raft C) → get_elem? (set servers i rf') j ≡ some s
      → Q j s
  set-cases Q servers i rf rf' e q h j s f = elim (Bool-cases (i == j)) [
    | inl same ↦
        let p : some rf' ≡ some s = ground (arith, get_elem?-set servers i j rf' e, same, f) in
        let r : i ≡ j = ground arith in subst (λ k. Q k s) r (subst (Q i) (some-eq p) q)
    | inr other ↦ h j s (ground (arith, get_elem?-set servers i j rf' e, other, f))
  ]

  pub ServerOk-more :
      (g : Gob C) (more counted : List Vote) (n i : ℕ) (rf : Raft C)
      → Includes more counted
      → ServerOk g counted n i rf
      → ServerOk g more n i rf
  ServerOk-more g more counted n i rf h s =
      let le = tally-le more counted rf.term i n h in
      record {
        me = s.me;
        peers = s.peers;
        valid = s.valid;
        durable = s.durable;
        runs = λ r. let k = s.runs r in omega arith;
        leads = λ l. let k = s.leads l in omega arith;
      }

  module _ (servers : List (Raft C)) (i : ℕ) (rf rf' : Raft C)
      (found : get_elem? servers i ≡ some rf) where
    pub AllServers-set :
        (g : Gob C) (more counted : List Vote) (n : ℕ)
        → Includes more counted
        → ServerOk g more n i rf'
        → AllServers g counted n servers
        → AllServers g more n (set servers i rf')
    AllServers-set g more counted n h ok all =
        set-cases (ServerOk g more n) servers i rf rf' found ok
          (λ j s e. ServerOk-more g more counted n j s h (all j s e))

    pub Recent-set :
        (calls : List Call) (counted : List Vote)
        → rf.term ≤ rf'.term
        → Recent servers calls counted
        → Recent (set servers i rf') calls counted
    Recent-set calls counted le h =
        set-cases (λ j s. (v t : ℕ) → s.term < t → NoneYet calls counted v t j) servers i rf rf'
          found (λ v t lt. h i rf found v t (omega arith)) h

    pub Kept-set :
        (given : List Vote) → KeepsVote rf rf' → Kept servers given → Kept (set servers i rf') given
    Kept-set given keeps h =
        set-cases
          (λ j s.
            (t k : ℕ)
            → has_vote j t k given ≡ true
            → (t ≤ s.term) × (t ≡ s.term → s.voted_for ≡ pos k))
          servers i rf rf' found
          (λ t k voted.
            let (le, vote) = h i rf found t k voted in
            let grows = keeps.0 in
            (
              omega arith,
              λ now.
                  let same : rf.term ≡ rf'.term = omega arith in
                  let before = vote (omega arith) in keeps.1 same (ground arith) ∙ before,
            ))
          h

-- A new vote is the only one of its server and term.
pub Unique-cons :
    (x : Vote) (given : List Vote)
    → ((i : ℕ) → has_vote x.voter x.term i given ≡ true → i ≡ x.candidate)
    → Unique given
    → Unique (x ∷ given)
Unique-cons x given new h v t i j a b = elim (has_vote-cases v t i x given a) [
  | inl (p, q, r) ↦ elim (has_vote-cases v t j x given b) [
    | inl (p', q', r') ↦ sym r ∙ r'
    | inr old ↦ sym r ∙ sym (new j (rw (p, q) old))
  ]
  | inr old ↦ elim (has_vote-cases v t j x given b) [
    | inl (p', q', r') ↦ new i (rw (p', q') old) ∙ r'
    | inr old' ↦ h v t i j old old'
  ]
]

-- The server stands by its new vote.
pub Kept-cons :
    {C : Type 0} (servers : List (Raft C)) (x : Vote) (given : List Vote)
    → ((rf : Raft C)
        → get_elem? servers x.voter ≡ some rf
        → (rf.term ≡ x.term) × (rf.voted_for ≡ pos x.candidate))
    → Kept servers given
    → Kept servers (x ∷ given)
Kept-cons servers x given new h v rf e t i voted = elim (has_vote-cases v t i x given voted) [
  | inl (p, q, r) ↦
      let (term, vote) = new rf (ap (get_elem? servers) p ∙ e) in
      (omega arith, λ now. vote ∙ ap (λ (k : ℕ). pos k) r)
  | inr old ↦ h v rf e t i old
]
