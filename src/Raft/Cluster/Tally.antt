-- ===== src/Raft/Cluster/Tally.antt =====
-- Votes counted: majorities overlap, and each goroutine's answer is counted once.
use cs.Prelude.{
  ℕ, zero, suc, ◌+◌, ◌/◌, ◌≤◌, ◌<◌, ◌≡◌, ◌⊎◌, refl, ap, Bool, true, false, ◌&&◌, ◌||◌, List, [],
  ◌∷◌, ◌++◌, map, some, some-eq, not, leb, arith, get_elem?, set, ◌==◌, if◌then◌else◌, inl, inr,
  Bool-cases,
}
use cs.Raft.Defs.{RequestVoteArgs}
use cs.Raft.Vote.{others_from, others}
use cs.Raft.Election.{vote_requests}
use cs.Raft.Commit.Majority.{count_from}
use cs.Raft.Cluster.{
  CallState, waiting, replied, over, Call, Vote, add_if, vote_of, calls_of, end_calls,
}

module _ (p q : ℕ → Bool) where
  pub count_from-le :
      (rounds i : ℕ)
      → ((v : ℕ) → p v ≡ true → q v ≡ true)
      → count_from p rounds i ≤ count_from q rounds i
  unfolding count_from
  count_from-le zero i h = omega arith
  count_from-le (suc rounds) i h = ground (arith, h i, count_from-le rounds (i + 1) h)

  -- One more.
  pub count_from-lt :
      (rounds i v : ℕ)
      → ((v : ℕ) → p v ≡ true → q v ≡ true)
      → i ≤ v
      → v < i + rounds
      → p v ≡ false
      → q v ≡ true
      → suc (count_from p rounds i) ≤ count_from q rounds i
  unfolding count_from
  count_from-lt zero i v h a b c d = absurd (omega arith)
  count_from-lt (suc rounds) i v h a b c d = elim (Bool-cases (i == v)) [
    | inl e ↦
        let same : i ≡ v = ground arith in
        ground (arith, h i, count_from-le rounds (i + 1) h, ap p same, ap q same)
    | inr e ↦ ground (arith, h i, count_from-lt rounds (i + 1) v h)
  ]

  -- Two sets without a common element.
  pub count_from-disjoint :
      (rounds i : ℕ)
      → ((v : ℕ) → p v ≡ true → q v ≡ false)
      → count_from p rounds i + count_from q rounds i ≤ rounds
  unfolding count_from
  count_from-disjoint zero i h = omega arith
  count_from-disjoint (suc rounds) i h = ground (arith, h i, count_from-disjoint rounds (i + 1) h)

-- Voter, term and candidate.
unfoldable pub is_vote : (v t i : ℕ) → Vote → Bool
is_vote v t i x = (x.voter == v) && (x.term == t) && (x.candidate == i)

unfoldable pub has_vote : (v t i : ℕ) → List Vote → Bool
unfolding is_vote
has_vote v t i [] = false
has_vote v t i (x ∷ xs) = is_vote v t i x || has_vote v t i xs

-- How many of n servers voted for i in term t.
unfoldable pub tally : List Vote → (t i n : ℕ) → ℕ
tally votes t i n = count_from (λ v. has_vote v t i votes) n 0

abbrev pub Includes : List Vote → List Vote → Type 0
Includes more votes = (v t i : ℕ) → has_vote v t i votes ≡ true → has_vote v t i more ≡ true

pub Includes-cons : (x : Vote) (votes : List Vote) → Includes (x ∷ votes) votes
unfolding has_vote
Includes-cons x votes v t i h = ground arith

pub Includes-add_if : (b : Bool) (x : Vote) (votes : List Vote) → Includes (add_if b x votes) votes
unfolding add_if
Includes-add_if true x votes v t i h = Includes-cons x votes v t i h
Includes-add_if false x votes v t i h = h

pub tally-le :
    (more votes : List Vote) (t i n : ℕ)
    → Includes more votes
    → tally votes t i n ≤ tally more t i n
unfolding tally
tally-le more votes t i n h = count_from-le _ _ n 0 (λ v. h v t i)

pub has_vote-own :
    (x : Vote) (votes : List Vote) → has_vote x.voter x.term x.candidate (x ∷ votes) ≡ true
unfolding has_vote
has_vote-own x votes = ground arith

pub has_vote-cases :
    (v t i : ℕ) (x : Vote) (votes : List Vote)
    → has_vote v t i (x ∷ votes) ≡ true
    → ((x.voter ≡ v) × (x.term ≡ t) × (x.candidate ≡ i)) ⊎ (has_vote v t i votes ≡ true)
unfolding has_vote
has_vote-cases v t i x votes h = ground arith

pub add_if-cases :
    (v t i : ℕ) (b : Bool) (x : Vote) (votes : List Vote)
    → has_vote v t i (add_if b x votes) ≡ true
    → ((b ≡ true) × (x.voter ≡ v) × (x.term ≡ t) × (x.candidate ≡ i))
      ⊎ (has_vote v t i votes ≡ true)
unfolding add_if
add_if-cases v t i true x votes h = elim (has_vote-cases v t i x votes h) [
  | inl (p, q, r) ↦ inl (refl, p, q, r)
  | inr old ↦ inr old
]
add_if-cases v t i false x votes h = inr h

-- A new vote of one of the n servers.
pub tally-lt :
    (x : Vote) (votes : List Vote) (n : ℕ)
    → x.voter < n
    → has_vote x.voter x.term x.candidate votes ≡ false
    → suc (tally votes x.term x.candidate n) ≤ tally (x ∷ votes) x.term x.candidate n
unfolding tally
tally-lt x votes n lt new =
    count_from-lt _ _ n 0 x.voter (λ v. Includes-cons x votes v x.term x.candidate) (omega arith)
      (omega arith) new (has_vote-own x votes)

-- Two candidates with a majority each are one, if no server votes for two.
pub majority_unique :
    (votes : List Vote) (t i j n : ℕ)
    → ((v : ℕ) → has_vote v t i votes ≡ true → has_vote v t j votes ≡ true → i ≡ j)
    → n / 2 < tally votes t i n
    → n / 2 < tally votes t j n
    → i ≡ j
unfolding tally
majority_unique votes t i j n one a b = elim (Bool-cases (i == j)) [
  | inl same ↦ ground arith
  | inr other ↦
      let le =
        count_from-disjoint (λ v. has_vote v t i votes) (λ v. has_vote v t j votes) n 0
          (λ v h. elim (Bool-cases (has_vote v t j votes)) [
            | inl both ↦ let e = one v h both in absurd (ground arith)
            | inr apart ↦ apart
          ]) in
      absurd (omega arith)
]

unfoldable pub is_open : CallState → Bool
is_open waiting = true
is_open (replied reply) = true
is_open over = false

-- 1 for a call of i to v in term t that has not ended.
unfoldable pub weight : (v t i : ℕ) → Call → ℕ
unfolding is_open
weight v t i call = if is_open call.state && is_vote v t i (vote_of call) then 1 else 0

unfoldable pub open_calls : (v t i : ℕ) → List Call → ℕ
open_calls v t i [] = 0
open_calls v t i (call ∷ calls) = weight v t i call + open_calls v t i calls

module _ (v t i : ℕ) where
  pub open_calls-append :
      (xs ys : List Call) → open_calls v t i (xs ++ ys) ≡ open_calls v t i xs + open_calls v t i ys
  unfolding open_calls
  open_calls-append [] ys = omega arith
  open_calls-append (x ∷ xs) ys = omega (arith, open_calls-append xs ys)

  pub open_calls-set :
      (calls : List Call) (k : ℕ) (call call' : Call)
      → get_elem? calls k ≡ some call
      → open_calls v t i (set calls k call') + weight v t i call
        ≡ open_calls v t i calls + weight v t i call'
  unfolding open_calls
  open_calls-set [] k call call' e = ground arith
  open_calls-set (x ∷ xs) zero call call' e = omega (arith, ap (weight v t i) (some-eq e))
  open_calls-set (x ∷ xs) (suc k) call call' e = omega (arith, open_calls-set xs k call call' e)

  pub weight-over : (call : Call) → weight v t i (record call { state = over }) ≡ 0
  unfolding weight
  weight-over call = refl

  pub open_calls-end_calls :
      (j : ℕ) (calls : List Call) → open_calls v t i (end_calls j calls) ≤ open_calls v t i calls
  unfolding open_calls end_calls weight
  open_calls-end_calls j [] = omega arith
  open_calls-end_calls j (x ∷ xs) = ground (arith, open_calls-end_calls j xs)

  -- The calls of one election.
  open_calls-others :
      (args : RequestVoteArgs) (rounds p me : ℕ)
      → open_calls v t i
          (calls_of me (map (λ q. record { peer = q; args = args }) (others_from rounds p me)))
        ≤ (if (args.election_term == t) && (me == i) && not (v == me) && leb p v then 1 else 0)
  unfolding open_calls calls_of others_from weight is_vote
  open_calls-others args zero p me = omega arith
  open_calls-others args (suc rounds) p me =
      ground (arith, open_calls-others args rounds (p + 1) me)

  pub open_calls-requests :
      (args : RequestVoteArgs) (n : ℕ)
      → open_calls v t i (calls_of args.candidate_id (vote_requests n args))
        ≤ (if (args.election_term == t) && (args.candidate_id == i) && not (v == i) then 1 else 0)
  unfolding vote_requests others
  open_calls-requests args n = ground (arith, open_calls-others args n 0 args.candidate_id)

-- A call that has not ended weighs one.
pub weight-open :
    (call : Call)
    → is_open call.state ≡ true
    → weight call.to call.args.election_term call.sender call ≡ 1
unfolding weight is_vote
weight-open call e = ground arith
