-- ===== src/Raft/Cluster/Safety.antt =====
-- At most one leader in a term of a cluster of src/raft.
use cs.Prelude.{
  ℕ, zero, suc, ◌+◌, ◌/◌, ◌<◌, ◌≡◌, refl, sym, ap, ◌∙◌, subst, true, List, [], ◌∷◌, some, some-eq,
  arith, length, get_elem?, lt_of_get_elem?,
}
use cs.Raft.Defs.{Raft, Persister, leader, World, Gob}
use cs.Raft.Persist.{make}
use cs.Raft.Persist.Durable.{GobLaws, make-IsDurable, make-follower}
use cs.Raft.Valid.Voting.{make-IsValid}
use cs.Raft.Server.Votes.{IsFresh}
use cs.Raft.Cluster.{
  Cluster, Move, elects, asks, counts, fails, acts, restarts, Run, here, next, made, boot, elect_at,
  ask_at, count_at, restart_at,
}
use cs.Raft.Cluster.Tally.{
  Includes, Includes-cons, Includes-add_if, tally, tally-le, has_vote, open_calls, majority_unique,
}
use cs.Raft.Cluster.Keeps.{ServerOk, IsFair}
use cs.Raft.Cluster.Moves.{acts-IsFair}
use cs.Raft.Cluster.Elects.{elects-IsFair}
use cs.Raft.Cluster.Asks.{asks-IsFair}
use cs.Raft.Cluster.Counts.{counts-IsFair}
use cs.Raft.Cluster.Crashes.{fails-IsFair, restarts-IsFair}

-- No answer is handled late: a vote finds its candidate still in the term of the election, and an
-- answer to a heartbeat that has a newer term than the heartbeat has a newer one than the server too.
unfoldable pub IsPrompt : {C : Type 0} {g : Gob C} {c c' : Cluster C} → Move g c c' → Type 0
IsPrompt (elects w i found started) = Unit
IsPrompt (asks w k at_k waits found asked) = Unit
IsPrompt (counts w k {call = call} {reply = reply} {rf = rf} at_k came found counted) =
    reply.vote ≡ true → rf.term ≡ call.args.election_term
IsPrompt (fails k at_k) = Unit
IsPrompt (acts w i e {rf = rf} found fits local q) = IsFresh rf e
IsPrompt (restarts w i found) = Unit

abbrev pub AllPrompt : {C : Type 0} {g : Gob C} {c c' : Cluster C} → Run g c c' → Type 0
AllPrompt here = Unit
AllPrompt (next run move) = AllPrompt run × IsPrompt move

module _ {C : Type 0} (g : Gob C) (laws : GobLaws g) (n : ℕ) where
  pub Move-IsFair :
      {c c' : Cluster C} (move : Move g c c') → IsPrompt move → IsFair g n c → IsFair g n c'
  unfolding IsPrompt
  Move-IsFair {c = c} (elects w i {rf = rf} {e = e} found started) p fair =
      elects-IsFair g laws n c fair w i rf e found started
  Move-IsFair {c = c} (asks w k {call = call} {rf = rf} {r = r} at_k waits found asked) p fair =
      asks-IsFair g laws n c fair w k call rf r at_k waits found asked
  Move-IsFair {c = c}
        (counts w k {call = call} {reply = reply} {rf = rf} {v = v} at_k came found counted) p
        fair =
      counts-IsFair g laws n c fair w k call reply rf v at_k came found counted p
  Move-IsFair {c = c} (fails k {call = call} at_k) p fair = fails-IsFair g n c fair k call at_k
  Move-IsFair {c = c} (acts w i e {rf = rf} {rf' = rf'} found fits local q) p fair =
      acts-IsFair g laws n c fair w i e rf rf' found fits local p q
  Move-IsFair {c = c} (restarts w i {rf = rf} found) p fair =
      restarts-IsFair g n c fair w i rf found

  Run-IsFair : {c c' : Cluster C} (run : Run g c c') → AllPrompt run → IsFair g n c → IsFair g n c'
  Run-IsFair here p fair = fair
  Run-IsFair (next run move) p fair = Move-IsFair move p.1 (Run-IsFair run p.0 fair)

-- What was counted stays counted.
pub Move-counted :
    {C : Type 0} {g : Gob C} {c c' : Cluster C} → Move g c c' → Includes c'.counted c.counted
unfolding elect_at ask_at count_at restart_at
Move-counted {c = c} (elects w k found started) v t i h = Includes-cons _ c.counted v t i h
Move-counted (asks w k at_k waits found asked) v t i h = h
Move-counted {c = c} (counts w k {reply = reply} at_k came found counted) v t i h =
    Includes-add_if reply.vote _ c.counted v t i h
Move-counted (fails k at_k) v t i h = h
Move-counted (acts w k e found fits local q) v t i h = h
Move-counted (restarts w k found) v t i h = h

Run-counted :
    {C : Type 0} {g : Gob C} {c c' : Cluster C} → Run g c c' → Includes c'.counted c.counted
Run-counted here v t i h = h
Run-counted (next run move) v t i h = Move-counted move v t i (Run-counted run v t i h)

pub made-get :
    {C : Type 0} (g : Gob C) (w : World) (n m : ℕ) (persisters : List Persister) (i : ℕ)
    {rf : Raft C}
    → get_elem? (made g w n m persisters) i ≡ some rf
    → (ps : Persister) × (make g w n (m + i) ps ≡ rf)
unfolding made
made-get g w n m [] i e = ground arith
made-get g w n m (ps ∷ rest) zero e =
    (ps, ap (λ k. make g w n k ps) (let q : m + 0 ≡ m = omega arith in q) ∙ some-eq e)
made-get g w n m (ps ∷ rest) (suc i) e =
    let (ps', q) = made-get g w n (m + 1) rest i e in
    (ps', ap (λ k. make g w n k ps') (let r : m + suc i ≡ m + 1 + i = omega arith in r) ∙ q)

pub length-made :
    {C : Type 0} (g : Gob C) (w : World) (n m : ℕ) (persisters : List Persister)
    → length (made g w n m persisters) ≡ length persisters
unfolding made
length-made g w n m [] = refl
length-made g w n m (ps ∷ rest) = ap suc (length-made g w n (m + 1) rest)

made-ServerOk :
    {C : Type 0} (g : Gob C) (w : World) (n i : ℕ) (ps : Persister)
    → i < n
    → ServerOk g [] n i (make g w n i ps)
made-ServerOk g w n i ps lt =
    let (peers, me, state) = make-follower g w n i ps in
    record {
      me = me;
      peers = peers;
      valid = make-IsValid g w n i ps lt;
      durable = make-IsDurable g w n i ps;
      runs = λ r. absurd (ground (arith, state, r));
      leads = λ l. absurd (ground (arith, state, l));
    }

pub boot-IsFair :
    {C : Type 0} (g : Gob C) (w : World) (persisters : List Persister)
    → IsFair g (length persisters) (boot g w persisters)
unfolding boot has_vote open_calls
boot-IsFair g w persisters = record {
  size = length-made g w (length persisters) 0 persisters;
  servers = λ i rf e.
      let n = length persisters in
      let (ps, q) = made-get g w n 0 persisters i e in
      let lt =
        subst (λ m. i < m) (length-made g w n 0 persisters)
          (lt_of_get_elem? (made g w n 0 persisters) i e) in
      subst (ServerOk g [] n i)
        (ap (λ k. make g w n k ps) (let r : i ≡ 0 + i = omega arith in r) ∙ q)
        (made-ServerOk g w n i ps lt);
  calls = tt;
  once = λ v t i. omega arith;
  recent = λ i rf e v t lt. (refl, refl);
  sound = λ v t i h. h;
  kept = λ v rf e t i h. absurd (ground arith);
  unique = λ v t i j h k. absurd (ground arith);
}

-- In a cluster of servers from Make, whatever their persisters, at most one server is ever leader in
-- a term, at whatever two moments of a run, with messages that are late or lost and servers that
-- crash and restart; if each vote that is counted finds its candidate still in the election's term, and
-- no answer to a heartbeat is stale.
pub one_leader_per_term :
    {C : Type 0} (g : Gob C)
    → GobLaws g
    → (w : World) (persisters : List Persister)
    → {mid c : Cluster C} (before : Run g (boot g w persisters) mid) (after : Run g mid c)
    → AllPrompt before
    → AllPrompt after
    → (i j : ℕ) (a b : Raft C) → get_elem? mid.servers i ≡ some a
    → get_elem? c.servers j ≡ some b
    → a.state ≡ leader
    → b.state ≡ leader
    → a.term ≡ b.term
    → i ≡ j
one_leader_per_term g laws w persisters {mid = mid} {c = c} before after p q i j a b at_i at_j
      leads_i leads_j same =
    let n = length persisters in
    let fair = Run-IsFair g laws n before p (boot-IsFair g w persisters) in
    let fair' = Run-IsFair g laws n after q fair in
    let more = Run-counted after in
    let first = (fair.servers i a at_i).leads leads_i in
    let grows = tally-le c.counted mid.counted a.term i n more in
    let second =
      subst (λ t. n / 2 < tally c.counted t j n) (sym same)
        ((fair'.servers j b at_j).leads leads_j) in
    majority_unique c.counted a.term i j n
      (λ v h k. fair'.unique v a.term i j (fair'.sound v a.term i h) (fair'.sound v a.term j k))
      (omega arith) second
