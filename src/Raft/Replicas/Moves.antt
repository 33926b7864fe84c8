-- ===== src/Raft/Replicas/Moves.antt =====
-- The moves of a cluster of src/raft that are no messages of AppendEntries keep the books of the terms.
use cs.Prelude.{ℕ, ◌≤◌, ◌<◌, ◌≡◌, refl, ap, ◌∙◌, subst, List, some, arith, get_elem?, set, inl, inr}
use cs.Raft.Defs.{Raft, World, Gob}
use cs.Raft.Persist.{make}
use cs.Raft.Persist.Durable.{GobLaws, make-follower}
use cs.Raft.Server.{Event, elect, vote_asked, vote_answered, Fits, step}
use cs.Raft.Server.Votes.{IsFresh}
use cs.Raft.Cluster.{
  Cluster, Move, elects, asks, counts, fails, acts, restarts, elect_at, ask_at, count_at,
  restart_at,
}
use cs.Raft.Cluster.Roles.{
  IsLocal, KeepsRole, step-KeepsRole, request_vote-KeepsRole, start_election-role, count_vote-role,
}
use cs.Raft.Cluster.Tally.{Includes}
use cs.Raft.Cluster.Keeps.{IsFair}
use cs.Raft.Cluster.Moves.{KeepsVote-step}
use cs.Raft.Cluster.Safety.{IsPrompt, Move-IsFair, Move-counted}
use cs.Raft.Replicas.{Message, IsApart}
use cs.Raft.Replicas.Events.{
  NoAppend, IsQuiet, IsQuiet-cases, step-log, commanded-log, elect-step, asked-step, counted-step,
}
use cs.Raft.Replicas.Fair.{GoesOn}
use cs.Raft.Replicas.Writes.{Rises, HasBooks, same_log-HasBooks, commanded-HasBooks}

module _ {C : Type 0} (g : Gob C) (laws : GobLaws g) (n : ℕ) (sent : List (Message C)) where
  pub KeepsRole-GoesOn : (rf rf' : Raft C) → rf.term ≤ rf'.term → KeepsRole rf rf' → GoesOn rf rf'
  KeepsRole-GoesOn rf rf' le keeps = (le, λ c. inl (keeps.runs c).0)

  KeepsRole-Rises : (rf rf' : Raft C) → KeepsRole rf rf' → Rises rf rf'
  KeepsRole-Rises rf rf' keeps l = let (was, t) = keeps.leads l in inl (t, inl was)

  -- A server whose log stays.
  module _ (c c' : Cluster C) (i : ℕ) (rf rf' : Raft C) (found : get_elem? c.servers i ≡ some rf)
      (now : c'.servers ≡ set c.servers i rf') (more : Includes c'.counted c.counted)
      (fair' : IsFair g n c') (books : HasBooks n c sent) (w : World) where
    pub quiet-HasBooks :
        (e : Event C)
        → step g w e rf ≡ some rf'
        → IsQuiet e
        → IsFresh rf e
        → KeepsRole rf rf'
        → HasBooks n c' sent
    quiet-HasBooks e q quiet fresh keeps =
        let (le, _) = KeepsVote-step g laws w e rf rf' q fresh in
        same_log-HasBooks g n c c' sent i rf rf' found now more fair'
          (KeepsRole-GoesOn rf rf' le keeps) books.0 books.1 (step-log g w rf e quiet q)
          (KeepsRole-Rises rf rf' keeps)

    acts-HasBooks :
        (e : Event C)
        → step g w e rf ≡ some rf'
        → NoAppend e
        → IsFresh rf e
        → KeepsRole rf rf'
        → HasBooks n c' sent
    acts-HasBooks e q apart fresh keeps = elim (IsQuiet-cases e apart) [
      | inl quiet ↦ quiet-HasBooks e q quiet fresh keeps
      | inr (x, is) ↦
          let on = KeepsRole-GoesOn rf rf' (KeepsVote-step g laws w e rf rf' q fresh).0 keeps in
          let (t, s, log) = commanded-log g w rf x (subst (λ e. step g w e rf ≡ some rf') is q) in
          elim log [
            | inl same ↦
                same_log-HasBooks g n c c' sent i rf rf' found now more fair' on books.0 books.1
                  same (KeepsRole-Rises rf rf' keeps)
            | inr (l, new) ↦
                commanded-HasBooks g n c c' sent i rf rf' found now more fair' on books.0 books.1
                  (record { term = rf.term; command = x }) refl t l (s ∙ l) new
          ]
    ]

  acts-IsFresh :
      (c : Cluster C) (w : World) (i : ℕ) (e : Event C) (rf rf' : Raft C)
      (found : get_elem? c.servers i ≡ some rf) (fits : Fits rf e) (local : IsLocal e)
      (q : step g w e rf ≡ some rf')
      → IsPrompt {c = c} (acts w i e found fits local q)
      → IsFresh rf e
  unfolding IsPrompt
  acts-IsFresh c w i e rf rf' found fits local q p = p

  pub Move-HasBooks :
      {c c' : Cluster C} (move : Move g c c')
      → IsPrompt move
      → IsApart move
      → IsFair g n c
      → HasBooks n c sent
      → HasBooks n c' sent
  unfolding elect_at ask_at count_at restart_at
  Move-HasBooks {c = c} (elects w i {rf = rf} {e = e} found started) p apart fair books =
      let role = start_election-role g w rf started in
      let newer : rf.term < e.node.term = omega (arith, role.0) in
      same_log-HasBooks g n c (elect_at i e c) sent i rf e.node found refl
        (Move-counted {c = c} (elects w i found started))
        (Move-IsFair g laws n (elects w i found started) p fair) (omega arith, λ _. inr newer)
        books.0 books.1 (step-log g w rf elect tt (elect-step g w rf started)) (λ _. inr newer)
  Move-HasBooks {c = c} (asks w k {call = call} {rf = rf} {r = r} at_k waits found asked) p apart
        fair books =
      quiet-HasBooks c (ask_at k call r c) call.to rf r.node found refl (λ v t j h. h)
        (Move-IsFair g laws n (asks w k at_k waits found asked) p fair) books w
        (vote_asked call.args) (asked-step g w rf call.args asked) tt tt
        (request_vote-KeepsRole g w rf call.args asked)
  Move-HasBooks {c = c}
        (counts w k {call = call} {reply = reply} {rf = rf} {v = v} at_k came found counted) p apart
        fair books =
      let term = call.args.election_term in
      let q = counted-step g w rf term reply counted in
      let (_, _, runs, leads) = count_vote-role g w rf term reply counted in
      let (le, _) = KeepsVote-step g laws w (vote_answered term reply) rf v.node q tt in
      same_log-HasBooks g n c (count_at k call reply v c) sent call.sender rf v.node found refl
        (Move-counted {c = c} (counts w k at_k came found counted))
        (Move-IsFair g laws n (counts w k at_k came found counted) p fair) (le, λ s. inl (runs s).0)
        books.0 books.1 (step-log g w rf (vote_answered term reply) tt q)
        (λ l.
          let (t, was) = leads l in
          elim was [ inl led ↦ inl (t, inl led) | inr (ran, _, _) ↦ inl (t, inr ran) ])
  Move-HasBooks {c = c} (fails k {call = call} at_k) p apart fair books = books
  Move-HasBooks {c = c} (acts w i e {rf = rf} {rf' = rf'} found fits local q) p apart fair books =
      acts-HasBooks c (record c { servers = set c.servers i rf' }) i rf rf' found refl
        (λ v t j h. h) (Move-IsFair g laws n (acts w i e found fits local q) p fair) books w e q
        apart (acts-IsFresh c w i e rf rf' found fits local q p) (step-KeepsRole g w rf e local q)
  Move-HasBooks {c = c} (restarts w i {rf = rf} found) p apart fair books =
      let rf' = make g w rf.peers rf.me rf.persister in
      let (_, _, state) = make-follower g w rf.peers rf.me rf.persister in
      let back = (fair.servers i rf found).durable w in
      same_log-HasBooks g n c (restart_at i rf' c) sent i rf rf' found refl (λ v t j h. h)
        (Move-IsFair g laws n (restarts w i found) p fair)
        (omega (arith, ap (λ h. h.term) back), λ s. absurd (ground (arith, state, s))) books.0
        books.1 (ap (λ h. h.log) back) (λ l. absurd (ground (arith, state, l)))
