-- ===== src/Raft/Cluster/Crashes.antt =====
-- Lost calls, and servers that crash and restart, in a cluster of src/raft.
use cs.Prelude.{
  ℕ, ◌≤◌, ◌≡◌, ap, ◌∙◌, List, [], ◌∷◌, some, arith, length-set, get_elem?, set, ◌==◌, inl, inr,
  Bool-cases,
}
use cs.Prelude.Every.{Every, Every-get, Every-set}
use cs.Raft.Defs.{Raft, World, Gob}
use cs.Raft.Persist.{make}
use cs.Raft.Persist.Durable.{make-IsDurable, make-follower}
use cs.Raft.Valid.Voting.{make-IsValid}
use cs.Raft.Server.Votes.{KeepsVote}
use cs.Raft.Cluster.{over, Call, Vote, Cluster, end_calls, restart_at}
use cs.Raft.Cluster.Tally.{open_calls, open_calls-set, open_calls-end_calls, weight-over}
use cs.Raft.Cluster.Keeps.{CallOk, IsFair, AllServers-set, Recent-set, Kept-set}

-- A call that has ended needs nothing.
CallOk-over :
    (given : List Vote) (n : ℕ) (call : Call)
    → CallOk given n call
    → CallOk given n (record call { state = over })
CallOk-over given n call ok = record { own = ok.own; granted = λ reply e v. cc }

CallOk-end_calls :
    (given : List Vote) (n i : ℕ) (calls : List Call)
    → Every (CallOk given n) calls
    → Every (CallOk given n) (end_calls i calls)
unfolding end_calls
CallOk-end_calls given n i [] h = tt
CallOk-end_calls given n i (call ∷ calls) h = (
  elim (Bool-cases (call.sender == i)) [
    | inl mine ↦ rw mine (CallOk-over given n call h.0)
    | inr others ↦ rw others h.0
  ],
  CallOk-end_calls given n i calls h.1,
)

module _ {C : Type 0} (g : Gob C) (n : ℕ) (c : Cluster C) (fair : IsFair g n c) where
  pub fails-IsFair :
      (k : ℕ) (call : Call)
      → get_elem? c.calls k ≡ some call
      → IsFair g n (record c { calls = set c.calls k (record call { state = over }) })
  fails-IsFair k call at_k =
      let fewer : (v t i : ℕ)
          → open_calls v t i (set c.calls k (record call { state = over }))
            ≤ open_calls v t i c.calls =
        λ v t i. omega (
          arith,
          open_calls-set v t i c.calls k call (record call { state = over }) at_k,
          weight-over v t i call,
        ) in
      record {
        size = fair.size;
        servers = fair.servers;
        calls =
            Every-set _ c.calls k (record call { state = over })
              (CallOk-over c.given n call (Every-get _ c.calls k fair.calls at_k)) fair.calls;
        once = λ v t i. omega (arith, fewer v t i, fair.once v t i);
        recent = λ i rf e v t lt.
            let (none, unseen) = fair.recent i rf e v t lt in (omega (arith, fewer v t i), unseen);
        sound = fair.sound;
        kept = fair.kept;
        unique = fair.unique;
      }

  pub restarts-IsFair :
      (w : World) (i : ℕ) (rf : Raft C)
      → get_elem? c.servers i ≡ some rf
      → IsFair g n (restart_at i (make g w rf.peers rf.me rf.persister) c)
  unfolding restart_at
  restarts-IsFair w i rf found =
      let ok = fair.servers i rf found in
      let rf' = make g w rf.peers rf.me rf.persister in
      let (peers, me, state) = make-follower g w rf.peers rf.me rf.persister in
      let back = ok.durable w in
      let later : KeepsVote rf rf' =
        (omega (arith, ap (λ h. h.term) back), λ same voted. ap (λ h. h.voted_for) back) in
      let fewer = λ (v t j : ℕ). open_calls-end_calls v t j i c.calls in
      record {
        size = length-set c.servers i rf' ∙ fair.size;
        servers =
            AllServers-set c.servers i rf rf' found g c.counted c.counted n (λ v t j h. h)
              (record {
                me = me ∙ ok.me;
                peers = peers ∙ ok.peers;
                valid = make-IsValid g w rf.peers rf.me rf.persister ok.valid.self;
                durable = make-IsDurable g w rf.peers rf.me rf.persister;
                runs = λ r. absurd (ground (arith, state, r));
                leads = λ l. absurd (ground (arith, state, l));
              })
              fair.servers;
        calls = CallOk-end_calls c.given n i c.calls fair.calls;
        once = λ v t j. omega (arith, fewer v t j, fair.once v t j);
        recent = λ j s e v t lt.
            let (none, unseen) =
              Recent-set c.servers i rf rf' found c.calls c.counted later.0 fair.recent j s e v t
                lt in
            (omega (arith, fewer v t j), unseen);
        sound = fair.sound;
        kept = Kept-set c.servers i rf rf' found c.given later fair.kept;
        unique = fair.unique;
      }
