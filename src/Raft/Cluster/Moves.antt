-- ===== src/Raft/Cluster/Moves.antt =====
-- Every move of a cluster of src/raft keeps its invariant.
use cs.Prelude.{
  ℕ, ◌/◌, ◌≤◌, ◌<◌, ◌≡◌, ◌∙◌, subst, List, some, arith, length-set, get_elem?, set, Ends,
}
use cs.Raft.Defs.{Raft, leader, candidate, World, Gob}
use cs.Raft.Valid.{IsValid}
use cs.Raft.Persist.Durable.{GobLaws}
use cs.Raft.Server.{Event, Fits, step}
use cs.Raft.Server.Runs.{step-IsValid, step-IsDurable}
use cs.Raft.Server.Votes.{IsFresh, step-IsLater, KeepsVote}
use cs.Raft.Cluster.{Vote, Cluster}
use cs.Raft.Cluster.Roles.{IsLocal, KeepsRole, step-KeepsRole}
use cs.Raft.Cluster.Tally.{tally}
use cs.Raft.Cluster.Keeps.{ServerOk, IsFair, AllServers-set, Recent-set, Kept-set}

module _ {C : Type 0} (g : Gob C) (laws : GobLaws g) where
  -- A server after an event is as sound as before, if its role is accounted for.
  pub ServerOk-step :
      (w : World) (e : Event C) (counted more : List Vote) (n i : ℕ) (rf rf' : Raft C)
      → step g w e rf ≡ some rf'
      → Fits rf e
      → ServerOk g counted n i rf
      → rf'.me ≡ rf.me
      → rf'.peers ≡ rf.peers
      → (rf'.state ≡ candidate → rf'.vote_count ≤ tally more rf'.term i n)
      → (rf'.state ≡ leader → n / 2 < tally more rf'.term i n)
      → ServerOk g more n i rf'
  ServerOk-step w e counted more n i rf rf' q f ok me peers runs leads = record {
    me = me ∙ ok.me;
    peers = peers ∙ ok.peers;
    valid = subst (Ends IsValid) q (step-IsValid g w e rf ok.valid f);
    durable = step-IsDurable g laws w e rf ok.valid.has_dummy ok.durable q;
    runs = runs;
    leads = leads;
  }

  pub ServerOk-KeepsRole :
      (w : World) (e : Event C) (counted : List Vote) (n i : ℕ) (rf rf' : Raft C)
      → step g w e rf ≡ some rf'
      → Fits rf e
      → KeepsRole rf rf'
      → ServerOk g counted n i rf
      → ServerOk g counted n i rf'
  ServerOk-KeepsRole w e counted n i rf rf' q f keeps ok =
      ServerOk-step w e counted counted n i rf rf' q f ok keeps.same_me keeps.same_peers
        (λ r. let (was, same, less) = keeps.runs r in let le = ok.runs was in rw same (omega arith))
        (λ l. let (was, same) = keeps.leads l in rw same (ok.leads was))

  pub KeepsVote-step :
      (w : World) (e : Event C) (rf rf' : Raft C)
      → step g w e rf ≡ some rf'
      → IsFresh rf e
      → KeepsVote rf rf'
  KeepsVote-step w e rf rf' q fresh =
      let l = step-IsLater g w rf e fresh q in (l.term_grows, l.vote_stays)

  module _ (n : ℕ) (c : Cluster C) (fair : IsFair g n c) where
    pub acts-IsFair :
        (w : World) (i : ℕ) (e : Event C) (rf rf' : Raft C)
        → get_elem? c.servers i ≡ some rf
        → Fits rf e
        → IsLocal e
        → IsFresh rf e
        → step g w e rf ≡ some rf'
        → IsFair g n (record c { servers = set c.servers i rf' })
    acts-IsFair w i e rf rf' found fits local fresh q =
        let later = KeepsVote-step w e rf rf' q fresh in
        record {
          size = length-set c.servers i rf' ∙ fair.size;
          servers =
              AllServers-set c.servers i rf rf' found g c.counted c.counted n (λ v t j h. h)
                (ServerOk-KeepsRole w e c.counted n i rf rf' q fits
                  (step-KeepsRole g w rf e local q) (fair.servers i rf found))
                fair.servers;
          calls = fair.calls;
          once = fair.once;
          recent = Recent-set c.servers i rf rf' found c.calls c.counted later.0 fair.recent;
          sound = fair.sound;
          kept = Kept-set c.servers i rf rf' found c.given later fair.kept;
          unique = fair.unique;
        }
