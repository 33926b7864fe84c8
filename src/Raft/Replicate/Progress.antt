-- ===== src/Raft/Replicate/Progress.antt =====
-- What one answered round of replicateTo in src/raft/raft.go leaves: a lower next index, or a matched log.
use cs.Prelude.{
  ℕ, ◌+◌, ◌≤◌, ◌<◌, ◌≡◌, refl, ap, ◌∙◌, true, false, some, arith, length, get_elem?, get_elem?-lt,
  Ends, Ends->>=, length-set, get_elem?-set_self, lt→ltb, le→not_ltb,
}
use cs.Raft.Defs.{Raft, leader, World, Gob, AppendEntriesArgs, AppendEntriesReply}
use cs.Raft.Commit.{try_advance_commit_locked}
use cs.Raft.Commit.Majority.{try_advance_commit_locked-IsAdvance}
use cs.Raft.Replicate.{Answered, answered, backtrack, retry, record_match, at_least_one, leads}

module _ {C : Type 0} where
  -- A leader in office, about to try a next index at a follower of no newer term.
  pub record Ready (peer next : ℕ) (from to : Raft C) : Type 0 where
    pub leads : from.state ≡ leader
    pub next_found : get_elem? from.next_index peer ≡ some next
    pub next_positive : 0 < next
    pub next_bound : next ≤ length from.log
    pub next_length : length from.next_index ≡ from.peers
    pub matched_length : length from.match_index ≡ from.peers
    pub self : from.me < from.peers
    pub peer_bound : peer < from.peers
    pub follower_log : 0 < length to.log
    pub follower_term : to.term ≤ from.term

  -- What a refused round leaves: a next index that is lower.
  pub record Retried (next : ℕ) (peer : ℕ) (from : Raft C) (a : Answered C) : Type 0 where
    pub again : a.again ≡ true
    pub lower : (n : ℕ) × (n < next) × (0 < n) × (get_elem? a.node.next_index peer ≡ some n)
    pub same_state : a.node.state ≡ from.state
    pub same_term : a.node.term ≡ from.term
    pub same_log : a.node.log ≡ from.log
    pub same_match : a.node.match_index ≡ from.match_index
    pub same_next_length : length a.node.next_index ≡ length from.next_index
    pub same_me : a.node.me ≡ from.me
    pub same_peers : a.node.peers ≡ from.peers

  pub retry-Retried :
      (peer next : ℕ) (reply : AppendEntriesReply) (from : Raft C)
      → peer < length from.next_index
      → Ends (λ n. at_least_one n < next) (backtrack from.log reply)
      → Ends (Retried next peer from) (retry peer reply from)
  unfolding retry at_least_one
  retry-Retried peer next reply from h b = Ends->>= _ _ (backtrack from.log reply) _ b λ n l.
      rw (lt→ltb _ _ h) (record {
        again = refl;
        lower = (
          at_least_one n,
          l,
          ground arith,
          get_elem?-set_self from.next_index peer (at_least_one n) h,
        );
        same_state = refl;
        same_term = refl;
        same_log = refl;
        same_match = refl;
        same_next_length = length-set from.next_index peer (at_least_one n);
        same_me = refl;
        same_peers = refl;
      })

  pub leads-true :
      (leader_term : ℕ) (from : Raft C)
      → from.state ≡ leader
      → from.term ≡ leader_term
      → leads leader_term from ≡ true
  unfolding leads
  leads-true leader_term from l t = ground arith

  -- What a round that was accepted leaves: the loop ends.
  pub record Finished (from : Raft C) (a : Answered C) : Type 0 where
    pub last_round : a.again ≡ false
    pub same_log : a.node.log ≡ from.log

  pub record_match-Finished :
      (peer match : ℕ) (from : Raft C)
      → peer < from.peers
      → length from.match_index ≡ from.peers
      → length from.next_index ≡ from.peers
      → from.me < from.peers
      → 0 < length from.log
      → Ends
          (λ (r : Raft C). (length r.match_index ≡ r.peers) × (r.me < r.peers) × (r.log ≡ from.log))
          (record_match peer match from)
  unfolding record_match
  record_match-Finished peer match from h m n s d = ground (
    arith,
    get_elem?-lt from.match_index peer (omega arith),
    length-set from.match_index peer match,
  )

  pub answered-Finished :
      (g : Gob C) (w : World) (peer leader_term : ℕ) (args : AppendEntriesArgs C)
      (reply : AppendEntriesReply) (from : Raft C)
      → from.state ≡ leader
      → from.term ≡ leader_term
      → reply.term ≤ from.term
      → reply.success ≡ true
      → peer < from.peers
      → length from.match_index ≡ from.peers
      → length from.next_index ≡ from.peers
      → from.me < from.peers
      → 0 < length from.log
      → Ends (Finished from) (answered g w peer leader_term args reply from)
  unfolding answered
  answered-Finished g w peer leader_term args reply from l e t done h m n s d =
      rw (le→not_ltb _ _ t, leads-true leader_term from l e, done)
        (Ends->>= _ _ (record_match peer (args.prev_log_index + length args.entries) from) _
          (record_match-Finished peer _ from h m n s d)
          λ r (mr, sr, lr).
            Ends->>= _ _ (try_advance_commit_locked r) _
              (try_advance_commit_locked-IsAdvance r mr sr (rw lr d))
              λ led (adv, same). record {
                last_round = refl;
                same_log = ap (λ (x : Raft C). x.log) same ∙ lr;
              })

  pub answered-Retried :
      (g : Gob C) (w : World) (peer next leader_term : ℕ) (args : AppendEntriesArgs C)
      (reply : AppendEntriesReply) (from : Raft C)
      → from.state ≡ leader
      → from.term ≡ leader_term
      → reply.term ≤ from.term
      → reply.success ≡ false
      → peer < length from.next_index
      → Ends (λ n. at_least_one n < next) (backtrack from.log reply)
      → Ends (Retried next peer from) (answered g w peer leader_term args reply from)
  unfolding answered
  answered-Retried g w peer next leader_term args reply from l e t refused h b =
      rw (le→not_ltb _ _ t, leads-true leader_term from l e, refused)
        (retry-Retried peer next reply from h b)

  pub Retried-Ready :
      (peer next n : ℕ) (from to to' : Raft C) (a : Answered C)
      → Ready peer next from to
      → Retried next peer from a
      → n < next
      → 0 < n
      → get_elem? a.node.next_index peer ≡ some n
      → to'.log ≡ to.log
      → to'.term ≡ from.term
      → Ready peer n a.node to'
  Retried-Ready peer next n from to to' a r t l p f log term = record {
    leads = t.same_state ∙ r.leads;
    next_found = f;
    next_positive = p;
    next_bound = rw t.same_log (omega (arith, r.next_bound));
    next_length = ground (arith, r.next_length, t.same_next_length, t.same_peers);
    matched_length = ground (arith, r.matched_length, t.same_match, t.same_peers);
    self = omega (arith, r.self, t.same_me, t.same_peers);
    peer_bound = omega (arith, r.peer_bound, t.same_peers);
    follower_log = rw log r.follower_log;
    follower_term = omega (arith, t.same_term, term);
  }
