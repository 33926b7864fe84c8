-- ===== src/Raft/Replicas/CatchUp.antt =====
-- replicateTo of src/raft/raft.go between two servers of a cluster, whatever has happened to them.
use cs.Prelude.{
  ℕ, zero, suc, ◌+◌, ◌≤◌, ◌<◌, ◌≡◌, ◌⊎◌, refl, sym, ap, ◌∙◌, List, some, some-eq, pos, inl, inr,
  arith, length, get_elem?, get_elem?-lt, lt_of_get_elem?, get_elem?-set_self, length-set, set,
  take, Ends,
}
use cs.Raft.Defs.{LogEntry, Raft, leader, World, Gob}
use cs.Raft.Persist.Durable.{GobLaws}
use cs.Raft.Valid.{IsValid, AllLe-get}
use cs.Raft.Log.Sync.{terms, take-terms}
use cs.Raft.Replicate.{prepare}
use cs.Raft.Replicate.Loop.{replicate_to}
use cs.Raft.Replicate.Rounds.{Related}
use cs.Raft.Replicate.Progress.{Ready}
use cs.Raft.Replicate.Converge.{Converged, replicate_to-Converged}
use cs.Raft.Replicas.{Replicas, Reaches, new_replicas, IsTimely}
use cs.Raft.Replicas.Logs.{HasDummy, Rooted, Rooted-match, entry_at, get_of_take, take-take}
use cs.Raft.Replicas.Fair.{LogOk}
use cs.Raft.Replicas.Matching.{run-IsSound}

zero_cases : (k : ℕ) → (k ≡ 0) ⊎ (0 < k)
zero_cases k = ground arith

module _ {C : Type 0} where
  -- An entry below one of the same book.
  below :
      (book : ℕ → List (LogEntry C)) (ls fs : List (LogEntry C)) (i j : ℕ) (x y : LogEntry C)
      → Rooted book ls
      → Rooted book fs
      → i ≤ j
      → get_elem? ls j ≡ some x
      → get_elem? fs i ≡ some y
      → x.term ≡ y.term
      → get_elem? ls i ≡ get_elem? fs i
  below book ls fs i j x y h h' le at_j at_i same =
      let long =
        sym (take-take (suc i) (suc j) ls (omega arith))
        ∙ ap (take (suc i)) (h j x at_j)
        ∙ take-take (suc i) (suc j) (book x.term) (omega arith) in
      get_of_take i ls fs (long ∙ ap (λ t. take (suc i) (book t)) same ∙ sym (h' i y at_i))

  Rooted-Related :
      (book : ℕ → List (LogEntry C)) (ls fs : List (LogEntry C))
      → HasDummy ls
      → HasDummy fs
      → Rooted book ls
      → Rooted book fs
      → Related ls fs
  Rooted-Related book ls fs d d' h h' = record {
    same_origin = λ i j le lt lt' t.
        let (x, at_j, tx) = entry_at ls j d lt in
        let (y, at_i, ty) = entry_at fs i d' lt' in
        let e : pos x.term ≡ pos y.term = sym tx ∙ t ∙ ty in
        let both = below book ls fs i j x y h h' le at_j at_i (ground arith) in
        let (z, at_z, tz) = entry_at ls i d (omega arith) in
        tz ∙ ap (λ (e : LogEntry C). pos e.term) (some-eq (sym at_z ∙ both ∙ at_i)) ∙ sym ty;
    same_prefix = λ i lt lt' t.
        let (x, at_x, tx) = entry_at ls i d lt in
        let (y, at_y, ty) = entry_at fs i d' lt' in
        let e : pos x.term ≡ pos y.term = sym tx ∙ t ∙ ty in
        let one : i + 1 ≡ suc i = omega arith in
        rw (one, ← take-terms (suc i) ls, ← take-terms (suc i) fs)
          (ap terms (Rooted-match book ls fs i x y h h' at_x at_y (ground arith)));
  }

  raised-prepare :
      (peer leader_term : ℕ) (from : Raft C)
      → from.state ≡ leader
      → from.term ≡ leader_term
      → get_elem? from.next_index peer ≡ some 0
      → prepare peer leader_term from
        ≡ prepare peer leader_term (record from { next_index = set from.next_index peer 1 })
  unfolding prepare
  raised-prepare peer leader_term from l t found = ground (
    arith,
    found,
    get_elem?-set_self from.next_index peer 1 (lt_of_get_elem? from.next_index peer found),
  )

  -- A next index of 0 is first raised to 1.
  raised :
      (g : Gob C) (w : World) (peer fuel leader_term : ℕ) (from to : Raft C)
      → from.state ≡ leader
      → from.term ≡ leader_term
      → get_elem? from.next_index peer ≡ some 0
      → 0 < fuel
      → replicate_to g w peer fuel leader_term from to
        ≡ replicate_to g w peer fuel leader_term
            (record from { next_index = set from.next_index peer 1 })
            to
  unfolding replicate_to
  raised g w peer zero leader_term from to l t found more = absurd (omega arith)
  raised g w peer (suc fuel) leader_term from to l t found more =
      rw (raised-prepare peer leader_term from l t found) refl

  ready_with :
      (peer next : ℕ) (from to : Raft C) (next_index : List ℕ)
      → IsValid from
      → from.state ≡ leader
      → peer < from.peers
      → 0 < length to.log
      → to.term ≤ from.term
      → length next_index ≡ from.peers
      → get_elem? next_index peer ≡ some next
      → 0 < next
      → next ≤ length from.log
      → Ready peer next (record from { next_index = next_index }) to
  ready_with peer next from to next_index valid l bound filled le size found more within = record {
    leads = l;
    next_found = found;
    next_positive = more;
    next_bound = within;
    next_length = size;
    matched_length = (valid.arrays l).match_length;
    self = valid.self;
    peer_bound = bound;
    follower_log = filled;
    follower_term = le;
  }

  catches_up :
      (g : Gob C) (w : World) (peer : ℕ) (from to : Raft C)
      → IsValid from
      → from.state ≡ leader
      → peer < from.peers
      → 0 < length to.log
      → to.term ≤ from.term
      → Related from.log to.log
      → Ends (Converged from.log) (replicate_to g w peer (length from.log) from.term from to)
  catches_up g w peer from to valid l bound filled le related =
      let arrays = valid.arrays l in
      let dummy = valid.has_dummy in
      let size = arrays.next_length in
      let (k, found) = get_elem?-lt from.next_index peer (omega arith) in
      let within = AllLe-get (length from.log) from.next_index peer arrays.next_bound found in
      elim (zero_cases k) [
        | inr more ↦
            replicate_to-Converged g w peer from.term (length from.log) k from to refl
              (ready_with peer k from to from.next_index valid l bound filled le size found more
                within)
              related within
        | inl none ↦
            let at_zero : get_elem? from.next_index peer ≡ some 0 =
              found ∙ ap (λ (n : ℕ). some n) none in
            rw (raised g w peer (length from.log) from.term from to l refl at_zero dummy) (
              replicate_to-Converged g w peer from.term (length from.log) 1
                (record from { next_index = set from.next_index peer 1 }) to refl
                (ready_with peer 1 from to (set from.next_index peer 1) valid l bound filled le
                  (length-set from.next_index peer 1 ∙ size)
                  (get_elem?-set_self from.next_index peer 1 (omega arith)) (omega arith)
                  (omega arith))
                related (omega arith))
      ]

  module _ (g : Gob C) (laws : GobLaws g) (n : ℕ) (w : World) {r : Replicas C}
      (run : Reaches g (new_replicas g w n) r) (timely : IsTimely run) where
    -- After any such run as in log matching, a leader that replicates its log to a server of no newer
    -- term, with no other event at either: the loop of replicateTo ends without a panic after at most
    -- as many rounds as the leader's log has entries, and the server's log then has the leader's
    -- terms up to the leader's last index. A run is as there if each vote that is counted finds
    -- its candidate still in the election's term, and no answer to a heartbeat is stale.
    pub replicas_catch_up :
        (i j : ℕ) (a b : Raft C)
        → get_elem? r.cluster.servers i ≡ some a
        → get_elem? r.cluster.servers j ≡ some b
        → a.state ≡ leader
        → b.term ≤ a.term
        → Ends (Converged a.log) (replicate_to g w j (length a.log) a.term a b)
    replicas_catch_up i j a b at_i at_j l le =
        let (fair, books, _) = run-IsSound g laws n w run timely in
        let book = books.0 in
        let logs = books.1.logs in
        let (oka, okb) : LogOk book a × LogOk book b = (logs i a at_i, logs j b at_j) in
        let sound = fair.servers i a at_i in
        let filled = lt_of_get_elem? b.log 0 okb.dummy in
        let related = Rooted-Related book a.log b.log oka.dummy okb.dummy oka.rooted okb.rooted in
        let bound = lt_of_get_elem? r.cluster.servers j at_j in
        catches_up g w j a b sound.valid l (omega (arith, sound.peers, fair.size)) filled le related
