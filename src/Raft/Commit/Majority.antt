-- ===== src/Raft/Commit/Majority.antt =====
-- What tryAdvanceCommitLocked of src/raft/raft.go counts, and the commit index that it chooses.
use cs.Prelude.{
  ℕ, zero, suc, ◌+◌, ◌-◌, ◌/◌, ◌≤◌, ◌<◌, ◌≡◌, refl, ◌⊎◌, inl, inr, Bool, false, ◌&&◌, ◌||◌, not,
  List, Option, none, some, arith, length, get_elem?, get_elem?-lt, ltb, leb, ◌==◌, if◌then◌else◌,
  Ends, Bool-cases, subst,
}
use cs.Raft.Defs.{LogEntry, Raft}
use cs.Raft.Log.{last_log_index_locked}
use cs.Raft.Vote.{Led}
use cs.Raft.Commit.{count_matched, find_commit, try_advance_commit_locked}

-- How many of the numbers i, i + 1, ... of the given count pass the test.
unfoldable pub count_from : (ℕ → Bool) → (rounds i : ℕ) → ℕ
count_from p zero i = 0
count_from p (suc rounds) i =
    let rest = count_from p rounds (i + 1) in if p i then suc rest else rest

reached : Option ℕ → ℕ → Bool
reached none n = false
reached (some m) n = leb n m

-- The leader holds its own log; a peer holds what it has acknowledged.
unfoldable pub holds : List ℕ → (me n i : ℕ) → Bool
unfolding reached
holds match_index me n i = (i == me) || reached (get_elem? match_index i) n

other_holds : List ℕ → (me n i : ℕ) → Bool
unfolding reached
other_holds match_index me n i = not (i == me) && reached (get_elem? match_index i) n

-- The number of servers known to hold the entry at index n, the leader among them.
unfoldable pub holders : {C : Type 0} → Raft C → ℕ → ℕ
holders rf n = count_from (holds rf.match_index rf.me n) rf.peers 0

count_matched-count_from :
    (match_index : List ℕ) (me n rounds i count : ℕ)
    → i + rounds ≤ length match_index
    → count_matched match_index me n rounds i count
      ≡ some (count + count_from (other_holds match_index me n) rounds i)
unfolding count_matched count_from other_holds
count_matched-count_from match_index me n zero i count h = ground arith
count_matched-count_from match_index me n (suc rounds) i count h = ground (
  arith,
  get_elem?-lt match_index i (omega arith),
  count_matched-count_from match_index me n rounds (i + 1) count (omega arith),
  count_matched-count_from match_index me n rounds (i + 1) (count + 1) (omega arith),
)

count_from_past :
    (match_index : List ℕ) (me n rounds i : ℕ)
    → me < i
    → count_from (holds match_index me n) rounds i
      ≡ count_from (other_holds match_index me n) rounds i
unfolding count_from holds other_holds
count_from_past match_index me n zero i h = refl
count_from_past match_index me n (suc rounds) i h =
    ground (arith, count_from_past match_index me n rounds (i + 1) (omega arith))

count_from_self :
    (match_index : List ℕ) (me n rounds i : ℕ)
    → i ≤ me
    → me < i + rounds
    → count_from (holds match_index me n) rounds i
      ≡ suc (count_from (other_holds match_index me n) rounds i)
unfolding count_from holds other_holds
count_from_self match_index me n zero i h k = absurd (omega arith)
count_from_self match_index me n (suc rounds) i h k = ground (
  arith,
  count_from_past match_index me n rounds (i + 1),
  count_from_self match_index me n rounds (i + 1),
)

module _ {C : Type 0} (rf : Raft C) (sized : length rf.match_index ≡ rf.peers)
    (self : rf.me < rf.peers) where
  count_matched-holders :
      (n : ℕ) → count_matched rf.match_index rf.me n rf.peers 0 1 ≡ some (holders rf n)
  unfolding holders
  count_matched-holders n = ground (
    arith,
    count_matched-count_from rf.match_index rf.me n rf.peers 0 1 (omega arith),
    count_from_self rf.match_index rf.me n rf.peers 0 (omega arith) (omega arith),
  )

-- An entry of the leader's own term that a majority of the servers holds.
pub record IsCommittable {C : Type 0} (rf : Raft C) (n : ℕ) : Type 0 where
  pub entry : LogEntry C
  pub found : get_elem? rf.log n ≡ some entry
  pub own_term : entry.term ≡ rf.term
  pub majority : rf.peers / 2 < holders rf n

-- The commit index never falls; where it moves, it moves to the last index up to `last` that can be
-- committed.
pub record IsAdvance {C : Type 0} (rf : Raft C) (last commit : ℕ) : Type 0 where
  pub grows : rf.commit_index ≤ commit
  pub chosen : (commit ≡ rf.commit_index) ⊎ (IsCommittable rf commit × (commit ≤ last))
  pub latest : (n : ℕ) → commit < n → n ≤ last → ¬ IsCommittable rf n

module _ {C : Type 0} (rf : Raft C) (sized : length rf.match_index ≡ rf.peers)
    (self : rf.me < rf.peers) where
  IsAdvance-suc :
      (n : ℕ) (m : Option ℕ)
      → ¬ IsCommittable rf (suc n)
      → Ends (IsAdvance rf n) m
      → Ends (IsAdvance rf (suc n)) m
  IsAdvance-suc n none r h = h
  IsAdvance-suc n (some c) r h = record {
    grows = h.grows;
    chosen = elim h.chosen [ inl e ↦ inl e | inr (k, b) ↦ inr (k, omega arith) ];
    latest = λ k a b v. elim (Bool-cases (leb k n)) [
      | inl low ↦ h.latest k a (ground arith) v
      | inr top ↦ r (subst (IsCommittable rf) (let e : k ≡ suc n = ground arith in e) v)
    ];
  }

  find_commit-IsAdvance : (n : ℕ) → n < length rf.log → Ends (IsAdvance rf n) (find_commit rf n)
  unfolding find_commit
  find_commit-IsAdvance zero h = record {
    grows = omega arith;
    chosen = inl refl;
    latest = λ n a b c. omega arith;
  }
  find_commit-IsAdvance (suc n) h = elim (Bool-cases (leb (suc n) rf.commit_index)) [
    | inl low ↦
        rw low (record { grows = omega arith; chosen = inl refl; latest = λ k a b c. ground arith })
    | inr high ↦
        let (e, p) = get_elem?-lt rf.log (suc n) h in
        rw (high, p)
          (elim (Bool-cases (e.term == rf.term)) [
            | inl same ↦
                rw (same, count_matched-holders rf sized self (suc n))
                  (elim (Bool-cases (ltb (rf.peers / 2) (holders rf (suc n)))) [
                    | inl enough ↦ rw enough (record {
                      grows = ground arith;
                      chosen = inr (
                        record {
                          entry = e;
                          found = p;
                          own_term = ground arith;
                          majority = ground arith;
                        },
                        omega arith,
                      );
                      latest = λ k a b c. omega arith;
                    })
                    | inr few ↦ rw few (
                        IsAdvance-suc n (find_commit rf n) (λ c. let m = c.majority in ground arith)
                          (find_commit-IsAdvance n (omega arith)))
                  ])
            | inr other ↦ rw other (
                IsAdvance-suc n (find_commit rf n)
                  (λ c. let q = c.found in let t = c.own_term in ground arith)
                  (find_commit-IsAdvance n (omega arith)))
          ])
  ]

  -- tryAdvanceCommitLocked ends without a panic and changes nothing but the commit index. That never
  -- falls, and where it moves it moves to the last index of the log whose entry has the leader's
  -- own term and is held by a majority of the servers.
  pub try_advance_commit_locked-IsAdvance :
      0 < length rf.log
      → Ends
          (λ (l : Led C).
            IsAdvance rf (last_log_index_locked rf.log) l.node.commit_index
            × (l.node ≡ record rf { commit_index = l.node.commit_index }))
          (try_advance_commit_locked rf)
  unfolding try_advance_commit_locked
  try_advance_commit_locked-IsAdvance h =
      ground (arith, find_commit-IsAdvance (length rf.log - 1) (omega arith))
