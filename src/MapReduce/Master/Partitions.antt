-- ===== src/MapReduce/Master/Partitions.antt =====
-- The intermediate files and the results of a sequential job of src/mapreduce/master.go.
use cs.Prelude.{
  ℕ, zero, suc, ◌+◌, ◌<◌, ◌≤◌, ◌≡◌, ◌≢◌, refl, sym, ap, ◌∙◌, true, false, List, [], ◌∷◌, ◌++◌, none,
  some, Text, arith, length, get_elem?, ◌==◌, ==_iff, =ᵗ_refl, inl, inr, Option-cases, Bool-cases,
}
use cs.Prelude.Dicts.{Dict, lookup}
use mathlib.Core.Option.{some-injective}
use cs.MapReduce.Defs.{KeyValue, Files, reduce_name, merge_name, or_empty}
use cs.MapReduce.Names.{reduce_name-injective}
use cs.MapReduce.Map.{is_open}
use cs.MapReduce.Map.Partition.{partition, landed, emit_all-landed}
use cs.MapReduce.Map.Overwrite.{outputs, outputs-frame}
use cs.MapReduce.Master.{map_tasks, reduce_tasks}
use cs.MapReduce.Phase.{elem, after, after-written, after-free}
use cs.MapReduce.Phase.Maps.{pairs_of, map_writes, map_writes-AreApart, map_tasks_phase}
use cs.MapReduce.Phase.Reduces.{result, reduce_writes, reduce_tasks_phase}
use cs.MapReduce.Phase.InOrder.{
  numbers_from, elem-numbers_from, in_order-IsAfter, map_tasks-run_all, reduce_tasks-run_all,
}
use cs.MapReduce.Reduce.Grouping.{pairs_from}

partition-append :
    (n r : ℕ) (xs ys : List KeyValue)
    → partition n r (xs ++ ys) ≡ partition n r xs ++ partition n r ys
unfolding partition
partition-append n r [] ys = refl
partition-append n r (x ∷ xs) ys = ground (arith, partition-append n r xs ys)

landed-or_empty : (kvs : List KeyValue) → or_empty (landed false kvs none) ≡ kvs
unfolding landed
landed-or_empty [] = refl
landed-or_empty (x ∷ kvs) = refl

module _ (job : Text) (files : List Text) (n : ℕ) (map_f : Text → Text → List KeyValue) where
  -- All pairs of the map tasks from m on, in order.
  unfoldable pub all_from : Dict Text → (rounds m : ℕ) → List KeyValue
  all_from plain zero m = []
  all_from plain (suc rounds) m =
      pairs_of job files n map_f plain m ++ all_from plain rounds (m + 1)

  map_writes-name :
      (plain : Dict Text) (m r : ℕ)
      → map_writes job files n map_f plain m (reduce_name job m r)
        ≡ landed false (partition (suc n) r (pairs_of job files n map_f plain m)) none
  unfolding map_writes outputs is_open lookup
  map_writes-name plain m r =
      let (d, e, f) = emit_all-landed job m n (pairs_of job files n map_f plain m) [] [] in
      rw (e) (f r)

  map_writes-others :
      (plain : Dict Text) (m u r : ℕ)
      → u ≢ m
      → map_writes job files n map_f plain u (reduce_name job m r) ≡ none
  unfolding map_writes
  map_writes-others plain m u r ne =
      outputs-frame job u n (pairs_of job files n map_f plain u) (reduce_name job m r)
        (λ s e. ne (reduce_name-injective job u s m r e).0)

  after_maps :
      (plain : Dict Text) (ts : List ℕ) (m r : ℕ)
      → elem m ts ≡ true
      → or_empty (after (map_writes job files n map_f plain) ts (reduce_name job m r) none)
        ≡ partition (suc n) r (pairs_of job files n map_f plain m)
  after_maps plain ts m r h =
      let writes = map_writes job files n map_f plain in
      let apart = map_writes-AreApart job files n map_f plain in
      let k = reduce_name job m r in
      let pairs = pairs_of job files n map_f plain m in
      let written = map_writes-name plain m r in
      elim (Option-cases (writes m k)) [
        | inr (v, e) ↦
            ap or_empty (after-written writes apart ts m k v none h e ∙ sym e ∙ written)
            ∙ landed-or_empty (partition (suc n) r pairs)
        | inl e ↦
            ap or_empty (
              after-free writes apart ts k none (λ u q. elim (Bool-cases (u == m)) [
                | inl same ↦ ap (λ t. writes t k) ((==_iff u m).0 same) ∙ e
                | inr other ↦ map_writes-others plain m u r (ground arith)
              ])
              ∙ sym e
              ∙ written)
            ∙ landed-or_empty (partition (suc n) r pairs)
      ]

  -- What a reduce task reads, where the map tasks left their files.
  pairs_from-all_from :
      (plain : Dict Text) (d : Dict (List KeyValue)) (r rounds m : ℕ)
      → ((j : ℕ)
          → m ≤ j
          → j < m + rounds
          → or_empty (lookup (reduce_name job j r) d)
            ≡ partition (suc n) r (pairs_of job files n map_f plain j))
      → pairs_from job r rounds m d ≡ partition (suc n) r (all_from plain rounds m)
  unfolding pairs_from all_from partition
  pairs_from-all_from plain d r zero m h = refl
  pairs_from-all_from plain d r (suc rounds) m h =
      rw
        (
          h m (omega arith) (omega arith),
          partition-append (suc n) r (pairs_of job files n map_f plain m)
              (all_from plain rounds (m + 1)),
        )
        (ap (◌++◌ _)
          (pairs_from-all_from plain d r rounds (m + 1) (λ j a b. h j (omega arith) (omega arith))))

  -- The map tasks in order leave, for each reduce task, its partition of all pairs.
  pub map_tasks-pairs :
      (fs : Files)
      → ((m r : ℕ) → lookup (reduce_name job m r) fs.records ≡ none)
      → (fs' : Files) × (map_tasks job 0 files (suc n) map_f fs ≡ some fs')
        × (fs'.plain ≡ fs.plain)
        × ((r : ℕ)
            → pairs_from job r (length files) 0 fs'.records
              ≡ partition (suc n) r (all_from fs.plain (length files) 0))
  unfolding map_tasks_phase
  map_tasks-pairs fs fresh =
      let ph = map_tasks_phase job files n map_f fs in
      let ts = numbers_from 0 (length files) in
      let (fs', e, (plain, same)) = in_order-IsAfter _ (length files) fs ph in
      (
        fs',
        map_tasks-run_all job files files n 0 map_f fs (λ j. ap (get_elem? files) (omega arith))
            ∙ e,
        plain,
        λ r. pairs_from-all_from fs.plain fs'.records r (length files) 0 (λ j a b.
            let k = reduce_name job j r in
            ap or_empty
              (same k ∙ ap (after (map_writes job files n map_f fs.plain) ts k) (fresh j r))
            ∙ after_maps fs.plain ts j r
                ((elem-numbers_from 0 (length files) j).1 (omega arith) (omega (arith, b)))),
      )

-- The reduce tasks in order leave the result of each in its file.
pub reduce_tasks-results :
    (job : Text) (n n_map : ℕ) (reduce_f : Text → List Text → Text) (fs : Files)
    → let fs' = reduce_tasks job n 0 n_map reduce_f fs in
      (fs'.plain ≡ fs.plain)
      × ((r : ℕ)
          → r < n
          → lookup (merge_name job r) fs'.records ≡ some (result job n_map reduce_f fs.records r))
unfolding reduce_tasks_phase reduce_writes
reduce_tasks-results job n n_map reduce_f fs =
    let ph = reduce_tasks_phase job n_map reduce_f n fs in
    let ts = numbers_from 0 n in
    let (fs', e, (plain, same)) = in_order-IsAfter _ n fs ph in
    let in_turn : fs' ≡ reduce_tasks job n 0 n_map reduce_f fs =
      some-injective _ _ (sym e ∙ sym (reduce_tasks-run_all job n 0 n_map reduce_f fs)) in
    (
      ap (λ z. z.plain) (sym in_turn) ∙ plain,
      λ r h.
          let k = merge_name job r in
          ap (λ z. lookup k z.records) (sym in_turn)
          ∙ same k
          ∙ after-written ph.writes ph.apart ts r k (result job n_map reduce_f fs.records r) _
              ((elem-numbers_from 0 n r).1 (omega arith) (omega (arith, h))) (rw (=ᵗ_refl k) refl),
    )

-- All pairs that the map function gives for the input files, in order.
unfoldable pub all_pairs : (Text → Text → List KeyValue) → Dict Text → List Text → List KeyValue
all_pairs map_f plain [] = []
all_pairs map_f plain (f ∷ files) =
    map_f f (or_empty (lookup f plain)) ++ all_pairs map_f plain files

pub all_from-all_pairs :
    (job : Text) (files rest : List Text) (n m : ℕ) (map_f : Text → Text → List KeyValue)
    (plain : Dict Text)
    → ((j : ℕ) → get_elem? rest j ≡ get_elem? files (m + j))
    → all_from job files n map_f plain (length rest) m ≡ all_pairs map_f plain rest
unfolding all_from all_pairs
all_from-all_pairs job files [] n m map_f plain h = refl
all_from-all_pairs job files (f ∷ rest) n m map_f plain h =
    let here : get_elem? files m ≡ some f = sym (h 0 ∙ ap (get_elem? files) (omega arith)) in
    rw (here) (
      ap (◌++◌ (map_f f (or_empty (lookup f plain)))) (
        all_from-all_pairs job files rest n (m + 1) map_f plain
          (λ j. h (suc j) ∙ ap (get_elem? files) (omega arith))))
