-- ===== src/MapReduce/Master/Jobs.antt =====
-- Whole jobs of src/mapreduce: Sequential, and CleanupFiles after it.
use cs.Prelude.{
  ℕ, zero, suc, ◌+◌, ◌≤◌, ◌<◌, ◌≡◌, ◌≢◌, refl, ap, ◌∙◌, true, false, List, [], ◌∷◌, ◌++◌, none,
  some, Text, arith, length, ◌=ᵗ◌, =ᵗ_refl, ◌==◌, ==_iff, subst, if◌then◌else◌, inl, inr,
  Bool-cases, Option-cases,
}
use cs.Prelude.Dicts.{Dict, lookup, insert, keys, has, lookup-insert}
use cs.MapReduce.Defs.{KeyValue, Files, prefix, reduce_name, merge_name}
use cs.MapReduce.Map.Partition.{do_map-partitions}
use cs.MapReduce.Reduce.{sort, do_reduce}
use cs.MapReduce.Master.{
  put_all, print_all, merge_from, merge, map_tasks, reduce_tasks, sequential, erase, remove_file,
  remove_row, remove_rows, cleanup_files,
}

has-insert :
    {A : Type 0} (k j : Text) (v : A) (d : Dict A)
    → has k (insert j v d) ≡ (if j =ᵗ k then true else has k d)
unfolding has
has-insert k j v d = ground (arith, lookup-insert j k v d)

insert-keeps :
    {A : Type 0} (k j : Text) (v : A) (d : Dict A) → has k d ≡ true → has k (insert j v d) ≡ true
insert-keeps k j v d h = ground (arith, has-insert k j v d)

insert-creates : {A : Type 0} (k : Text) (v : A) (d : Dict A) → has k (insert k v d) ≡ true
insert-creates k v d = has-insert k k v d ∙ rw (=ᵗ_refl k) refl

module _ (job : Text) (reduce_f : Text → List Text → Text) (n_map : ℕ) where
  do_reduce-keeps :
      (i : ℕ) (k : Text) (fs : Files)
      → has k fs.records ≡ true
      → has k (do_reduce job i n_map reduce_f fs).records ≡ true
  unfolding do_reduce
  do_reduce-keeps i k fs h = insert-keeps k (merge_name job i) _ fs.records h

  reduce_tasks-keeps :
      (rounds i : ℕ) (k : Text) (fs : Files)
      → has k fs.records ≡ true
      → has k (reduce_tasks job rounds i n_map reduce_f fs).records ≡ true
  unfolding reduce_tasks
  reduce_tasks-keeps zero i k fs h = h
  reduce_tasks-keeps (suc rounds) i k fs h =
      reduce_tasks-keeps rounds (i + 1) k (do_reduce job i n_map reduce_f fs)
        (do_reduce-keeps i k fs h)

  do_reduce-creates :
      (i : ℕ) (fs : Files)
      → has (merge_name job i) (do_reduce job i n_map reduce_f fs).records ≡ true
  unfolding do_reduce
  do_reduce-creates i fs = insert-creates (merge_name job i) _ fs.records

  reduce_tasks-creates :
      (rounds i j : ℕ) (fs : Files)
      → i ≤ j
      → j < i + rounds
      → has (merge_name job j) (reduce_tasks job rounds i n_map reduce_f fs).records ≡ true
  unfolding reduce_tasks
  reduce_tasks-creates zero i j fs a b = ground arith
  reduce_tasks-creates (suc rounds) i j fs a b =
      let reduced = do_reduce job i n_map reduce_f fs in
      elim (Bool-cases (i == j)) [
        | inl e ↦
            let same : i ≡ j = (==_iff i j).0 e in
            reduce_tasks-keeps rounds (i + 1) (merge_name job j) reduced (
              subst (λ n. has (merge_name job n) reduced.records ≡ true) same
                (do_reduce-creates i fs))
        | inr e ↦
            reduce_tasks-creates rounds (i + 1) j reduced (ground (arith, ==_iff i j)) (omega arith)
      ]

pub merge_from-runs :
    (job : Text) (rounds i : ℕ) (d : Dict (List KeyValue)) (kvs : Dict Text)
    → ((j : ℕ) → i ≤ j → j < i + rounds → has (merge_name job j) d ≡ true)
    → (out : Dict Text) × (merge_from job rounds i d kvs ≡ some out)
unfolding merge_from has
merge_from-runs job zero i d kvs h = (kvs, refl)
merge_from-runs job (suc rounds) i d kvs h = elim (Option-cases (lookup (merge_name job i) d)) [
  | inl e ↦ absurd (ground (arith, e, h i (omega arith) (omega arith)))
  | inr (file, e) ↦ rw (e) (
      merge_from-runs job rounds (i + 1) d (put_all file kvs)
        (λ j a b. h j (omega arith) (omega arith)))
]

map_tasks-runs :
    (job : Text) (i : ℕ) (files : List Text) (n : ℕ) (map_f : Text → Text → List KeyValue)
    (fs : Files)
    → (fs' : Files) × (map_tasks job i files (suc n) map_f fs ≡ some fs')
unfolding map_tasks
map_tasks-runs job i [] n map_f fs = (fs, refl)
map_tasks-runs job i (f ∷ files) n map_f fs =
    let (mapped, e, _) = do_map-partitions job i f n map_f fs in
    let (done, q) = map_tasks-runs job (i + 1) files n map_f mapped in (done, rw (e) q)

-- A sequential job with at least one reduce task runs to its end, on any files: no task panics, and merge finds the output of every reduce task.
pub sequential-runs :
    (job : Text) (files : List Text) (n : ℕ) (map_f : Text → Text → List KeyValue)
    (reduce_f : Text → List Text → Text) (fs : Files)
    → (fs' : Files) × (sequential job files (suc n) map_f reduce_f fs ≡ some fs')
unfolding sequential merge
sequential-runs job files n map_f reduce_f fs =
    let (mapped, e) = map_tasks-runs job 0 files n map_f fs in
    let reduced = reduce_tasks job (suc n) 0 (length files) reduce_f mapped in
    let (kvs, q) =
      merge_from-runs job (suc n) 0 reduced.records []
        (λ j a b. reduce_tasks-creates job reduce_f (length files) (suc n) 0 j mapped a b) in
    (
      record reduced {
        plain = insert (prefix ++ job) (print_all kvs (sort (keys kvs))) reduced.plain;
      },
      rw (e, q) refl,
    )

erase-missing :
    {A : Type 0} (k m : Text) (d : Dict A) → lookup m d ≡ none → lookup m (erase k d) ≡ none
unfolding erase lookup
erase-missing k m [] h = h
erase-missing k m ((j, v) ∷ d) h = ground (arith, erase-missing k m d)

missing-has : {A : Type 0} (k : Text) (d : Dict A) → lookup k d ≡ none → has k d ≡ false
unfolding has
missing-has k d h = ground (arith, h)

-- Among the files that a loop removes, the missing one is met: the program ends.
remove_row-missing :
    (job : Text) (i rounds j k : ℕ) (d : Dict (List KeyValue))
    → j ≤ k
    → k < j + rounds
    → lookup (reduce_name job i k) d ≡ none
    → remove_row job i rounds j d ≡ none
unfolding remove_row remove_file
remove_row-missing job i zero j k d a b h = absurd (omega arith)
remove_row-missing job i (suc rounds) j k d a b h =
    let name = reduce_name job i in
    let absent = missing-has (name k) d h in
    elim (Bool-cases (has (name j) d)) [
      | inr e ↦ rw (e) refl
      | inl e ↦
          let other : j ≢ k = λ q. ground (arith, e, absent, ap (λ n. has (name n) d) q) in
          rw (e) (
            remove_row-missing job i rounds (j + 1) k (erase (name j) d) (ground arith)
              (omega arith) (erase-missing (name j) (name k) d h))
    ]

-- A file that is missing before a loop is missing after it.
remove_row-keeps :
    (job : Text) (i rounds j : ℕ) (m : Text) (d d' : Dict (List KeyValue))
    → lookup m d ≡ none
    → remove_row job i rounds j d ≡ some d'
    → lookup m d' ≡ none
unfolding remove_row remove_file
remove_row-keeps job i zero j m d d' h e = ground (arith, h, e)
remove_row-keeps job i (suc rounds) j m d d' h e =
    let name = reduce_name job i j in
    ground (
      arith,
      e,
      erase-missing name m d h,
      remove_row-keeps job i rounds (j + 1) m (erase name d) d',
    )

remove_rows-missing :
    (job : Text) (rounds i n_reduce j k : ℕ) (d : Dict (List KeyValue))
    → i ≤ j
    → j < i + rounds
    → k < n_reduce
    → lookup (reduce_name job j k) d ≡ none
    → remove_rows job rounds i n_reduce d ≡ none
unfolding remove_rows
remove_rows-missing job zero i n_reduce j k d a b c h = absurd (omega arith)
remove_rows-missing job (suc rounds) i n_reduce j k d a b c h =
    elim (Option-cases (remove_row job i n_reduce 0 d)) [
      | inl e ↦ rw (e) refl
      | inr (d', e) ↦
          let later : i ≢ j = λ q.
            let met =
              remove_row-missing job i n_reduce 0 k d (omega arith) (omega arith)
                (ap (λ n. lookup (reduce_name job n k) d) q ∙ h) in
            ground (arith, e, met) in
          rw (e) (
            remove_rows-missing job rounds (i + 1) n_reduce j k d' (ground arith) (omega arith) c
              (remove_row-keeps job i n_reduce 0 (reduce_name job j k) d d' h e))
    ]

-- CleanupFiles ends the program if the intermediate file of any map task and reduce task of the job
-- is missing, which doMap does not create for a partition without a pair.
pub cleanup_files-missing :
    (job : Text) (n_files n_reduce task r : ℕ) (fs : Files)
    → task < n_files
    → r < n_reduce
    → lookup (reduce_name job task r) fs.records ≡ none
    → cleanup_files job n_files n_reduce fs ≡ none
unfolding cleanup_files
cleanup_files-missing job n_files n_reduce task r fs a b h =
    rw
      (remove_rows-missing job n_files 0 n_reduce task r fs.records (omega arith) (omega arith) b h)
      refl
