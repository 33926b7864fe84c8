-- ===== src/MapReduce/Master/Report.antt =====
-- The output file of a sequential job of src/mapreduce, line by line.
use cs.Prelude.{
  ℕ, suc, ◌%◌, ◌≤◌, ◌≡◌, refl, sym, ap, subst, ◌∙◌, Bool, true, ◌&&◌, List, [], ◌∷◌, ◌++◌, Option,
  none, some, Text, arith, length, get_elem?, leb, =ᵗ_refl, count, contains, contains-count,
  if◌then◌else◌,
}
use cs.Prelude.Dicts.{Dict, lookup, insert, keys, has, contains-keys, has-lookup}
use cs.MapReduce.Defs.{ihash, KeyValue, Files, prefix, reduce_name, merge_name}
use cs.MapReduce.Reduce.{sort}
use cs.MapReduce.Reduce.Sorting.{IsSorted, sort-IsSorted, count-sort}
use cs.MapReduce.Reduce.Grouping.{values_of, has_key}
use cs.MapReduce.Master.{merge, print_all, reduce_tasks, sequential}
use cs.MapReduce.Master.Partitions.{
  all_from, all_pairs, all_from-all_pairs, map_tasks-pairs, reduce_tasks-results,
}
use cs.MapReduce.Master.Jobs.{merge_from-runs}
use cs.MapReduce.Master.Merging.{lookup-merge_from, merge_from-once, contains-keys_of}

-- The lines of the output: a key, and what the reduce function gives for all its values.
unfoldable pub report : (Text → List Text → Text) → List KeyValue → List Text → Text
report reduce_f pairs [] = []
report reduce_f pairs (k ∷ ks) =
    k ++ 58 ∷ 32 ∷ [] ++ reduce_f k (values_of k pairs) ++ 10 ∷ [] ++ report reduce_f pairs ks

print_all-report :
    (reduce_f : Text → List Text → Text) (pairs : List KeyValue) (kvs : Dict Text) (ks : List Text)
    → ((k : Text) → contains ks k ≡ true → lookup k kvs ≡ some (reduce_f k (values_of k pairs)))
    → print_all kvs ks ≡ report reduce_f pairs ks
unfolding print_all report contains
print_all-report reduce_f pairs kvs [] h = refl
print_all-report reduce_f pairs kvs (k ∷ ks) h =
    rw
      (
        h k (rw (=ᵗ_refl k) refl),
        print_all-report reduce_f pairs kvs ks (λ j c. h j (ground arith)),
      )
      refl

has_of_lookup :
    (k v : Text) (b : Bool) (d : Dict Text)
    → lookup k d ≡ (if b then some v else none)
    → has k d ≡ b
unfolding has
has_of_lookup k v b d h = ground (arith, h)

count_once :
    (k : Text) (ks : List Text) (b : Bool)
    → count k ks ≤ 1
    → contains ks k ≡ b
    → count k ks ≡ (if b then 1 else 0)
count_once k ks b h e = ground (arith, contains-count ks k)

from_zero :
    (x : ℕ) (b : Bool) (v : Option Text) (k : Text)
    → (if leb 0 x && b then v else lookup k []) ≡ (if b then v else none)
unfolding lookup
from_zero x b v k = ground arith

report_from :
    (job : Text) (files : List Text) (n : ℕ) (map_f : Text → Text → List KeyValue)
    (reduce_f : Text → List Text → Text) (fs : Files)
    → ((m r : ℕ) → lookup (reduce_name job m r) fs.records ≡ none)
    → let pairs = all_from job files n map_f fs.plain (length files) 0 in
      (out : Files) × (ks : List Text) × (sequential job files (suc n) map_f reduce_f fs ≡ some out)
      × IsSorted ks
      × ((k : Text) → count k ks ≡ (if has_key k pairs then 1 else 0))
      × (out.plain ≡ insert (prefix ++ job) (report reduce_f pairs ks) fs.plain)
unfolding sequential merge keys count
report_from job files n map_f reduce_f fs fresh =
    let pairs = all_from job files n map_f fs.plain (length files) 0 in
    let (mapped, e, plain, reads) = map_tasks-pairs job files n map_f fs fresh in
    let reduced_files = reduce_tasks job (suc n) 0 (length files) reduce_f mapped in
    let (plain', results) = reduce_tasks-results job (suc n) (length files) reduce_f mapped in
    let (kvs, p) = merge_from-runs job (suc n) 0 reduced_files.records [] (λ j a b.
      has-lookup (merge_name job j) reduced_files.records (results j (omega (arith, b)))) in
    let looked = λ (k : Text).
      lookup-merge_from job n (length files) reduce_f pairs mapped reduced_files.records (suc n) 0
        [] kvs (λ r h. reads r) results (omega arith) p k
      ∙ from_zero (ihash k % suc n) (has_key k pairs) (some (reduce_f k (values_of k pairs))) k in
    let counted = λ (k : Text).
      count-sort k (keys kvs)
      ∙ count_once k (keys kvs) (has_key k pairs)
          (merge_from-once job (suc n) 0 reduced_files.records [] kvs (λ i. omega arith) p k)
          (contains-keys k kvs
            ∙ has_of_lookup k (reduce_f k (values_of k pairs)) (has_key k pairs) kvs (looked k)) in
    let ks = sort (keys kvs) in
    (
      record reduced_files {
        plain = insert (prefix ++ job) (print_all kvs ks) reduced_files.plain;
      },
      ks,
      rw (e, p) refl,
      sort-IsSorted (keys kvs),
      counted,
      ap (λ t. insert (prefix ++ job) t reduced_files.plain)
            (print_all-report reduce_f pairs kvs ks (λ k c.
              looked k ∙ rw (sym (contains-keys_of k ks (has_key k pairs) (counted k)) ∙ c) refl))
          ∙ ap (insert (prefix ++ job) (report reduce_f pairs ks)) (plain' ∙ plain),
    )

-- A sequential job with at least one reduce task and no intermediate file from before ends, and writes
-- its output file: a line for each key that the map function gave for some input file, and no other
-- line, sorted by key; the line has what the reduce function gives for the key and all its values, in
-- the order of the input files and of the pairs. It changes no other plain file.
pub sequential-report :
    (job : Text) (files : List Text) (n : ℕ) (map_f : Text → Text → List KeyValue)
    (reduce_f : Text → List Text → Text) (fs : Files)
    → ((m r : ℕ) → lookup (reduce_name job m r) fs.records ≡ none)
    → let pairs = all_pairs map_f fs.plain files in
      (out : Files) × (ks : List Text) × (sequential job files (suc n) map_f reduce_f fs ≡ some out)
      × IsSorted ks
      × ((k : Text) → count k ks ≡ (if has_key k pairs then 1 else 0))
      × (out.plain ≡ insert (prefix ++ job) (report reduce_f pairs ks) fs.plain)
sequential-report job files n map_f reduce_f fs fresh =
    subst
      (λ pairs.
        (out : Files) × (ks : List Text) × (sequential job files (suc n) map_f reduce_f fs
          ≡ some out)
        × IsSorted ks
        × ((k : Text) → count k ks ≡ (if has_key k pairs then 1 else 0))
        × (out.plain ≡ insert (prefix ++ job) (report reduce_f pairs ks) fs.plain))
      (all_from-all_pairs job files files n 0 map_f fs.plain
        (λ j. ap (get_elem? files) (omega arith)))
      (report_from job files n map_f reduce_f fs fresh)
