-- ===== src/MapReduce/Reduce.antt =====
-- src/mapreduce/common_reduce.go. A map's keys are sorted before they are used, so that the order in
-- which Go gives them does not matter.
pub mod Sorting
pub mod Grouping
use cs.Prelude.{
  ℕ, zero, suc, ◌+◌, Bool, true, false, ◌&&◌, ◌||◌, List, [], ◌∷◌, ◌++◌, Text, ltb, ◌==◌,
  if◌then◌else◌,
}
use cs.Prelude.Dicts.{Dict, lookup, insert, keys}
use cs.MapReduce.Defs.{KeyValue, Files, reduce_name, merge_name, or_empty}

-- The order of strings by bytes.
unfoldable pub le_text : Text → Text → Bool
le_text [] t = true
le_text (x ∷ xs) [] = false
le_text (x ∷ xs) (y ∷ ys) = ltb x y || (x == y && le_text xs ys)

unfoldable pub insert_sorted : Text → List Text → List Text
insert_sorted x [] = x ∷ []
insert_sorted x (y ∷ ys) =
    let rest = insert_sorted x ys in if le_text x y then x ∷ y ∷ ys else y ∷ rest

-- sort.Strings
unfoldable pub sort : List Text → List Text
unfolding insert_sorted
sort [] = []
sort (x ∷ xs) = insert_sorted x (sort xs)

-- buckets[k]
unfoldable pub bucket : Text → Dict (List Text) → List Text
bucket k b = or_empty (lookup k b)

-- The loop over the records of a file.
unfoldable pub gather : List KeyValue → Dict (List Text) → Dict (List Text)
unfolding bucket
gather [] b = b
gather (kv ∷ kvs) b = gather kvs (insert kv.key (bucket kv.key b ++ kv.value ∷ []) b)

-- The loop over the map tasks; `rounds` counts those that are left. A file that cannot be opened is
-- reported, and read as empty: the decoder fails on it at once.
unfoldable pub read_from :
    Text → (reduce_task rounds m : ℕ) → Dict (List KeyValue) → Dict (List Text) → Dict (List Text)
unfolding gather
read_from job r zero m d b = b
read_from job r (suc rounds) m d b =
    read_from job r rounds (m + 1) d (gather (or_empty (lookup (reduce_name job m r) d)) b)

unfoldable pub reduce_all : (Text → List Text → Text) → Dict (List Text) → List Text → List KeyValue
unfolding bucket
reduce_all reduce_f b [] = []
reduce_all reduce_f b (k ∷ ks) =
    record { key = k; value = reduce_f k (bucket k b) } ∷ reduce_all reduce_f b ks

unfoldable pub do_reduce :
    Text → (reduce_task n_map : ℕ) → (reduce_f : Text → List Text → Text) → Files → Files
unfolding read_from reduce_all sort
do_reduce job r n_map reduce_f fs =
    let buckets = read_from job r n_map 0 fs.records [] in
    record fs {
      records =
          insert (merge_name job r) (reduce_all reduce_f buckets (sort (keys buckets))) fs.records;
    }
