-- ===== src/MapReduce/Map.antt =====
-- src/mapreduce/common_map.go. `none` is a panic: a division by zero.
pub mod Partition
pub mod Overwrite
use cs.Prelude.{
  ℕ, zero, suc, ◌%◌, Bool, true, false, List, [], ◌∷◌, ◌++◌, Option, none, some, Text, ◌==◌,
  if◌then◌else◌, ◌>>=◌,
}
use cs.Prelude.Dicts.{Dict, lookup, insert}
use cs.MapReduce.Defs.{ihash, KeyValue, Files, reduce_name, or_empty}

-- Whether encs[r] is set; `opened` holds the indices for which it is.
unfoldable pub is_open : ℕ → List ℕ → Bool
is_open r [] = false
is_open r (i ∷ opened) = let rest = is_open r opened in if i == r then true else rest

unfoldable pub append_to : Text → KeyValue → Dict (List KeyValue) → Dict (List KeyValue)
append_to name kv d = insert name (or_empty (lookup name d) ++ kv ∷ []) d

-- The loop over the pairs. The first pair of a partition creates its file, empty.
unfoldable pub emit_all :
    Text
    → (task n_reduce : ℕ) → List KeyValue
    → (opened : List ℕ) → Dict (List KeyValue)
    → Option (Dict (List KeyValue))
unfolding is_open append_to
emit_all job task n [] opened d = some d
emit_all job task zero (kv ∷ kvs) opened d = none
emit_all job task (suc n) (kv ∷ kvs) opened d =
    let r = ihash kv.key % suc n in
    let name = reduce_name job task r in
    emit_all job task (suc n) kvs (if is_open r opened then opened else r ∷ opened)
      (append_to name kv (if is_open r opened then d else insert name [] d))

-- An input file that cannot be read counts as empty.
unfoldable pub do_map :
    Text
    → (task : ℕ) → (in_file : Text) → (n_reduce : ℕ) → (map_f : Text → Text → List KeyValue) → Files
    → Option Files
unfolding emit_all
do_map job task in_file n_reduce map_f fs =
    emit_all job task n_reduce (map_f in_file (or_empty (lookup in_file fs.plain))) [] fs.records
    >>= λ records. some (record fs { records = records })
