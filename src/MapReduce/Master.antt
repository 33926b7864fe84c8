-- ===== src/MapReduce/Master.antt =====
-- src/mapreduce/master_splitmerge.go, and Sequential and run of master.go. `none` is an end of the
-- program: log.Fatal or a panic.
pub mod Jobs
pub mod Partitions
pub mod Merging
pub mod Report
use cs.Prelude.{
  ℕ, zero, suc, ◌+◌, Bool, true, false, List, [], ◌∷◌, ◌++◌, Option, none, some, Text, ◌=ᵗ◌, length,
  if◌then◌else◌, ◌>>=◌,
}
use cs.Prelude.Dicts.{Dict, lookup, insert, keys, has}
use cs.MapReduce.Defs.{KeyValue, Files, prefix, reduce_name, merge_name, or_empty}
use cs.MapReduce.Map.{do_map}
use cs.MapReduce.Reduce.{sort, do_reduce}

-- kvs[kv.Key] = kv.Value for the records of a file
unfoldable pub put_all : List KeyValue → Dict Text → Dict Text
put_all [] kvs = kvs
put_all (kv ∷ rest) kvs = put_all rest (insert kv.key kv.value kvs)

-- The loop over the outputs of the reduce tasks; `rounds` counts those that are left.
unfoldable pub merge_from :
    Text → (rounds i : ℕ) → Dict (List KeyValue) → Dict Text → Option (Dict Text)
unfolding put_all
merge_from job zero i d kvs = some kvs
merge_from job (suc rounds) i d kvs =
    lookup (merge_name job i) d >>= λ file. merge_from job rounds (i + 1) d (put_all file kvs)

-- "%s: %s\n" for each key
unfoldable pub print_all : Dict Text → List Text → Text
print_all kvs [] = []
print_all kvs (k ∷ ks) = k ++ 58 ∷ 32 ∷ [] ++ or_empty (lookup k kvs) ++ 10 ∷ [] ++ print_all kvs ks

unfoldable pub merge : Text → (n_reduce : ℕ) → Files → Option Files
unfolding merge_from print_all sort
merge job n_reduce fs = merge_from job n_reduce 0 fs.records [] >>= λ kvs.
    some (record fs { plain = insert (prefix ++ job) (print_all kvs (sort (keys kvs))) fs.plain })

-- The map phase of Sequential, from the task i on.
unfoldable pub map_tasks :
    Text
    → (i : ℕ) → (files : List Text) → (n_reduce : ℕ) → (Text → Text → List KeyValue)
    → Files
    → Option Files
map_tasks job i [] n_reduce map_f fs = some fs
map_tasks job i (f ∷ files) n_reduce map_f fs =
    do_map job i f n_reduce map_f fs >>= λ fs'. map_tasks job (i + 1) files n_reduce map_f fs'

-- The reduce phase of Sequential, from the task i on; `rounds` counts the tasks that are left.
unfoldable pub reduce_tasks :
    Text → (rounds i n_map : ℕ) → (Text → List Text → Text) → Files → Files
reduce_tasks job zero i n_map reduce_f fs = fs
reduce_tasks job (suc rounds) i n_map reduce_f fs =
    reduce_tasks job rounds (i + 1) n_map reduce_f (do_reduce job i n_map reduce_f fs)

-- run with the phases of Sequential; its statistics are left out.
unfoldable pub sequential :
    Text
    → (files : List Text) → (n_reduce : ℕ) → (map_f : Text → Text → List KeyValue)
    → (reduce_f : Text → List Text → Text) → Files
    → Option Files
unfolding map_tasks reduce_tasks merge
sequential job files n_reduce map_f reduce_f fs =
    map_tasks job 0 files n_reduce map_f fs >>= λ mapped.
    merge job n_reduce (reduce_tasks job n_reduce 0 (length files) reduce_f mapped)

erase : {A : Type 0} → Text → Dict A → Dict A
erase k [] = []
erase k ((j, v) ∷ d) = let rest = erase k d in if j =ᵗ k then rest else (j, v) ∷ rest

-- removeFile ends the program where there is no such file.
unfoldable pub remove_file : {A : Type 0} → Text → Dict A → Option (Dict A)
unfolding erase
remove_file k d = if has k d then some (erase k d) else none

-- The inner loop of CleanupFiles, from the reduce task j on.
unfoldable pub remove_row :
    Text → (i rounds j : ℕ) → Dict (List KeyValue) → Option (Dict (List KeyValue))
remove_row job i zero j d = some d
remove_row job i (suc rounds) j d =
    remove_file (reduce_name job i j) d >>= λ d'. remove_row job i rounds (j + 1) d'

unfoldable pub remove_rows :
    Text → (rounds i n_reduce : ℕ) → Dict (List KeyValue) → Option (Dict (List KeyValue))
unfolding remove_row
remove_rows job zero i n_reduce d = some d
remove_rows job (suc rounds) i n_reduce d =
    remove_row job i n_reduce 0 d >>= λ d'. remove_rows job rounds (i + 1) n_reduce d'

unfoldable pub remove_results :
    Text → (rounds i : ℕ) → Dict (List KeyValue) → Option (Dict (List KeyValue))
remove_results job zero i d = some d
remove_results job (suc rounds) i d =
    remove_file (merge_name job i) d >>= λ d'. remove_results job rounds (i + 1) d'

unfoldable pub cleanup_files : Text → (n_files n_reduce : ℕ) → Files → Option Files
unfolding remove_rows remove_results remove_file
cleanup_files job n_files n_reduce fs = remove_rows job n_files 0 n_reduce fs.records >>= λ rows.
    remove_results job n_reduce 0 rows >>= λ records.
    remove_file (prefix ++ job) fs.plain >>= λ plain.
    some (record { plain = plain; records = records })
