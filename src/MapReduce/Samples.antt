-- ===== src/MapReduce/Samples.antt =====
-- The theorems about src/mapreduce at concrete tasks and jobs.
pub mod Jobs
use cs.Prelude.{
  pos, ℕ, ◌≡◌, refl, ap, false, List, [], ◌∷◌, map, none, some, arith, length, count, Text,
  if◌then◌else◌, ◌=ᵗ◌,
}
use cs.Prelude.Decimal.{itoa}
use cs.Prelude.Dicts.{lookup}
use cs.MapReduce.Defs.{KeyValue, Files, reduce_name, merge_name, or_empty}
use cs.MapReduce.Map.{do_map}
use cs.MapReduce.Map.Partition.{partition, landed, do_map-partitions}
use cs.MapReduce.Reduce.{do_reduce}
use cs.MapReduce.Reduce.Sorting.{IsSorted}
use cs.MapReduce.Reduce.Grouping.{keys_of, has_key, reduced, pairs_from, do_reduce-groups}
use cs.MapReduce.Master.{sequential, cleanup_files}
use cs.MapReduce.Master.Jobs.{sequential-runs, cleanup_files-missing}
use cs.MapReduce.Worker.{
  Serving, accepting, exited, Event, goes_on, connected, stopped, serve_all, run_worker,
}
use cs.MapReduce.Worker.Exits.{AllServed, rounds, run_worker-counts}
use cs.MapReduce.Worker.Waits.{going, shutdown-waits}

-- A pair for each byte of the contents.
abbrev pub map_bytes : Text → Text → List KeyValue
map_bytes file [] = []
map_bytes file (x ∷ xs) = record { key = x ∷ []; value = file } ∷ map_bytes file xs

abbrev pub take_all : Text → List Text → Text
take_all k vs = length vs ∷ []

-- The file "f" with the bytes 5, 6, 5.
abbrev pub sample_files : Files
sample_files = record { plain = (102 ∷ [], 5 ∷ 6 ∷ 5 ∷ []) ∷ []; records = [] }

do_map-partitions_example :
    (fs' : Files) × (do_map [] 0 (102 ∷ []) 3 map_bytes sample_files ≡ some fs')
    × ((r : ℕ)
        → lookup (reduce_name [] 0 r) fs'.records
          ≡ landed false
              (partition 3 r
                (map_bytes (102 ∷ []) (or_empty (lookup (102 ∷ []) sample_files.plain))))
              (lookup (reduce_name [] 0 r) sample_files.records))
do_map-partitions_example = do_map-partitions [] 0 (102 ∷ []) 2 map_bytes sample_files

-- The files of a reduce task that reads one intermediate file.
abbrev mapped_files : Files
mapped_files = record {
  plain = [];
  records =
      (
        reduce_name [] 0 1,
        record { key = 6 ∷ []; value = 1 ∷ [] }
            ∷ record { key = 5 ∷ []; value = 1 ∷ [] }
            ∷ record { key = 6 ∷ []; value = 2 ∷ [] }
            ∷ [],
      )
      ∷ [];
}

do_reduce-groups_example :
    let pairs = pairs_from [] 1 1 0 mapped_files.records in
    (out : List KeyValue) × (lookup
        (merge_name [] 1)
        (do_reduce [] 1 1 take_all mapped_files).records
      ≡ some out)
    × IsSorted (keys_of out)
    × ((k : Text) → count k (keys_of out) ≡ (if has_key k pairs then 1 else 0))
    × (out ≡ map (reduced take_all pairs) (keys_of out))
do_reduce-groups_example = do_reduce-groups [] 1 1 take_all mapped_files

sequential-runs_example :
    (fs' : Files) × (sequential [] ((102 ∷ []) ∷ []) 3 map_bytes take_all sample_files ≡ some fs')
sequential-runs_example = sequential-runs [] ((102 ∷ []) ∷ []) 2 map_bytes take_all sample_files

cleanup_files-missing_example : cleanup_files [] 1 2 mapped_files ≡ none
unfolding lookup reduce_name ◌=ᵗ◌ itoa
cleanup_files-missing_example =
    cleanup_files-missing [] 1 2 0 0 mapped_files (omega arith) (omega arith) refl

-- A worker in Accept.
abbrev idle_worker : Serving
idle_worker = record {
  point = accepting;
  worker = (run_worker map_bytes take_all (pos 100)).worker;
}

shutdown-waits_example :
    let w = serve_all (stopped ∷ going 5) idle_worker in
    (w.point ≡ accepting) × ((serve_all (connected ∷ goes_on ∷ goes_on ∷ []) w).point ≡ exited)
shutdown-waits_example = shutdown-waits idle_worker 3 (λ e. cc)

run_worker-counts_example :
    ((serve_all (rounds 2) (run_worker map_bytes take_all (pos 2))).point ≡ exited)
    × ((es : List Event)
        → AllServed es
        → (serve_all es (run_worker map_bytes take_all (pos 2))).point ≡ exited
        → (serve_all es (run_worker map_bytes take_all (pos 2))).worker.n_tasks ≡ pos 2)
run_worker-counts_example = run_worker-counts map_bytes take_all 2
