-- ===== src/MapReduce/Samples/Jobs.antt =====
-- The theorems about whole jobs of src/mapreduce at concrete jobs.
use cs.Prelude.{
  ℤ, pos, ◌≡◌, inl, refl, List, [], ◌∷◌, ◌++◌, Option, none, some, Text, count, if◌then◌else◌, ◌=ᵗ◌,
}
use cs.Prelude.Decimal.{itoa}
use cs.Prelude.Dicts.{lookup, insert}
use cs.Prelude.Every.{Every}
use cs.MapReduce.Defs.{Files, prefix, reduce_name, merge_name, ihash}
use cs.MapReduce.Map.{do_map}
use cs.MapReduce.Reduce.{do_reduce}
use cs.MapReduce.Reduce.Sorting.{IsSorted}
use cs.MapReduce.Reduce.Grouping.{has_key}
use cs.MapReduce.Master.{merge, sequential}
use cs.MapReduce.Master.Partitions.{all_pairs}
use cs.MapReduce.Master.Report.{report, sequential-report}
use cs.MapReduce.Worker.{map_phase, Worker, run_worker}
use cs.MapReduce.Schedule.{
  Pool, Scheduling, Event, registers, takes, answers, fails, fails_late, scheduled, advance,
  run_events, schedule, distributed, Finished, waiting,
}
use cs.MapReduce.Schedule.Distributed.{SameFiles, job_of, distributed-SameFiles}
use cs.MapReduce.Schedule.Finishes.{IsWork, schedule-can_finish}
use cs.MapReduce.Samples.{map_bytes, take_all, sample_files}

abbrev worker : Worker
worker = (run_worker map_bytes take_all (pos 100)).worker

abbrev empty_pool : Pool
empty_pool = record { workers = []; register_channel = [] }

-- The one map task runs twice: the reply of the first worker is lost.
abbrev map_events : List Event
map_events =
    registers (1 ∷ [])
    ∷ registers (2 ∷ [])
    ∷ takes 0 (2 ∷ [])
    ∷ fails_late 0 (2 ∷ [])
    ∷ takes 0 (1 ∷ [])
    ∷ answers 0 (1 ∷ [])
    ∷ []

abbrev reduce_events : List Event
reduce_events = takes 0 (1 ∷ []) ∷ answers 0 (1 ∷ []) ∷ []

no_reply : Text → Option ℤ
no_reply w = none

abbrev result_of : Option Finished → Finished
result_of none = record { stats = []; store = sample_files }
result_of (some f) = f

abbrev one_job : Option Finished
one_job =
    distributed (job_of [] ((102 ∷ []) ∷ []) 0 worker) worker no_reply map_events reduce_events
      empty_pool sample_files

one_job_ends : one_job ≡ some (result_of one_job)
unfolding distributed advance ◌=ᵗ◌ do_map run_worker lookup merge do_reduce insert ihash reduce_name
    itoa merge_name
one_job_ends = refl

distributed-SameFiles_example :
    (seq : Files) × (sequential [] ((102 ∷ []) ∷ []) 1 worker.map_f worker.reduce_f sample_files
      ≡ some seq)
    × SameFiles (result_of one_job).store seq
distributed-SameFiles_example =
    distributed-SameFiles [] ((102 ∷ []) ∷ []) 0 worker no_reply map_events reduce_events empty_pool
      sample_files (result_of one_job) one_job_ends

-- Two tasks; after one worker failed, the other one waits on the channel.
abbrev two_files : List Text
two_files = (102 ∷ []) ∷ (102 ∷ []) ∷ []

abbrev half_way : List Event
half_way = registers (1 ∷ []) ∷ registers (2 ∷ []) ∷ takes 0 (2 ∷ []) ∷ fails 0 (2 ∷ []) ∷ []

abbrev half_state : Scheduling
half_state = record {
  pool = record { workers = (1 ∷ []) ∷ (2 ∷ []) ∷ []; register_channel = (1 ∷ []) ∷ [] };
  tasks = waiting ∷ waiting ∷ [];
  store = sample_files;
}

half_way_reached :
    run_events
      (job_of [] two_files 0 worker)
      worker
      map_phase
      half_way
      (scheduled map_phase (job_of [] two_files 0 worker) empty_pool sample_files)
    ≡ some half_state
unfolding run_events scheduled ◌=ᵗ◌ advance
half_way_reached = refl

-- The worker that is left carries out both.
schedule-can_finish_example :
    (more : List Event) × (s' : Scheduling) × Every IsWork more
    × (schedule
          (job_of [] two_files 0 worker)
          worker
          map_phase
          (half_way ++ more)
          empty_pool
          sample_files
        ≡ some s')
schedule-can_finish_example =
    schedule-can_finish [] two_files 0 worker map_phase half_way empty_pool sample_files half_state
      half_way_reached (inl ((1 ∷ []), [], refl))

sequential-report_example :
    let pairs = all_pairs map_bytes sample_files.plain ((102 ∷ []) ∷ []) in
    (out : Files) × (ks : List Text) × (sequential []
        ((102 ∷ []) ∷ [])
        3
        map_bytes
        take_all
        sample_files
      ≡ some out)
    × IsSorted ks
    × ((k : Text) → count k ks ≡ (if has_key k pairs then 1 else 0))
    × (out.plain ≡ insert prefix (report take_all pairs ks) sample_files.plain)
unfolding lookup
sequential-report_example =
    sequential-report [] ((102 ∷ []) ∷ []) 2 map_bytes take_all sample_files (λ m r. refl)
