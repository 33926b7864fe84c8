-- ===== src/MapReduce/Schedule.antt =====
-- src/mapreduce/schedule.go, and Register, killWorkers, Distributed and run of master.go. A phase is
-- a sequence of events: what the goroutines of the tasks do, in the order in which it happens.
pub mod Refines
pub mod Finishes
pub mod Distributed
use cs.Prelude.{
  ℕ, ℤ, Bool, true, false, List, [], ◌∷◌, ◌++◌, Option, none, some, Text, length, get_elem?, set,
  replicate, ◌=ᵗ◌, if◌then◌else◌, ◌>>=◌,
}
use cs.MapReduce.Defs.{Files}
use cs.MapReduce.Master.{merge}
use cs.MapReduce.Worker.{JobPhase, map_phase, reduce_phase, DoTaskArgs, Worker, do_task}

-- The fields of Master that run sets.
pub record Job : Type 0 where
  pub job_name : Text
  pub files : List Text
  pub n_reduce : ℕ

-- The workers, and those that a goroutine offers on registerChannel.
pub record Pool : Type 0 where
  pub workers : List Text
  pub register_channel : List Text

unfoldable pub register : Text → Pool → Pool
register w p = record {
  workers = p.workers ++ w ∷ [];
  register_channel = p.register_channel ++ w ∷ [];
}

-- Where the goroutine of a task is: at its receive from registerChannel, in its call, or done.
pub data TaskState : Type 0 where
  waiting done : TaskState
  calling : Text → TaskState

pub record Scheduling : Type 0 where
  pub pool : Pool
  pub tasks : List TaskState
  pub store : Files

-- A worker registers; a task takes a worker; its call returns true; it returns false, and the worker
-- did not run the task, or did.
pub data Event : Type 0 where
  registers : Text → Event
  takes answers fails fails_late : ℕ → Text → Event

unfoldable pub n_tasks : JobPhase → Job → ℕ
n_tasks map_phase job = length job.files
n_tasks reduce_phase job = job.n_reduce

unfoldable pub n_ios : JobPhase → Job → ℕ
n_ios map_phase job = job.n_reduce
n_ios reduce_phase job = length job.files

-- `none` is a panic: an index out of range.
unfoldable pub file_of : JobPhase → Job → ℕ → Option Text
file_of map_phase job task = get_elem? job.files task
file_of reduce_phase job task = some []

-- The call of a task, carried out by a worker.
unfoldable pub run_task : Job → Worker → JobPhase → ℕ → Files → Option Files
unfolding file_of n_ios do_task
run_task job wk phase task fs = file_of phase job task >>= λ file.
    do_task
      (record {
        job_name = job.job_name;
        file = file;
        phase = phase;
        task_number = task;
        num_other_phase = n_ios phase job;
      })
      wk fs

-- A receive of the worker w from the channel.
unfoldable pub receive : Text → List Text → Option (List Text)
receive w [] = none
receive w (v ∷ vs) =
    let rest = receive w vs in if v =ᵗ w then some vs else (rest >>= λ us. some (v ∷ us))

unfoldable pub is_waiting : TaskState → Bool
is_waiting waiting = true
is_waiting done = false
is_waiting (calling v) = false

unfoldable pub is_calling : Text → TaskState → Bool
is_calling w waiting = false
is_calling w done = false
is_calling w (calling v) = v =ᵗ w

unfoldable pub is_done : TaskState → Bool
is_done waiting = false
is_done done = true
is_done (calling v) = false

-- The state of a task, where the test holds of it.
unfoldable pub guarded : (TaskState → Bool) → ℕ → List TaskState → Option TaskState
guarded test task tasks = get_elem? tasks task >>= λ state. if test state then some state else none

unfoldable pub give_back : Text → Pool → Pool
give_back w p = record p { register_channel = p.register_channel ++ w ∷ [] }

-- `none` where the event is not possible, or a panic.
unfoldable pub advance : Job → Worker → JobPhase → Event → Scheduling → Option Scheduling
unfolding register guarded receive run_task give_back is_waiting is_calling
advance job wk phase (registers w) s = some (record s { pool = register w s.pool })
advance job wk phase (takes task w) s = guarded is_waiting task s.tasks >>= λ state.
    receive w s.pool.register_channel >>= λ channel. some (record s {
      pool = record s.pool { register_channel = channel };
      tasks = set s.tasks task (calling w);
    })
advance job wk phase (answers task w) s = guarded (is_calling w) task s.tasks >>= λ state.
    run_task job wk phase task s.store >>= λ fs.
    some (record { pool = give_back w s.pool; tasks = set s.tasks task done; store = fs })
advance job wk phase (fails task w) s = guarded (is_calling w) task s.tasks >>= λ state.
    some (record s { tasks = set s.tasks task waiting })
advance job wk phase (fails_late task w) s = guarded (is_calling w) task s.tasks >>= λ state.
    run_task job wk phase task s.store >>= λ fs.
    some (record s { tasks = set s.tasks task waiting; store = fs })

unfoldable pub run_events : Job → Worker → JobPhase → List Event → Scheduling → Option Scheduling
run_events job wk phase [] s = some s
run_events job wk phase (e ∷ es) s =
    advance job wk phase e s >>= λ s'. run_events job wk phase es s'

unfoldable pub all_done : List TaskState → Bool
unfolding is_done
all_done [] = true
all_done (t ∷ ts) = let rest = all_done ts in if is_done t then rest else false

unfoldable pub scheduled : JobPhase → Job → Pool → Files → Scheduling
unfolding n_tasks
scheduled phase job pool fs = record {
  pool = pool;
  tasks = replicate (n_tasks phase job) waiting;
  store = fs;
}

-- schedule returns once it has received from doneChan for each task.
unfoldable pub schedule : Job → Worker → JobPhase → List Event → Pool → Files → Option Scheduling
unfolding scheduled run_events all_done
schedule job wk phase es pool fs = run_events job wk phase es (scheduled phase job pool fs) >>= λ s.
    if all_done s.tasks then some s else none

-- `reply` is what the Shutdown call of a worker gives, if it returns true.
unfoldable pub kill_workers : (reply : Text → Option ℤ) → List Text → List ℤ
kill_workers reply [] = []
kill_workers reply (w ∷ ws) =
    let rest = kill_workers reply ws in elim (reply w) [ none ↦ rest | some n ↦ n ∷ rest ]

pub record Finished : Type 0 where
  pub stats : List ℤ
  pub store : Files

-- run with the phases of Distributed, from a given pool of workers on.
unfoldable pub distributed :
    Job
    → Worker
    → (reply : Text → Option ℤ) → (maps reduces : List Event) → Pool
    → Files
    → Option Finished
unfolding schedule kill_workers
distributed job wk reply maps reduces pool fs = schedule job wk map_phase maps pool fs >>= λ m.
    schedule job wk reduce_phase reduces m.pool m.store >>= λ r.
    merge job.job_name job.n_reduce r.store >>= λ merged.
    some (record { stats = kill_workers reply r.pool.workers; store = merged })
