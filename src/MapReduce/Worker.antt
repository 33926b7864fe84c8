-- ===== src/MapReduce/Worker.antt =====
-- src/mapreduce/worker.go: DoTask, Shutdown, and RunWorker once the worker is registered.
pub mod Exits
pub mod Waits
use cs.Prelude.{
  ℕ, ℤ, pos, ◌==ℤ◌, decrement, increment, Bool, true, false, List, [], ◌∷◌, Option, none, some,
  Text, if◌then◌else◌,
}
use cs.MapReduce.Defs.{KeyValue, Files}
use cs.MapReduce.Map.{do_map}
use cs.MapReduce.Reduce.{do_reduce}

pub data JobPhase : Type 0 where
  map_phase reduce_phase : JobPhase

pub record DoTaskArgs : Type 0 where
  pub job_name : Text
  pub file : Text
  pub phase : JobPhase
  pub task_number : ℕ
  pub num_other_phase : ℕ

-- The counters, and the functions of the job.
pub record Worker : Type 0 where
  pub map_f : Text → Text → List KeyValue
  pub reduce_f : Text → List Text → Text
  pub n_rpc : ℤ
  pub n_tasks : ℤ

-- `none` is a panic.
unfoldable pub do_task : DoTaskArgs → Worker → Files → Option Files
do_task args wk fs = elim args.phase [
  | map_phase ↦ do_map args.job_name args.task_number args.file args.num_other_phase wk.map_f fs
  | reduce_phase ↦
      some (do_reduce args.job_name args.task_number args.num_other_phase wk.reduce_f fs)
]

-- Shutdown's reply is the number of tasks before the call.
unfoldable pub shutdown : Worker → Worker
shutdown wk = record wk { n_rpc = pos 1; n_tasks = decrement wk.n_tasks }

unfoldable pub shutdown_reply : Worker → ℤ
shutdown_reply wk = wk.n_tasks

-- Where the loop of RunWorker is: before its test, in Accept, before it counts the task, or done.
pub data Point : Type 0 where
  testing accepting counting exited : Point

pub record Serving : Type 0 where
  pub worker : Worker
  pub point : Point

-- What happens next: the loop goes on by itself, Accept gives a connection or an error, or the
-- handler of Shutdown runs.
pub data Event : Type 0 where
  goes_on connected failed stopped : Event

unfoldable pub go_on : Point → Worker → Serving
go_on testing wk = record { worker = wk; point = if wk.n_rpc ==ℤ pos 0 then exited else accepting }
go_on accepting wk = record { worker = wk; point = accepting }
go_on counting wk = record {
  worker = record wk { n_tasks = increment wk.n_tasks };
  point = testing;
}
go_on exited wk = record { worker = wk; point = exited }

unfoldable pub connect : Point → Worker → Serving
connect testing wk = record { worker = wk; point = testing }
connect accepting wk = record {
  worker = record wk { n_rpc = decrement wk.n_rpc };
  point = counting;
}
connect counting wk = record { worker = wk; point = counting }
connect exited wk = record { worker = wk; point = exited }

-- An error of Accept ends the loop.
unfoldable pub refuse : Point → Point
refuse testing = testing
refuse accepting = exited
refuse counting = counting
refuse exited = exited

unfoldable pub serve : Event → Serving → Serving
unfolding go_on connect refuse shutdown
serve goes_on s = go_on s.point s.worker
serve connected s = connect s.point s.worker
serve failed s = record s { point = refuse s.point }
serve stopped s = record s { worker = shutdown s.worker }

unfoldable pub serve_all : List Event → Serving → Serving
serve_all [] s = s
serve_all (e ∷ es) s = serve_all es (serve e s)

-- RunWorker with its parameter nRPC, at the head of its loop.
unfoldable pub run_worker : (Text → Text → List KeyValue) → (Text → List Text → Text) → ℤ → Serving
run_worker map_f reduce_f n_rpc = record {
  worker = record { map_f = map_f; reduce_f = reduce_f; n_rpc = n_rpc; n_tasks = pos 0 };
  point = testing;
}
