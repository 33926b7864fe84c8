-- ===== src/MapReduce/Schedule/Distributed.antt =====
-- Distributed of src/mapreduce/master.go against Sequential: the same files, however the tasks were
-- scheduled.
use cs.Prelude.{
  ℕ, zero, suc, ◌+◌, ℤ, ◌≡◌, refl, sym, ap, ◌∙◌, List, [], Option, some, Text, arith, length,
  get_elem?, subst, ◌=ᵗ◌, if◌then◌else◌, ◌++◌, bind_same, >>=-eq-some,
}
use mathlib.Core.Option.{some-injective}
use cs.Prelude.Dicts.{Dict, lookup, insert, keys}
use cs.MapReduce.Defs.{KeyValue, Files, prefix, merge_name}
use cs.MapReduce.Reduce.{sort}
use cs.MapReduce.Master.{put_all, merge_from, print_all, merge, map_tasks, reduce_tasks, sequential}
use cs.MapReduce.Worker.{map_phase, reduce_phase, Worker}
use cs.MapReduce.Phase.{IsPhase, after-same}
use cs.MapReduce.Phase.Maps.{run_map, map_tasks_phase}
use cs.MapReduce.Phase.Reduces.{
  run_reduce, reduce_tasks_phase, lookup-do_reduce, result, result-same, plain-do_reduce,
}
use cs.MapReduce.Phase.InOrder.{
  run_all, numbers_from, elem-numbers_from, in_order-IsAfter, map_tasks-run_all,
  reduce_tasks-run_all,
}
use cs.MapReduce.Schedule.{
  Job, Pool, Scheduling, Event, n_tasks, run_task, schedule, distributed, Finished,
}
use cs.MapReduce.Schedule.Refines.{schedule-ran}

-- Two file systems with the same files.
abbrev pub SameFiles : Files → Files → Type 0
SameFiles a b = (a.plain ≡ b.plain) × ((k : Text) → lookup k a.records ≡ lookup k b.records)

SameFiles-trans : (a b c : Files) → SameFiles a b → SameFiles b c → SameFiles a c
SameFiles-trans a b c (p, q) (r, s) = (p ∙ r, λ k. q k ∙ s k)

-- What a scheduled phase leaves is what its tasks leave in order.
scheduled-SameFiles :
    (job : Job) (wk : Worker) (phase : _) (fs : Files)
    (ph : IsPhase (run_task job wk phase) (n_tasks phase job) fs) (es : List Event) (pool : Pool)
    (s : Scheduling)
    → schedule job wk phase es pool fs ≡ some s
    → (fs' : Files) × (run_all (run_task job wk phase) (numbers_from 0 (n_tasks phase job)) fs
        ≡ some fs')
      × SameFiles s.store fs'
scheduled-SameFiles job wk phase fs ph es pool s e =
    let n = n_tasks phase job in
    let (ts, (plain, same), only, all) = schedule-ran job wk phase fs ph es pool s e in
    let (fs', q, (plain', same')) = in_order-IsAfter (run_task job wk phase) n fs ph in
    (
      fs',
      q,
      (
        plain ∙ sym plain',
        λ k.
            same k
            ∙ after-same ph.writes ph.apart n ts (numbers_from 0 n) k (lookup k fs.records) only all
                (λ t h. omega (arith, (elem-numbers_from 0 n t).0 h))
                (λ t h. (elem-numbers_from 0 n t).1 (omega arith) (omega (arith, h)))
            ∙ sym (same' k),
      ),
    )

reduce_tasks-SameFiles :
    (job : Text) (rounds i n_map : ℕ) (reduce_f : Text → List Text → Text) (a b : Files)
    → SameFiles a b
    → SameFiles
        (reduce_tasks job rounds i n_map reduce_f a)
        (reduce_tasks job rounds i n_map reduce_f b)
unfolding reduce_tasks
reduce_tasks-SameFiles job zero i n_map reduce_f a b h = h
reduce_tasks-SameFiles job (suc rounds) i n_map reduce_f a b (plain, same) =
    let outs = result-same job n_map reduce_f a.records b.records i (λ m. same _) in
    reduce_tasks-SameFiles job rounds (i + 1) n_map reduce_f _ _ (
      plain-do_reduce job n_map reduce_f i a ∙ plain ∙ sym (plain-do_reduce job n_map reduce_f i b),
      λ k.
          lookup-do_reduce job n_map reduce_f i a k
          ∙ ap (λ out. if merge_name job i =ᵗ k then some out else lookup k a.records) outs
          ∙ ap
              (λ x.
                if merge_name job i =ᵗ k then some (result job n_map reduce_f b.records i) else x)
              (same k)
          ∙ sym (lookup-do_reduce job n_map reduce_f i b k),
    )

merge_from-same :
    (job : Text) (rounds i : ℕ) (d d' : Dict (List KeyValue)) (kvs : Dict Text)
    → ((k : Text) → lookup k d ≡ lookup k d')
    → merge_from job rounds i d kvs ≡ merge_from job rounds i d' kvs
unfolding merge_from
merge_from-same job zero i d d' kvs h = refl
merge_from-same job (suc rounds) i d d' kvs h = rw (h (merge_name job i)) (
    bind_same (lookup (merge_name job i) d') _ _
      (λ file. merge_from-same job rounds (i + 1) d d' (put_all file kvs) h))

merge-SameFiles :
    (job : Text) (n : ℕ) (a b a' : Files)
    → SameFiles a b
    → merge job n a ≡ some a'
    → (b' : Files) × (merge job n b ≡ some b') × SameFiles a' b'
unfolding merge
merge-SameFiles job n a b a' (plain, same) e =
    let (kvs, p, q) = >>=-eq-some (merge_from job n 0 a.records []) _ e in
    let out = some-injective _ _ q in
    (
      record b { plain = insert (prefix ++ job) (print_all kvs (sort (keys kvs))) b.plain },
      rw (sym (merge_from-same job n 0 a.records b.records [] same) ∙ p) refl,
      (
        ap (λ z. z.plain) (sym out)
            ∙ ap (insert (prefix ++ job) (print_all kvs (sort (keys kvs)))) plain,
        λ k. ap (λ z. lookup k z.records) (sym out) ∙ same k,
      ),
    )

module _ (job_name : Text) (files : List Text) (n : ℕ) (wk : Worker) where
  abbrev pub job_of : Job
  job_of = record { job_name = job_name; files = files; n_reduce = suc n }

  pub maps-IsPhase :
      (fs : Files) → IsPhase (run_task job_of wk map_phase) (n_tasks map_phase job_of) fs
  unfolding run_task run_map n_tasks
  maps-IsPhase fs = map_tasks_phase job_name files n wk.map_f fs

  pub reduces-IsPhase :
      (fs : Files) → IsPhase (run_task job_of wk reduce_phase) (n_tasks reduce_phase job_of) fs
  unfolding run_task run_reduce n_tasks
  reduces-IsPhase fs = reduce_tasks_phase job_name (length files) wk.reduce_f (suc n) fs

  scheduled_maps :
      (es : List Event) (pool : Pool) (fs : Files) (s : Scheduling)
      → schedule job_of wk map_phase es pool fs ≡ some s
      → (fs' : Files) × (map_tasks job_name 0 files (suc n) wk.map_f fs ≡ some fs')
        × SameFiles s.store fs'
  unfolding run_task run_map n_tasks
  scheduled_maps es pool fs s e =
      let (fs', p, h) = scheduled-SameFiles job_of wk map_phase fs (maps-IsPhase fs) es pool s e in
      (
        fs',
        map_tasks-run_all job_name files files n 0 wk.map_f fs
              (λ j. ap (get_elem? files) (omega arith))
            ∙ p,
        h,
      )

  scheduled_reduces :
      (es : List Event) (pool : Pool) (fs : Files) (s : Scheduling)
      → schedule job_of wk reduce_phase es pool fs ≡ some s
      → SameFiles s.store (reduce_tasks job_name (suc n) 0 (length files) wk.reduce_f fs)
  unfolding run_task run_reduce n_tasks
  scheduled_reduces es pool fs s e =
      let (fs', p, h) =
        scheduled-SameFiles job_of wk reduce_phase fs (reduces-IsPhase fs) es pool s e in
      let in_turn =
        some-injective _ _
          (sym p ∙ sym (reduce_tasks-run_all job_name (suc n) 0 (length files) wk.reduce_f fs)) in
      subst (SameFiles s.store) in_turn h

  -- If a distributed job with at least one reduce task ends, however its workers register, its calls
  -- fail, and its tasks are run again, then the sequential job with the same functions ends too, from
  -- the same files, and both leave the same files.
  pub distributed-SameFiles :
      (reply : Text → Option ℤ) (maps reduces : List Event) (pool : Pool) (fs : Files)
      (out : Finished)
      → distributed job_of wk reply maps reduces pool fs ≡ some out
      → (seq : Files) × (sequential job_name files (suc n) wk.map_f wk.reduce_f fs ≡ some seq)
        × SameFiles out.store seq
  unfolding distributed sequential
  distributed-SameFiles reply maps reduces pool fs out e =
      let (m, e1, f1) = >>=-eq-some (schedule job_of wk map_phase maps pool fs) _ e in
      let (r, e2, f2) = >>=-eq-some (schedule job_of wk reduce_phase reduces m.pool m.store) _ f1 in
      let (merged, e3, f3) = >>=-eq-some (merge job_name (suc n) r.store) _ f2 in
      let (mapped, p, mapped_same) = scheduled_maps maps pool fs m e1 in
      let reduced = reduce_tasks job_name (suc n) 0 (length files) wk.reduce_f mapped in
      let same = SameFiles-trans r.store _ reduced (scheduled_reduces reduces m.pool m.store r e2) (
        reduce_tasks-SameFiles job_name (suc n) 0 (length files) wk.reduce_f m.store mapped
          mapped_same) in
      let (seq, q, h) = merge-SameFiles job_name (suc n) r.store reduced merged same e3 in
      (seq, rw (p) q, subst (λ o. SameFiles o.store seq) (some-injective _ _ f3) h)
