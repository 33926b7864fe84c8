-- ===== src/MapReduce/Schedule/Finishes.antt =====
-- schedule of src/mapreduce/schedule.go can finish a phase as long as it has a worker.
use cs.Prelude.{
  ℕ, zero, suc, ◌+◌, ◌<◌, ◌≡◌, ◌≢◌, ◌⊎◌, inl, inr, refl, sym, ap, subst, ◌∙◌, true, List, [], ◌∷◌,
  ◌++◌, some, Text, arith, length, get_elem?, get_elem?-lt, set, get_elem?-set_self,
  get_elem?-set_ne, lt_of_get_elem?, ◌==◌, ==_iff, =ᵗ_refl, Bool-cases, >>=-eq-some,
}
use cs.Prelude.Every.{Every, Every-append}
use mathlib.Core.Option.{some-injective}
use cs.MapReduce.Defs.{Files}
use cs.MapReduce.Worker.{JobPhase, map_phase, reduce_phase, Worker}
use cs.MapReduce.Phase.{IsPhase}
use cs.MapReduce.Schedule.{
  Job, Pool, TaskState, waiting, done, calling, Scheduling, Event, registers, takes, answers, fails,
  fails_late, n_tasks, run_task, receive, is_waiting, is_calling, is_done, guarded, scheduled,
  schedule, give_back, advance, run_events, all_done,
}
use cs.MapReduce.Schedule.Refines.{IsRun, advance-IsRun, run_events-IsRun, scheduled-IsRun}
use cs.MapReduce.Schedule.Distributed.{job_of, maps-IsPhase, reduces-IsPhase}

-- A worker that is there takes a task or answers: none registers, and no call fails.
abbrev pub IsWork : Event → Type 0
IsWork (registers w) = ⊥
IsWork (takes task w) = Unit
IsWork (answers task w) = Unit
IsWork (fails task w) = ⊥
IsWork (fails_late task w) = ⊥

-- A worker waits on the channel.
abbrev pub IsOffered : Pool → Type 0
IsOffered p = (w : Text) × (ws : List Text) × (p.register_channel ≡ w ∷ ws)

snoc_cons : (ws : List Text) (w : Text) → (v : Text) × (vs : List Text) × (ws ++ w ∷ [] ≡ v ∷ vs)
snoc_cons [] w = (w, [], refl)
snoc_cons (x ∷ ws) w = (x, ws ++ w ∷ [], refl)

done_stays :
    (tasks : List TaskState) (t j : ℕ)
    → get_elem? tasks j ≡ some done
    → get_elem? (set tasks t done) j ≡ some done
done_stays tasks t j e = elim (Bool-cases (t == j)) [
  | inl q ↦
      subst (λ i. get_elem? (set tasks t done) i ≡ some done) ((==_iff t j).0 q)
        (get_elem?-set_self tasks t done
          (subst (λ i. i < length tasks) (sym ((==_iff t j).0 q)) (lt_of_get_elem? tasks j e)))
  | inr q ↦ get_elem?-set_ne tasks t j done (λ p. ground (arith, q, (==_iff t j).1 p)) ∙ e
]

waiting_done :
    (tasks : List TaskState) (t : ℕ)
    → get_elem? tasks t ≡ some waiting
    → get_elem? tasks t ≢ some done
waiting_done tasks t e h = ground arith

all_done_of :
    (tasks : List TaskState)
    → ((t : ℕ) → t < length tasks → get_elem? tasks t ≡ some done)
    → all_done tasks ≡ true
unfolding all_done is_done
all_done_of [] h = refl
all_done_of (x ∷ tasks) h =
    let head = h 0 (omega arith) in
    let rest = all_done_of tasks (λ t lt. h (suc t) (omega arith)) in ground (arith, head, rest)

run_events-append :
    (job : Job) (wk : Worker) (phase : JobPhase) (es fs : List Event) (s s' : Scheduling)
    → run_events job wk phase es s ≡ some s'
    → run_events job wk phase (es ++ fs) s ≡ run_events job wk phase fs s'
unfolding run_events
run_events-append job wk phase [] fs s s' e = ap (run_events job wk phase fs) (some-injective _ _ e)
run_events-append job wk phase (x ∷ es) fs s s' e =
    let (mid, p, q) = >>=-eq-some (advance job wk phase x s) _ e in
    rw (p) (run_events-append job wk phase es fs mid s' q)

module _ (job : Job) (wk : Worker) (phase : JobPhase) (fs0 : Files)
    (ph : IsPhase (run_task job wk phase) (n_tasks phase job) fs0) where
  -- A later state of the phase, with a worker on the channel, where what was done is done.
  pub record IsFurther (s s' : Scheduling) : Type 0 where
    pub events : List Event
    pub work : Every IsWork events
    pub reached : run_events job wk phase events s ≡ some s'
    pub run : IsRun job wk phase fs0 ph s'
    pub offered : IsOffered s'.pool
    pub kept : (j : ℕ) → get_elem? s.tasks j ≡ some done → get_elem? s'.tasks j ≡ some done

  -- A call that is out is answered.
  answer :
      (s : Scheduling) (t : ℕ) (w : Text)
      → IsRun job wk phase fs0 ph s
      → get_elem? s.tasks t ≡ some (calling w)
      → (s' : Scheduling) × IsFurther s s' × (get_elem? s'.tasks t ≡ some done)
  unfolding run_events advance guarded is_calling give_back
  answer s t w v e =
      let lt = lt_of_get_elem? s.tasks t e in
      let (fs, q, _) = ph.effect t v.ran s.store (omega (arith, lt, v.size)) v.written in
      let s' : Scheduling = record {
        pool = give_back w s.pool;
        tasks = set s.tasks t done;
        store = fs;
      } in
      let p : advance job wk phase (answers t w) s ≡ some s' = rw (e, =ᵗ_refl w, q) refl in
      (
        s',
        record {
          events = answers t w ∷ [];
          work = (tt, tt);
          reached = rw (p) refl;
          run = advance-IsRun job wk phase fs0 ph (answers t w) s s' p v;
          offered = snoc_cons s.pool.register_channel w;
          kept = λ j h. done_stays s.tasks t j h;
        },
        get_elem?-set_self s.tasks t done lt,
      )

  -- A task that waits takes the first worker on the channel.
  take_first :
      (s : Scheduling) (t : ℕ) (w : Text) (ws : List Text)
      → IsRun job wk phase fs0 ph s
      → get_elem? s.tasks t ≡ some waiting
      → s.pool.register_channel ≡ w ∷ ws
      → (s' : Scheduling) × (advance job wk phase (takes t w) s ≡ some s')
        × IsRun job wk phase fs0 ph s'
        × (get_elem? s'.tasks t ≡ some (calling w))
        × ((j : ℕ) → get_elem? s.tasks j ≡ some done → get_elem? s'.tasks j ≡ some done)
  unfolding advance guarded is_waiting receive
  take_first s t w ws v e c =
      let lt = lt_of_get_elem? s.tasks t e in
      let s' : Scheduling = record s {
        pool = record s.pool { register_channel = ws };
        tasks = set s.tasks t (calling w);
      } in
      let p : advance job wk phase (takes t w) s ≡ some s' = rw (e, c, =ᵗ_refl w) refl in
      (
        s',
        p,
        advance-IsRun job wk phase fs0 ph (takes t w) s s' p v,
        get_elem?-set_self s.tasks t (calling w) lt,
        λ j h.
            get_elem?-set_ne s.tasks t j (calling w) (λ q.
              waiting_done s.tasks t (e) (subst (λ i. get_elem? s.tasks i ≡ some done) (sym q) h))
            ∙ h,
      )

  finish_state :
      (s : Scheduling) (t : ℕ) (state : TaskState)
      → IsRun job wk phase fs0 ph s
      → get_elem? s.tasks t ≡ some state
      → IsOffered s.pool
      → (s' : Scheduling) × IsFurther s s' × (get_elem? s'.tasks t ≡ some done)
  unfolding run_events
  finish_state s t done v e o = (
    s,
    record { events = []; work = tt; reached = refl; run = v; offered = o; kept = λ j h. h },
    e,
  )
  finish_state s t (calling w) v e o = answer s t w v e
  finish_state s t waiting v e (w, ws, c) =
      let (mid, p, u, called, kept) = take_first s t w ws v e c in
      let (s', f, d) = answer mid t w u called in
      (
        s',
        record {
          events = takes t w ∷ f.events;
          work = (tt, f.work);
          reached = rw (p) f.reached;
          run = f.run;
          offered = f.offered;
          kept = λ j h. f.kept j (kept j h);
        },
        d,
      )

  -- The tasks from i on, of which `rounds` are left.
  finish_from :
      (rounds i : ℕ) (s : Scheduling)
      → i + rounds ≡ length s.tasks
      → IsRun job wk phase fs0 ph s
      → IsOffered s.pool
      → ((j : ℕ) → j < i → get_elem? s.tasks j ≡ some done)
      → (more : List Event) × (s' : Scheduling) × Every IsWork more
        × (run_events job wk phase more s ≡ some s')
        × (all_done s'.tasks ≡ true)
  unfolding run_events
  finish_from zero i s e v o h = ([], s, tt, refl, all_done_of s.tasks (λ t lt. h t (omega arith)))
  finish_from (suc rounds) i s e v o h =
      let (state, p) = get_elem?-lt s.tasks i (omega arith) in
      let (mid, f, d) = finish_state s i state v p o in
      let (more, s', work, q, all) =
        finish_from rounds (i + 1) mid (omega (arith, e, v.size, f.run.size)) f.run f.offered
          (λ j lt. elim (Bool-cases (j == i)) [
            | inl same ↦
                subst (λ k. get_elem? mid.tasks k ≡ some done) (sym ((==_iff j i).0 same)) d
            | inr other ↦ f.kept j (h j (ground arith))
          ]) in
      (
        f.events ++ more,
        s',
        Every-append IsWork f.events more f.work work,
        run_events-append job wk phase f.events more s mid f.reached ∙ q,
        all,
      )

  finish :
      (s : Scheduling)
      → IsRun job wk phase fs0 ph s
      → IsOffered s.pool ⊎ ((t : ℕ) × (w : Text) × (get_elem? s.tasks t ≡ some (calling w)))
      → (more : List Event) × (s' : Scheduling) × Every IsWork more
        × (run_events job wk phase more s ≡ some s')
        × (all_done s'.tasks ≡ true)
  finish s v (inl o) =
      finish_from (length s.tasks) 0 s (omega arith) v o (λ j h. absurd (omega arith))
  finish s v (inr (t, w, e)) =
      let (mid, f, d) = answer s t w v e in
      let (more, s', work, q, all) =
        finish_from (length mid.tasks) 0 mid (omega arith) f.run f.offered
          (λ j h. absurd (omega arith)) in
      (
        f.events ++ more,
        s',
        Every-append IsWork f.events more f.work work,
        run_events-append job wk phase f.events more s mid f.reached ∙ q,
        all,
      )

  can_finish :
      (es : List Event) (pool : Pool) (s : Scheduling)
      → run_events job wk phase es (scheduled phase job pool fs0) ≡ some s
      → IsOffered s.pool ⊎ ((t : ℕ) × (w : Text) × (get_elem? s.tasks t ≡ some (calling w)))
      → (more : List Event) × (s' : Scheduling) × Every IsWork more
        × (schedule job wk phase (es ++ more) pool fs0 ≡ some s')
  unfolding schedule
  can_finish es pool s e o =
      let start = scheduled phase job pool fs0 in
      let v =
        run_events-IsRun job wk phase fs0 ph es start s e
          (scheduled-IsRun job wk phase fs0 ph pool) in
      let (more, s', work, q, all) = finish s v o in
      (more, s', work, rw (run_events-append job wk phase es more start s e, q, all) refl)

-- A phase of a job with at least one reduce task can be finished from every state that it comes to
-- in which a worker waits on the channel or a call is out, with the workers that are there: some
-- further events, in which workers take tasks and their calls are answered, but no worker registers
-- and no call fails, let schedule return.
pub schedule-can_finish :
    (job_name : Text) (files : List Text) (n : ℕ) (wk : Worker) (phase : JobPhase) (es : List Event)
    (pool : Pool) (fs : Files) (s : Scheduling)
    → let job = job_of job_name files n wk in
      run_events job wk phase es (scheduled phase job pool fs) ≡ some s
      → IsOffered s.pool ⊎ ((t : ℕ) × (w : Text) × (get_elem? s.tasks t ≡ some (calling w)))
      → (more : List Event) × (s' : Scheduling) × Every IsWork more
        × (schedule job wk phase (es ++ more) pool fs ≡ some s')
schedule-can_finish job_name files n wk map_phase es pool fs s e o =
    can_finish (job_of job_name files n wk) wk map_phase fs (maps-IsPhase job_name files n wk fs) es
      pool s e o
schedule-can_finish job_name files n wk reduce_phase es pool fs s e o =
    can_finish (job_of job_name files n wk) wk reduce_phase fs
      (reduces-IsPhase job_name files n wk fs) es pool s e o
