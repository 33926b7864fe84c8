-- ===== src/MapReduce/Schedule/Refines.antt =====
-- A phase that schedule of src/mapreduce/schedule.go carries out, against its tasks in order.
use cs.Prelude.{
  ℕ, zero, suc, ◌<◌, ◌≡◌, ◌≢◌, ◌⊎◌, inl, inr, refl, ap, subst, ◌∙◌, Bool, true, false, List, [],
  ◌∷◌, ◌++◌, none, some, arith, length, get_elem?, set, replicate, length-set, length-replicate,
  lt_of_get_elem?, ◌==◌, ==_iff, if◌then◌else◌, >>=-eq-some,
}
use mathlib.Core.Option.{some-injective}
use cs.MapReduce.Defs.{Files}
use cs.MapReduce.Worker.{JobPhase, Worker}
use cs.MapReduce.Phase.{after, elem, IsAfter, IsPhase}
use cs.MapReduce.Schedule.{
  Job, Pool, TaskState, waiting, done, calling, Scheduling, Event, registers, takes, answers, fails,
  fails_late, n_tasks, run_task, is_waiting, is_calling, is_done, guarded, receive, advance,
  run_events, all_done, scheduled, schedule,
}

guarded-some :
    (test : TaskState → Bool) (t : ℕ) (tasks : List TaskState) (state : TaskState)
    → guarded test t tasks ≡ some state
    → (get_elem? tasks t ≡ some state) × (t < length tasks)
unfolding guarded
guarded-some test t tasks state e =
    let (found, p, q) = >>=-eq-some (get_elem? tasks t) _ e in
    (ground (arith, p, q), lt_of_get_elem? tasks t p)

-- Where a write did not put `done`, it was there before.
done_set :
    (tasks : List TaskState) (t u : ℕ) (state : TaskState)
    → is_done state ≡ false
    → get_elem? (set tasks t state) u ≡ some done
    → get_elem? tasks u ≡ some done
unfolding is_done
done_set [] t u state h e = e
done_set (x ∷ tasks) zero zero state h e = ground (arith, h, e)
done_set (x ∷ tasks) zero (suc u) state h e = e
done_set (x ∷ tasks) (suc t) zero state h e = e
done_set (x ∷ tasks) (suc t) (suc u) state h e = done_set tasks t u state h e

done_set_done :
    (tasks : List TaskState) (t u : ℕ)
    → get_elem? (set tasks t done) u ≡ some done
    → (t ≡ u) ⊎ (get_elem? tasks u ≡ some done)
done_set_done [] t u e = inr e
done_set_done (x ∷ tasks) zero zero e = inl refl
done_set_done (x ∷ tasks) zero (suc u) e = inr e
done_set_done (x ∷ tasks) (suc t) zero e = inr e
done_set_done (x ∷ tasks) (suc t) (suc u) e = elim (done_set_done tasks t u e) [
  | inl p ↦ inl (ap suc p)
  | inr p ↦ inr p
]

elem-snoc :
    (u : ℕ) (ts : List ℕ) (t : ℕ) → elem u (ts ++ t ∷ []) ≡ (if elem u ts then true else t == u)
unfolding elem
elem-snoc u [] t = ground arith
elem-snoc u (x ∷ ts) t = ground (arith, elem-snoc u ts t)

not_done-waiting : (n t : ℕ) → get_elem? (replicate n waiting) t ≢ some done
not_done-waiting zero t e = ground arith
not_done-waiting (suc n) zero e = ground arith
not_done-waiting (suc n) (suc t) e = not_done-waiting n t e

all_done-done :
    (tasks : List TaskState) (t : ℕ)
    → all_done tasks ≡ true
    → t < length tasks
    → get_elem? tasks t ≡ some done
unfolding all_done is_done
all_done-done [] t e h = absurd (omega arith)
all_done-done (x ∷ tasks) zero e h = ground (arith, e)
all_done-done (x ∷ tasks) (suc t) e h = all_done-done tasks t (ground arith) (omega arith)

if_some :
    (b : Bool) (x y : Scheduling) → (if b then some x else none) ≡ some y → (b ≡ true) × (x ≡ y)
if_some true x y e = (refl, some-injective _ _ e)
if_some false x y e = ground arith

module _ (job : Job) (wk : Worker) (phase : JobPhase) (fs0 : Files)
    (ph : IsPhase (run_task job wk phase) (n_tasks phase job) fs0) where
  -- The tasks that ran, with those whose call failed after all.
  pub record IsRun (s : Scheduling) : Type 0 where
    pub ran : List ℕ
    pub written : IsAfter ph.writes fs0 ran s.store
    pub only : (t : ℕ) → elem t ran ≡ true → t < n_tasks phase job
    pub finished : (t : ℕ) → get_elem? s.tasks t ≡ some done → elem t ran ≡ true
    pub size : length s.tasks ≡ n_tasks phase job

  -- One more task ran.
  ran_more :
      (s : Scheduling) (v : IsRun s) (t : ℕ) (fs' : Files) (pool : Pool) (tasks : List TaskState)
      → t < n_tasks phase job
      → run_task job wk phase t s.store ≡ some fs'
      → ((u : ℕ) → get_elem? tasks u ≡ some done → (t ≡ u) ⊎ (get_elem? s.tasks u ≡ some done))
      → length tasks ≡ length s.tasks
      → IsRun (record { pool = pool; tasks = tasks; store = fs' })
  ran_more s v t fs' pool tasks lt e dones size =
      let (fs, q, w) = ph.effect t v.ran s.store lt v.written in
      let same : fs ≡ fs' = ground (arith, e, q) in
      record {
        ran = v.ran ++ t ∷ [];
        written = subst (IsAfter ph.writes fs0 (v.ran ++ t ∷ [])) same w;
        only = λ u h. ground (arith, elem-snoc u v.ran t, v.only u, ==_iff t u);
        finished = λ u h. elim (dones u h) [
          | inl p ↦ elem-snoc u v.ran t ∙ ground (arith, p)
          | inr p ↦ elem-snoc u v.ran t ∙ rw (v.finished u p) refl
        ];
        size = size ∙ v.size;
      }

  -- No task ran, and none is done that was not done before.
  ran_none :
      (s : Scheduling) (v : IsRun s) (pool : Pool) (tasks : List TaskState)
      → ((u : ℕ) → get_elem? tasks u ≡ some done → get_elem? s.tasks u ≡ some done)
      → length tasks ≡ length s.tasks
      → IsRun (record { pool = pool; tasks = tasks; store = s.store })
  ran_none s v pool tasks dones size = record {
    ran = v.ran;
    written = v.written;
    only = v.only;
    finished = λ u h. v.finished u (dones u h);
    size = size ∙ v.size;
  }

  pub advance-IsRun :
      (e : Event) (s s' : Scheduling) → advance job wk phase e s ≡ some s' → IsRun s → IsRun s'
  unfolding advance is_done
  advance-IsRun (registers w) s s' e v =
      subst IsRun (some-injective _ _ e) (ran_none s v _ s.tasks (λ u h. h) refl)
  advance-IsRun (takes t w) s s' e v =
      let (state, p, q) = >>=-eq-some (guarded is_waiting t s.tasks) _ e in
      let (channel, r, x) = >>=-eq-some (receive w s.pool.register_channel) _ q in
      subst IsRun (some-injective _ _ x) (
        ran_none s v _ (set s.tasks t (calling w)) (λ u h. done_set s.tasks t u (calling w) refl h)
          (length-set s.tasks t (calling w)))
  advance-IsRun (answers t w) s s' e v =
      let (state, p, q) = >>=-eq-some (guarded (is_calling w) t s.tasks) _ e in
      let (fs, r, x) = >>=-eq-some (run_task job wk phase t s.store) _ q in
      let (at, lt) = guarded-some (is_calling w) t s.tasks state p in
      subst IsRun (some-injective _ _ x) (
        ran_more s v t fs _ (set s.tasks t done) (omega (arith, lt, v.size)) r
          (λ u h. done_set_done s.tasks t u h) (length-set s.tasks t done))
  advance-IsRun (fails t w) s s' e v =
      let (state, p, q) = >>=-eq-some (guarded (is_calling w) t s.tasks) _ e in
      subst IsRun (some-injective _ _ q) (
        ran_none s v s.pool (set s.tasks t waiting) (λ u h. done_set s.tasks t u waiting refl h)
          (length-set s.tasks t waiting))
  advance-IsRun (fails_late t w) s s' e v =
      let (state, p, q) = >>=-eq-some (guarded (is_calling w) t s.tasks) _ e in
      let (fs, r, x) = >>=-eq-some (run_task job wk phase t s.store) _ q in
      let (at, lt) = guarded-some (is_calling w) t s.tasks state p in
      subst IsRun (some-injective _ _ x) (
        ran_more s v t fs s.pool (set s.tasks t waiting) (omega (arith, lt, v.size)) r
          (λ u h. inr (done_set s.tasks t u waiting refl h)) (length-set s.tasks t waiting))

  pub run_events-IsRun :
      (es : List Event) (s s' : Scheduling)
      → run_events job wk phase es s ≡ some s'
      → IsRun s
      → IsRun s'
  unfolding run_events
  run_events-IsRun [] s s' e v = subst IsRun (some-injective _ _ e) v
  run_events-IsRun (e ∷ es) s s' q v =
      let (mid, p, r) = >>=-eq-some (advance job wk phase e s) _ q in
      run_events-IsRun es mid s' r (advance-IsRun e s mid p v)

  pub scheduled-IsRun : (pool : Pool) → IsRun (scheduled phase job pool fs0)
  unfolding scheduled after elem
  scheduled-IsRun pool = record {
    ran = [];
    written = (refl, λ k. refl);
    only = λ t h. ground arith;
    finished = λ t h. absurd (not_done-waiting (n_tasks phase job) t h);
    size = length-replicate (n_tasks phase job) waiting;
  }

  -- When schedule returns, every task of the phase ran, and no other.
  pub schedule-ran :
      (es : List Event) (pool : Pool) (s : Scheduling)
      → schedule job wk phase es pool fs0 ≡ some s
      → (ts : List ℕ) × IsAfter ph.writes fs0 ts s.store
        × ((t : ℕ) → elem t ts ≡ true → t < n_tasks phase job)
        × ((t : ℕ) → t < n_tasks phase job → elem t ts ≡ true)
  unfolding schedule
  schedule-ran es pool s e =
      let (last, p, q) =
        >>=-eq-some (run_events job wk phase es (scheduled phase job pool fs0)) _ e in
      let v = run_events-IsRun es _ last p (scheduled-IsRun pool) in
      let (finished, same) = if_some (all_done last.tasks) last s q in
      let u = subst IsRun same v in
      (
        u.ran,
        u.written,
        u.only,
        λ t h. u.finished t (
            all_done-done s.tasks t (subst (λ z. all_done z.tasks ≡ true) same finished)
              (omega (arith, h, u.size))),
      )
