-- ===== src/MapReduce/Worker/Exits.antt =====
-- When the loop of RunWorker in src/mapreduce/worker.go ends, and what it has counted by then.
use cs.Prelude.{
  increment, decrement, subst, ℕ, zero, suc, ◌+◌, ◌<◌, ℤ, pos, ◌==ℤ◌, ◌≡◌, refl, sym, ap, ◌∙◌, List,
  [], ◌∷◌, Text, arith, if◌then◌else◌,
}
use cs.MapReduce.Defs.{KeyValue}
use cs.MapReduce.Worker.{
  Worker, Point, testing, accepting, counting, exited, Serving, Event, goes_on, connected, failed,
  stopped, go_on, connect, serve, serve_all, run_worker,
}

-- Whether a sequence has only events at which the loop goes on or Accept gives a connection.
unfoldable pub AllServed : List Event → Type 0
AllServed [] = Unit
AllServed (goes_on ∷ es) = AllServed es
AllServed (connected ∷ es) = AllServed es
AllServed (failed ∷ es) = ⊥
AllServed (stopped ∷ es) = ⊥

-- A connection that is accepted but not counted.
unfoldable pub uncounted : Point → ℕ
uncounted testing = 0
uncounted accepting = 0
uncounted counting = 1
uncounted exited = 0

-- What a point says of the number of connections that are left.
unfoldable pub Allows : Point → ℕ → Type 0
Allows testing left = Unit
Allows accepting left = 0 < left
Allows counting left = Unit
Allows exited left = left ≡ 0

-- Of n connections, some are counted, one may be uncounted, and the others are left.
pub record IsBalanced (n : ℕ) (s : Serving) : Type 0 where
  pub tasks : ℕ
  pub left : ℕ
  pub n_tasks : s.worker.n_tasks ≡ pos tasks
  pub n_rpc : s.worker.n_rpc ≡ pos left
  pub total : tasks + uncounted s.point + left ≡ n
  pub allowed : Allows s.point left

unfoldable pub after_test : ℕ → Point
after_test zero = exited
after_test (suc left) = accepting

test-after_test : (left : ℕ) → (if pos left ==ℤ pos 0 then exited else accepting) ≡ after_test left
unfolding after_test
test-after_test zero = refl
test-after_test (suc left) = ground arith

-- The test of the loop, by the number of connections that are left.
tested :
    (n : ℕ) (wk : Worker) (tasks left : ℕ)
    → wk.n_tasks ≡ pos tasks
    → wk.n_rpc ≡ pos left
    → tasks + left ≡ n
    → IsBalanced n (record { worker = wk; point = after_test left })
unfolding after_test Allows uncounted
tested n wk tasks zero t r e = record {
  tasks = tasks;
  left = 0;
  n_tasks = t;
  n_rpc = r;
  total = omega (arith, e);
  allowed = refl;
}
tested n wk tasks (suc left) t r e = record {
  tasks = tasks;
  left = suc left;
  n_tasks = t;
  n_rpc = r;
  total = omega (arith, e);
  allowed = omega arith;
}

go_on-IsBalanced :
    (n : ℕ) (wk : Worker) (p : Point)
    → IsBalanced n (record { worker = wk; point = p })
    → IsBalanced n (go_on p wk)
unfolding go_on Allows uncounted
go_on-IsBalanced n wk testing b =
    let point = λ (z : ℤ). if z ==ℤ pos 0 then exited else accepting in
    subst (λ p. IsBalanced n (record { worker = wk; point = p }))
      (sym (ap point b.n_rpc ∙ test-after_test b.left))
      (tested n wk b.tasks b.left b.n_tasks b.n_rpc (omega (arith, b.total)))
go_on-IsBalanced n wk accepting b = b
go_on-IsBalanced n wk counting b = record {
  tasks = suc b.tasks;
  left = b.left;
  n_tasks = ap increment b.n_tasks;
  n_rpc = b.n_rpc;
  total = omega (arith, b.total);
  allowed = tt;
}
go_on-IsBalanced n wk exited b = b

-- A connection takes one of those that are left.
taken :
    (n : ℕ) (wk : Worker) (tasks left : ℕ)
    → wk.n_tasks ≡ pos tasks
    → wk.n_rpc ≡ pos left
    → tasks + left ≡ n
    → 0 < left
    → IsBalanced n (record { worker = record wk { n_rpc = decrement wk.n_rpc }; point = counting })
unfolding Allows uncounted
taken n wk tasks zero t r e l = absurd (omega arith)
taken n wk tasks (suc left) t r e l = record {
  tasks = tasks;
  left = left;
  n_tasks = t;
  n_rpc = ap decrement r;
  total = omega (arith, e);
  allowed = tt;
}

connect-IsBalanced :
    (n : ℕ) (wk : Worker) (p : Point)
    → IsBalanced n (record { worker = wk; point = p })
    → IsBalanced n (connect p wk)
unfolding connect Allows uncounted
connect-IsBalanced n wk testing b = b
connect-IsBalanced n wk accepting b =
    taken n wk b.tasks b.left b.n_tasks b.n_rpc (omega (arith, b.total)) b.allowed
connect-IsBalanced n wk counting b = b
connect-IsBalanced n wk exited b = b

serve_all-IsBalanced :
    (n : ℕ) (es : List Event) (s : Serving)
    → AllServed es
    → IsBalanced n s
    → IsBalanced n (serve_all es s)
unfolding serve_all serve AllServed
serve_all-IsBalanced n [] s a b = b
serve_all-IsBalanced n (goes_on ∷ es) s a b =
    serve_all-IsBalanced n es (go_on s.point s.worker) a (go_on-IsBalanced n s.worker s.point b)
serve_all-IsBalanced n (connected ∷ es) s a b =
    serve_all-IsBalanced n es (connect s.point s.worker) a (connect-IsBalanced n s.worker s.point b)
serve_all-IsBalanced n (failed ∷ es) s a b = absurd a
serve_all-IsBalanced n (stopped ∷ es) s a b = absurd a

exited-tasks : (n : ℕ) (s : Serving) → IsBalanced n s → s.point ≡ exited → s.worker.n_tasks ≡ pos n
unfolding Allows uncounted
exited-tasks n s b e =
    let none_left : b.left ≡ 0 = subst (λ p. Allows p b.left) e b.allowed in
    let counted : uncounted s.point ≡ 0 = ap uncounted e in
    b.n_tasks ∙ ap pos (omega (arith, b.total, none_left, counted))

-- n connections, one after the other, and what the loop does between them.
unfoldable pub rounds : ℕ → List Event
rounds zero = goes_on ∷ []
rounds (suc n) = goes_on ∷ connected ∷ goes_on ∷ rounds n

rounds-ends :
    (n : ℕ) (wk : Worker)
    → wk.n_rpc ≡ pos n
    → (serve_all (rounds n) (record { worker = wk; point = testing })).point ≡ exited
unfolding rounds serve_all serve go_on connect after_test
rounds-ends zero wk r = ap (λ z. if z ==ℤ pos 0 then exited else accepting) r
rounds-ends (suc n) wk r =
    let counted : Worker = record wk {
      n_rpc = decrement wk.n_rpc;
      n_tasks = increment wk.n_tasks;
    } in
    let at = ap (λ z. if z ==ℤ pos 0 then exited else accepting) r ∙ test-after_test (suc n) in
    ap (λ p. (serve_all (connected ∷ goes_on ∷ rounds n) (record { worker = wk; point = p })).point)
      at
    ∙ rounds-ends n counted (ap decrement r)

-- RunWorker that is started for n connections ends its loop once n connections have come, one after
-- the other; and if Shutdown is not called and Accept gives no error, then after any events its loop
-- has ended only if it has counted exactly n tasks.
pub run_worker-counts :
    (map_f : Text → Text → List KeyValue) (reduce_f : Text → List Text → Text) (n : ℕ)
    → ((serve_all (rounds n) (run_worker map_f reduce_f (pos n))).point ≡ exited)
      × ((es : List Event)
          → AllServed es
          → (serve_all es (run_worker map_f reduce_f (pos n))).point ≡ exited
          → (serve_all es (run_worker map_f reduce_f (pos n))).worker.n_tasks ≡ pos n)
unfolding run_worker uncounted Allows
run_worker-counts map_f reduce_f n =
    let start = run_worker map_f reduce_f (pos n) in
    (
      rounds-ends n start.worker refl,
      λ es a. exited-tasks n (serve_all es start) (
          serve_all-IsBalanced n es start a (record {
            tasks = 0;
            left = n;
            n_tasks = refl;
            n_rpc = refl;
            total = omega arith;
            allowed = tt;
          })),
    )
