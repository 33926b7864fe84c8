-- ===== src/MapReduce/Phase/InOrder.antt =====
-- The phases of Sequential in src/mapreduce/master.go: the tasks in their order.
use cs.Prelude.{
  ℕ, zero, suc, ◌+◌, ◌<◌, ◌≤◌, ◌≡◌, refl, sym, ap, ◌∙◌, true, List, [], ◌∷◌, ◌++◌, Option, some,
  Text, arith, length, get_elem?, ==_iff, ◌>>=◌, bind_same,
}
use mathlib.Core.List.{append_assoc, append-nil}
use cs.MapReduce.Defs.{Files}
use cs.MapReduce.Map.{do_map}
use cs.MapReduce.Master.{map_tasks, reduce_tasks}
use cs.MapReduce.Phase.{after, elem, IsAfter, IsPhase}
use cs.MapReduce.Phase.Maps.{run_map}
use cs.MapReduce.Phase.Reduces.{run_reduce}
use cs.MapReduce.Defs.{KeyValue}

-- The tasks of a list, one after the other.
unfoldable pub run_all : (ℕ → Files → Option Files) → List ℕ → Files → Option Files
run_all run [] fs = some fs
run_all run (t ∷ ts) fs = run t fs >>= λ fs'. run_all run ts fs'

-- i, i + 1, ..., and so on n times.
unfoldable pub numbers_from : ℕ → ℕ → List ℕ
numbers_from i zero = []
numbers_from i (suc n) = i ∷ numbers_from (i + 1) n

pub elem-numbers_from :
    (i n t : ℕ)
    → (elem t (numbers_from i n) ≡ true → (i ≤ t) × (t < i + n))
      × (i ≤ t → t < i + n → elem t (numbers_from i n) ≡ true)
unfolding elem numbers_from
elem-numbers_from i zero t = (λ h. ground arith, λ a b. absurd (omega arith))
elem-numbers_from i (suc n) t = (
  λ h. ground (arith, ==_iff i t, (elem-numbers_from (i + 1) n t).0),
  λ a b. ground (arith, ==_iff i t, (elem-numbers_from (i + 1) n t).1),
)

-- Tasks of a phase that run one after the other do not fail.
run_all-IsAfter :
    (run : ℕ → Files → Option Files) (n : ℕ) (fs0 : Files) (ph : IsPhase run n fs0)
    (ts before : List ℕ) (fs : Files)
    → ((t : ℕ) → elem t ts ≡ true → t < n)
    → IsAfter ph.writes fs0 before fs
    → (fs' : Files) × (run_all run ts fs ≡ some fs') × IsAfter ph.writes fs0 (before ++ ts) fs'
unfolding run_all elem
run_all-IsAfter run n fs0 ph [] before fs only w = (fs, refl, rw (append-nil) w)
run_all-IsAfter run n fs0 ph (t ∷ ts) before fs only w =
    let (mid, p, v) = ph.effect t before fs (only t (ground (arith, ==_iff t t))) w in
    let (last, q, u) =
      run_all-IsAfter run n fs0 ph ts (before ++ t ∷ []) mid (λ x h. only x (ground arith)) v in
    (last, rw (p) q, rw (← append_assoc before (t ∷ []) ts) u)

-- All tasks of a phase in order.
pub in_order-IsAfter :
    (run : ℕ → Files → Option Files) (n : ℕ) (fs0 : Files) (ph : IsPhase run n fs0)
    → (fs' : Files) × (run_all run (numbers_from 0 n) fs0 ≡ some fs')
      × IsAfter ph.writes fs0 (numbers_from 0 n) fs'
unfolding after
in_order-IsAfter run n fs0 ph =
    run_all-IsAfter run n fs0 ph (numbers_from 0 n) [] fs0
      (λ t h. omega (arith, (elem-numbers_from 0 n t).0 h)) (refl, λ k. refl)

pub map_tasks-run_all :
    (job : Text) (files rest : List Text) (n i : ℕ) (map_f : Text → Text → List KeyValue)
    (fs : Files)
    → ((j : ℕ) → get_elem? rest j ≡ get_elem? files (i + j))
    → map_tasks job i rest (suc n) map_f fs
      ≡ run_all (run_map job files n map_f) (numbers_from i (length rest)) fs
unfolding map_tasks run_all numbers_from run_map
map_tasks-run_all job files [] n i map_f fs h = refl
map_tasks-run_all job files (f ∷ rest) n i map_f fs h =
    let here : get_elem? files i ≡ some f = sym (h 0 ∙ ap (get_elem? files) (omega arith)) in
    let later = λ (fs' : Files).
      map_tasks-run_all job files rest n (i + 1) map_f fs'
        (λ j. h (suc j) ∙ ap (get_elem? files) (omega arith)) in
    rw (here) (bind_same (do_map job i f (suc n) map_f fs) _ _ later)

pub reduce_tasks-run_all :
    (job : Text) (rounds i n_map : ℕ) (reduce_f : Text → List Text → Text) (fs : Files)
    → some (reduce_tasks job rounds i n_map reduce_f fs)
      ≡ run_all (run_reduce job n_map reduce_f) (numbers_from i rounds) fs
unfolding reduce_tasks run_all numbers_from run_reduce
reduce_tasks-run_all job zero i n_map reduce_f fs = refl
reduce_tasks-run_all job (suc rounds) i n_map reduce_f fs =
    reduce_tasks-run_all job rounds (i + 1) n_map reduce_f _
