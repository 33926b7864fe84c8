-- ===== src/MapReduce/Phase/Reduces.antt =====
-- The reduce tasks of src/mapreduce as a phase.
use cs.Prelude.{
  ℕ, zero, suc, ◌+◌, ◌≡◌, inl, inr, refl, sym, ap, ◌∙◌, Bool, true, false, List, [], ◌∷◌, ◌++◌,
  Option, none, some, Text, ◌=ᵗ◌, =ᵗ_iff, if◌then◌else◌, or_else, Bool-cases,
}
use cs.Prelude.Dicts.{Dict, lookup, keys, lookup-insert}
use cs.MapReduce.Defs.{KeyValue, Files, reduce_name, merge_name, or_empty}
use cs.MapReduce.Names.{merge_name-injective, reduce_name-ne-merge_name}
use cs.MapReduce.Reduce.{sort, gather, read_from, reduce_all, do_reduce}
use cs.MapReduce.Phase.{Writes, after, after-snoc, AreApart, IsAfter, IsPhase}

read_from-same :
    (job : Text) (r rounds m : ℕ) (d d' : Dict (List KeyValue)) (b : Dict (List Text))
    → ((i : ℕ) → lookup (reduce_name job i r) d ≡ lookup (reduce_name job i r) d')
    → read_from job r rounds m d b ≡ read_from job r rounds m d' b
unfolding read_from
read_from-same job r zero m d d' b h = refl
read_from-same job r (suc rounds) m d d' b h = rw (h m) (
    read_from-same job r rounds (m + 1) d d' (gather (or_empty (lookup (reduce_name job m r) d')) b)
      h)

if_or_else :
    (b : Bool) (v : List KeyValue) (x : Option (List KeyValue))
    → (if b then some v else x) ≡ or_else (if b then some v else none) x
if_or_else true v x = refl
if_or_else false v x = refl

module _ (job : Text) (n_map : ℕ) (reduce_f : Text → List Text → Text) where
  unfoldable pub run_reduce : ℕ → Files → Option Files
  run_reduce r fs = some (do_reduce job r n_map reduce_f fs)

  -- The records of a reduce task's output.
  unfoldable pub result : Dict (List KeyValue) → ℕ → List KeyValue
  result d r =
      let buckets = read_from job r n_map 0 d [] in
      reduce_all reduce_f buckets (sort (keys buckets))

  unfoldable pub reduce_writes : Dict (List KeyValue) → Writes
  reduce_writes d r k = if merge_name job r =ᵗ k then some (result d r) else none

  pub reduce_writes-AreApart : (d : Dict (List KeyValue)) → AreApart (reduce_writes d)
  unfolding reduce_writes
  reduce_writes-AreApart d t u k ne = elim (Bool-cases (merge_name job t =ᵗ k)) [
    | inr e ↦ inl (rw (e) refl)
    | inl e ↦ elim (Bool-cases (merge_name job u =ᵗ k)) [
      | inr q ↦ inr (rw (q) refl)
      | inl q ↦
          absurd (ne (merge_name-injective job t u ((=ᵗ_iff _ k).0 e ∙ sym ((=ᵗ_iff _ k).0 q))))
    ]
  ]

  -- A reduce task writes no intermediate file.
  after-intermediate :
      (d : Dict (List KeyValue)) (ts : List ℕ) (m r : ℕ) (x : Option (List KeyValue))
      → after (reduce_writes d) ts (reduce_name job m r) x ≡ x
  unfolding after reduce_writes
  after-intermediate d [] m r x = refl
  after-intermediate d (t ∷ ts) m r x =
      elim (Bool-cases (merge_name job t =ᵗ reduce_name job m r)) [
        | inl e ↦ absurd (reduce_name-ne-merge_name job m r t (sym ((=ᵗ_iff _ _).0 e)))
        | inr e ↦ rw (e) (after-intermediate d ts m r x)
      ]

  pub result-same :
      (d d' : Dict (List KeyValue)) (r : ℕ)
      → ((i : ℕ) → lookup (reduce_name job i r) d ≡ lookup (reduce_name job i r) d')
      → result d r ≡ result d' r
  unfolding result
  result-same d d' r h =
      ap (λ b. reduce_all reduce_f b (sort (keys b))) (read_from-same job r n_map 0 d d' [] h)

  pub lookup-do_reduce :
      (r : ℕ) (fs : Files) (k : Text)
      → lookup k (do_reduce job r n_map reduce_f fs).records
        ≡ (if merge_name job r =ᵗ k then some (result fs.records r) else lookup k fs.records)
  unfolding do_reduce result
  lookup-do_reduce r fs k = lookup-insert (merge_name job r) k (result fs.records r) fs.records

  pub plain-do_reduce : (r : ℕ) (fs : Files) → (do_reduce job r n_map reduce_f fs).plain ≡ fs.plain
  unfolding do_reduce
  plain-do_reduce r fs = refl

  pub run_reduce-IsAfter :
      (fs0 : Files) (t : ℕ) (ts : List ℕ) (fs : Files)
      → IsAfter (reduce_writes fs0.records) fs0 ts fs
      → (fs' : Files) × (run_reduce t fs ≡ some fs')
        × IsAfter (reduce_writes fs0.records) fs0 (ts ++ t ∷ []) fs'
  unfolding run_reduce reduce_writes
  run_reduce-IsAfter fs0 t ts fs (plain, same) =
      let reads =
        result-same fs.records fs0.records t
          (λ i. same (reduce_name job i t) ∙ after-intermediate fs0.records ts i t _) in
      let merged = λ (k : Text) (out : List KeyValue).
        if merge_name job t =ᵗ k then some out else lookup k fs.records in
      (
        do_reduce job t n_map reduce_f fs,
        refl,
        (
          plain-do_reduce t fs ∙ plain,
          λ k.
              lookup-do_reduce t fs k
              ∙ ap (merged k) reads
              ∙ if_or_else (merge_name job t =ᵗ k) (result fs0.records t) (lookup k fs.records)
              ∙ ap (or_else (reduce_writes fs0.records t k)) (same k)
              ∙ sym (after-snoc (reduce_writes fs0.records) ts t k (lookup k fs0.records)),
        ),
      )

  -- The reduce tasks are a phase, from any files on.
  unfoldable pub reduce_tasks_phase : (n : ℕ) (fs0 : Files) → IsPhase run_reduce n fs0
  reduce_tasks_phase n fs0 = record {
    writes = reduce_writes fs0.records;
    apart = reduce_writes-AreApart fs0.records;
    effect = λ t ts fs lt w. run_reduce-IsAfter fs0 t ts fs w;
  }
