-- ===== src/MapReduce/Phase/Maps.antt =====
-- The map tasks of src/mapreduce as a phase.
use cs.Prelude.{
  ℕ, suc, ◌<◌, ◌≡◌, inl, inr, refl, sym, ap, ◌∙◌, List, [], ◌∷◌, ◌++◌, Option, some, Text, arith,
  length, get_elem?, get_elem?-lt, or_else, Option-cases, ◌>>=◌,
}
use cs.Prelude.Dicts.{Dict, lookup}
use cs.MapReduce.Defs.{KeyValue, Files, or_empty}
use cs.MapReduce.Names.{reduce_name-injective}
use cs.MapReduce.Map.{do_map}
use cs.MapReduce.Map.Overwrite.{outputs, outputs-frame, do_map-IsOver}
use cs.MapReduce.Phase.{Writes, after-snoc, AreApart, IsAfter, IsPhase}

module _ (job : Text) (files : List Text) (n : ℕ) (map_f : Text → Text → List KeyValue) where
  unfoldable pub run_map : ℕ → Files → Option Files
  run_map t fs = get_elem? files t >>= λ f. do_map job t f (suc n) map_f fs

  -- The pairs of a map task.
  abbrev pub pairs_of : Dict Text → ℕ → List KeyValue
  pairs_of plain t = let f = or_empty (get_elem? files t) in map_f f (or_empty (lookup f plain))

  unfoldable pub map_writes : Dict Text → Writes
  map_writes plain t k = lookup k (outputs job t n (pairs_of plain t))

  pub map_writes-AreApart : (plain : Dict Text) → AreApart (map_writes plain)
  unfolding map_writes
  map_writes-AreApart plain t u k ne =
      elim (Option-cases (lookup k (outputs job t n (pairs_of plain t)))) [
        | inl e ↦ inl e
        | inr (v, e) ↦ inr (
            outputs-frame job u n (pairs_of plain u) k (λ s q.
              let free =
                outputs-frame job t n (pairs_of plain t) k
                  (λ r p. ne (reduce_name-injective job t r u s (p ∙ sym q)).0) in
              ground (arith, e, free)))
      ]

  pub run_map-IsAfter :
      (fs0 : Files) (t : ℕ) (ts : List ℕ) (fs : Files)
      → t < length files
      → IsAfter (map_writes fs0.plain) fs0 ts fs
      → (fs' : Files) × (run_map t fs ≡ some fs')
        × IsAfter (map_writes fs0.plain) fs0 (ts ++ t ∷ []) fs'
  unfolding run_map map_writes
  run_map-IsAfter fs0 t ts fs lt (plain, same) =
      let (f, e) = get_elem?-lt files t lt in
      let (fs', q, p, over) = do_map-IsOver job t f n map_f fs in
      let pairs : map_f f (or_empty (lookup f fs.plain)) ≡ pairs_of fs0.plain t =
        rw (e, plain) refl in
      let merged = λ (k : Text) (kvs : List KeyValue).
        or_else (lookup k (outputs job t n kvs)) (lookup k fs.records) in
      (
        fs',
        rw (e) q,
        (
          p ∙ plain,
          λ k.
              over k
              ∙ ap (merged k) pairs
              ∙ ap (or_else (map_writes fs0.plain t k)) (same k)
              ∙ sym (after-snoc (map_writes fs0.plain) ts t k (lookup k fs0.records)),
        ),
      )

  -- The map tasks are a phase, from any files on.
  unfoldable pub map_tasks_phase : (fs0 : Files) → IsPhase run_map (length files) fs0
  map_tasks_phase fs0 = record {
    writes = map_writes fs0.plain;
    apart = map_writes-AreApart fs0.plain;
    effect = λ t ts fs lt w. run_map-IsAfter fs0 t ts fs lt w;
  }
