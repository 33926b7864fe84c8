-- ===== src/MapReduce/Map/Overwrite.antt =====
-- doMap of src/mapreduce/common_map.go as an overwrite: what it writes does not depend on the files
-- that are there, and it writes no other file than its own.
use cs.Prelude.{
  ℕ, suc, ◌%◌, ◌≡◌, ◌≢◌, refl, ap, ◌∙◌, Bool, true, List, [], ◌∷◌, ◌++◌, none, some, Text, arith,
  ==_iff, =ᵗ_iff, if◌then◌else◌, or_else,
}
use cs.Prelude.Dicts.{Dict, lookup, insert, has, lookup-insert}
use cs.MapReduce.Defs.{ihash, KeyValue, Files, reduce_name, or_empty}
use cs.MapReduce.Map.{is_open, append_to, emit_all, do_map}

module _ (job : Text) (task : ℕ) where
  -- The files of the open partitions are there.
  abbrev pub AreThere : List ℕ → Dict (List KeyValue) → Type 0
  AreThere opened e = (r : ℕ) → is_open r opened ≡ true → has (reduce_name job task r) e ≡ true

  -- The files d are the files e on top of d0.
  abbrev pub IsOver : Dict (List KeyValue) → Dict (List KeyValue) → Dict (List KeyValue) → Type 0
  IsOver d e d0 = (k : Text) → lookup k d ≡ or_else (lookup k e) (lookup k d0)

  -- The files before a pair is appended.
  abbrev pub readied : Bool → Text → Dict (List KeyValue) → Dict (List KeyValue)
  readied was_open name d = if was_open then d else insert name [] d

  append_to-IsOver :
      (r : ℕ) (kv : KeyValue) (opened : List ℕ) (d e d0 : Dict (List KeyValue))
      → AreThere opened e
      → IsOver d e d0
      → let name = reduce_name job task r in
        IsOver
          (append_to name kv (readied (is_open r opened) name d))
          (append_to name kv (readied (is_open r opened) name e))
          d0
  unfolding append_to has
  append_to-IsOver r kv opened d e d0 there over k =
      let name = reduce_name job task r in
      let written = λ (b : Dict (List KeyValue)).
        lookup-insert name k (or_empty (lookup name b) ++ kv ∷ []) b in
      ground (
        arith,
        there r,
        over k,
        over name,
        =ᵗ_iff name k,
        =ᵗ_iff name name,
        written d,
        written e,
        written (insert name [] d),
        written (insert name [] e),
        lookup-insert name k [] d,
        lookup-insert name k [] e,
        lookup-insert name name [] d,
        lookup-insert name name [] e,
      )

  append_to-AreThere :
      (r : ℕ) (kv : KeyValue) (opened : List ℕ) (e : Dict (List KeyValue))
      → AreThere opened e
      → let name = reduce_name job task r in
        AreThere
          (if is_open r opened then opened else r ∷ opened)
          (append_to name kv (readied (is_open r opened) name e))
  unfolding append_to has is_open
  append_to-AreThere r kv opened e there s o =
      let name = reduce_name job task in
      let written = λ (b : Dict (List KeyValue)).
        lookup-insert (name r) (name s) (or_empty (lookup (name r) b) ++ kv ∷ []) b in
      ground (
        arith,
        there s,
        ==_iff r s,
        =ᵗ_iff (name r) (name s),
        ap name {x = r} {y = s},
        written e,
        written (insert (name r) [] e),
        lookup-insert (name r) (name s) [] e,
      )

  emit_all-IsOver :
      (n : ℕ) (kvs : List KeyValue) (opened : List ℕ) (d e d0 : Dict (List KeyValue))
      → AreThere opened e
      → IsOver d e d0
      → (d' e' : Dict (List KeyValue)) × (emit_all job task (suc n) kvs opened d ≡ some d')
        × (emit_all job task (suc n) kvs opened e ≡ some e')
        × IsOver d' e' d0
  unfolding emit_all
  emit_all-IsOver n [] opened d e d0 there over = (d, e, refl, refl, over)
  emit_all-IsOver n (kv ∷ kvs) opened d e d0 there over =
      let r = ihash kv.key % suc n in
      emit_all-IsOver n kvs (if is_open r opened then opened else r ∷ opened) _ _ d0
        (append_to-AreThere r kv opened e there) (append_to-IsOver r kv opened d e d0 there over)

  -- A file that is none of the task's is as it was.
  emit_all-frame :
      (n : ℕ) (kvs : List KeyValue) (opened : List ℕ) (d d' : Dict (List KeyValue)) (k : Text)
      → ((r : ℕ) → reduce_name job task r ≢ k)
      → emit_all job task (suc n) kvs opened d ≡ some d'
      → lookup k d' ≡ lookup k d
  unfolding emit_all append_to
  emit_all-frame n [] opened d d' k other e = ground arith
  emit_all-frame n (kv ∷ kvs) opened d d' k other e =
      let r = ihash kv.key % suc n in
      let name = reduce_name job task r in
      emit_all-frame n kvs (if is_open r opened then opened else r ∷ opened) _ d' k other e
      ∙ ground (
        arith,
        other r,
        =ᵗ_iff name k,
        lookup-insert name k (or_empty (lookup name d) ++ kv ∷ []) d,
        lookup-insert name k (or_empty (lookup name (insert name [] d)) ++ kv ∷ [])
            (insert name [] d),
        lookup-insert name k [] d,
      )

  -- What the task writes where there is no file.
  unfoldable pub outputs : ℕ → List KeyValue → Dict (List KeyValue)
  outputs n kvs = or_empty (emit_all job task (suc n) kvs [] [])

  pub outputs-frame :
      (n : ℕ) (kvs : List KeyValue) (k : Text)
      → ((r : ℕ) → reduce_name job task r ≢ k)
      → lookup k (outputs n kvs) ≡ none
  unfolding outputs is_open lookup
  outputs-frame n kvs k other =
      let (d, e, p, q, _) = emit_all-IsOver n kvs [] [] [] [] (λ r o. ground arith) (λ j. refl) in
      rw (p) (emit_all-frame n kvs [] [] d k other p)

  -- doMap puts the task's outputs over the files that are there.
  pub do_map-IsOver :
      (in_file : Text) (n : ℕ) (map_f : Text → Text → List KeyValue) (fs : Files)
      → (fs' : Files) × (do_map job task in_file (suc n) map_f fs ≡ some fs')
        × (fs'.plain ≡ fs.plain)
        × IsOver fs'.records
            (outputs n (map_f in_file (or_empty (lookup in_file fs.plain))))
            fs.records
  unfolding do_map outputs is_open lookup
  do_map-IsOver in_file n map_f fs =
      let kvs = map_f in_file (or_empty (lookup in_file fs.plain)) in
      let (d, e, p, q, over) =
        emit_all-IsOver n kvs [] fs.records [] fs.records (λ r o. ground arith) (λ j. refl) in
      (record fs { records = d }, rw (p) refl, refl, λ k. rw (q) (over k))
