-- ===== src/MapReduce/Map/Partition.antt =====
-- The intermediate files that doMap of src/mapreduce/common_map.go leaves.
use cs.Prelude.{
  ℕ, suc, ◌%◌, ◌≡◌, refl, ap, ◌∙◌, Bool, true, false, List, [], ◌∷◌, ◌++◌, Option, some, Text,
  arith, ◌==◌, ==_iff, =ᵗ_iff, if◌then◌else◌,
}
use mathlib.Core.List.{append_assoc}
use cs.Prelude.Dicts.{Dict, lookup, insert, lookup-insert}
use cs.MapReduce.Defs.{ihash, KeyValue, Files, reduce_name, or_empty}
use cs.MapReduce.Names.{reduce_name-injective}
use cs.MapReduce.Map.{is_open, append_to, emit_all, do_map}

-- The pairs of a partition, in order.
unfoldable pub partition : (n_reduce r : ℕ) → List KeyValue → List KeyValue
partition n r [] = []
partition n r (kv ∷ kvs) =
    let rest = partition n r kvs in if ihash kv.key % n == r then kv ∷ rest else rest

-- What a file holds after some pairs went there, by whether it was open before: if not, the first of
-- them replaces what was there.
unfoldable pub landed :
    (was_open : Bool) → List KeyValue → Option (List KeyValue) → Option (List KeyValue)
landed was_open [] old = old
landed true (kv ∷ kvs) old = some (or_empty old ++ kv ∷ kvs)
landed false (kv ∷ kvs) old = some (kv ∷ kvs)

landed-more :
    (ys kvs : List KeyValue) (kv : KeyValue)
    → landed true kvs (some (ys ++ kv ∷ [])) ≡ some (ys ++ kv ∷ kvs)
unfolding landed
landed-more ys [] kv = refl
landed-more ys (x ∷ kvs) kv = ap some (append_assoc ys (kv ∷ []) (x ∷ kvs))

module _ (job : Text) (task : ℕ) where
  lookup-append_to :
      (r s : ℕ) (kv : KeyValue) (d : Dict (List KeyValue))
      → lookup (reduce_name job task r) (append_to (reduce_name job task s) kv d) ≡ (
          if s == r
          then some (or_empty (lookup (reduce_name job task r) d) ++ kv ∷ [])
          else lookup (reduce_name job task r) d)
  unfolding append_to
  lookup-append_to r s kv d =
      let name = reduce_name job task in
      ground (
        arith,
        ==_iff s r,
        =ᵗ_iff (name s) (name r),
        reduce_name-injective job task s task r,
        lookup-insert (name s) (name r) (or_empty (lookup (name s) d) ++ kv ∷ []) d,
      )

  -- The state before the loop's next round, for the file of a partition.
  step-landed :
      (n r : ℕ) (kv : KeyValue) (kvs : List KeyValue) (opened : List ℕ) (d : Dict (List KeyValue))
      → let s = ihash kv.key % suc n in
        landed
          (is_open r (if is_open s opened then opened else s ∷ opened))
          (partition (suc n) r kvs)
          (lookup (reduce_name job task r) (
            append_to
              (reduce_name job task s)
              kv
              (if is_open s opened then d else insert (reduce_name job task s) [] d)))
        ≡ landed
            (is_open r opened)
            (partition (suc n) r (kv ∷ kvs))
            (lookup (reduce_name job task r) d)
  unfolding landed partition is_open
  step-landed n r kv kvs opened d =
      let s = ihash kv.key % suc n in
      let name = reduce_name job task in
      let created = insert (name s) [] d in
      ground (
        arith,
        ==_iff s r,
        =ᵗ_iff (name s) (name r),
        reduce_name-injective job task s task r,
        lookup-append_to r s kv d,
        lookup-append_to r s kv created,
        lookup-insert (name s) (name r) [] d,
        landed-more (or_empty (lookup (name r) d)) (partition (suc n) r kvs) kv,
        landed-more [] (partition (suc n) r kvs) kv,
      )

  pub emit_all-landed :
      (n : ℕ) (kvs : List KeyValue) (opened : List ℕ) (d : Dict (List KeyValue))
      → (d' : Dict (List KeyValue)) × (emit_all job task (suc n) kvs opened d ≡ some d')
        × ((r : ℕ)
            → lookup (reduce_name job task r) d'
              ≡ landed
                  (is_open r opened)
                  (partition (suc n) r kvs)
                  (lookup (reduce_name job task r) d))
  unfolding emit_all landed partition
  emit_all-landed n [] opened d = (d, refl, λ r. refl)
  emit_all-landed n (kv ∷ kvs) opened d =
      let s = ihash kv.key % suc n in
      let name = reduce_name job task s in
      let (d', e, f) =
        emit_all-landed n kvs (if is_open s opened then opened else s ∷ opened)
          (append_to name kv (if is_open s opened then d else insert name [] d)) in
      (d', e, λ r. f r ∙ step-landed n r kv kvs opened d)

  -- With at least one reduce task, doMap does not panic. Of its intermediate files, each whose partition has a pair then holds exactly the pairs
  -- that the map function gave and that hash to the partition, in order; each other is as it was.
  pub do_map-partitions :
      (in_file : Text) (n : ℕ) (map_f : Text → Text → List KeyValue) (fs : Files)
      → (fs' : Files) × (do_map job task in_file (suc n) map_f fs ≡ some fs')
        × ((r : ℕ)
            → lookup (reduce_name job task r) fs'.records
              ≡ landed false
                  (partition (suc n) r (map_f in_file (or_empty (lookup in_file fs.plain))))
                  (lookup (reduce_name job task r) fs.records))
  unfolding do_map is_open
  do_map-partitions in_file n map_f fs =
      let (d, e, f) =
        emit_all-landed n (map_f in_file (or_empty (lookup in_file fs.plain))) [] fs.records in
      (record fs { records = d }, rw (e) refl, f)
