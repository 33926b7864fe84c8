-- ===== src/MapReduce/Reduce/Grouping.antt =====
-- The output of doReduce of src/mapreduce/common_reduce.go against the pairs that it reads.
use cs.Prelude.{
  ℕ, zero, suc, ◌+◌, ◌≤◌, ◌≡◌, refl, sym, ap, subst, ◌∙◌, Bool, true, false, List, [], ◌∷◌, ◌++◌,
  map, some, arith, Text, count, count-append, contains-count, ◌=ᵗ◌, =ᵗ_iff, =ᵗ_refl, if◌then◌else◌,
}
use mathlib.Core.List.{append_assoc, append-nil}
use cs.Prelude.Dicts.{Dict, lookup, insert, keys, has, lookup-insert, keys-insert, contains-keys}
use cs.MapReduce.Defs.{KeyValue, Files, reduce_name, merge_name, or_empty}
use cs.MapReduce.Reduce.{sort, bucket, gather, read_from, reduce_all, do_reduce}
use cs.MapReduce.Reduce.Sorting.{IsSorted, sort-IsSorted, count-sort}

-- The values of a key in a list of pairs, in order.
unfoldable pub values_of : Text → List KeyValue → List Text
values_of k [] = []
values_of k (kv ∷ kvs) = let rest = values_of k kvs in if kv.key =ᵗ k then kv.value ∷ rest else rest

unfoldable pub has_key : Text → List KeyValue → Bool
has_key k [] = false
has_key k (kv ∷ kvs) = let rest = has_key k kvs in if kv.key =ᵗ k then true else rest

abbrev pub keys_of : List KeyValue → List Text
keys_of = map (λ kv. kv.key)

-- All pairs that the map tasks left for a reduce task, in the order of the tasks.
unfoldable pub pairs_from : Text → (reduce_task rounds m : ℕ) → Dict (List KeyValue) → List KeyValue
pairs_from job r zero m d = []
pairs_from job r (suc rounds) m d =
    or_empty (lookup (reduce_name job m r) d) ++ pairs_from job r rounds (m + 1) d

-- An appended value goes to the bucket of its key.
bucket-insert :
    (k : Text) (kv : KeyValue) (b : Dict (List Text))
    → bucket k (insert kv.key (bucket kv.key b ++ kv.value ∷ []) b)
      ≡ bucket k b ++ values_of k (kv ∷ [])
unfolding bucket values_of
bucket-insert k kv b = ground (
  arith,
  lookup-insert kv.key k (or_empty (lookup kv.key b) ++ kv.value ∷ []) b,
  =ᵗ_iff kv.key k,
  append-nil (or_empty (lookup k b)),
)

values_of-cons :
    (k : Text) (kv : KeyValue) (kvs : List KeyValue)
    → values_of k (kv ∷ kvs) ≡ values_of k (kv ∷ []) ++ values_of k kvs
unfolding values_of
values_of-cons k kv kvs = ground arith

bucket-gather :
    (k : Text) (kvs : List KeyValue) (b : Dict (List Text))
    → bucket k (gather kvs b) ≡ bucket k b ++ values_of k kvs
unfolding gather values_of
bucket-gather k [] b = sym (append-nil (bucket k b))
bucket-gather k (kv ∷ kvs) b =
    bucket-gather k kvs (insert kv.key (bucket kv.key b ++ kv.value ∷ []) b)
    ∙ rw (bucket-insert k kv b, values_of-cons k kv kvs)
        (append_assoc (bucket k b) (values_of k (kv ∷ [])) (values_of k kvs))

has-gather :
    (k : Text) (kvs : List KeyValue) (b : Dict (List Text))
    → has k (gather kvs b) ≡ (if has k b then true else has_key k kvs)
unfolding gather has_key has
has-gather k [] b = ground arith
has-gather k (kv ∷ kvs) b = ground (
  arith,
  has-gather k kvs (insert kv.key (bucket kv.key b ++ kv.value ∷ []) b),
  lookup-insert kv.key k (bucket kv.key b ++ kv.value ∷ []) b,
)

insert-once :
    (k j : Text) (v : List Text) (b : Dict (List Text))
    → ((i : Text) → count i (keys b) ≤ 1)
    → count k (keys (insert j v b)) ≤ 1
unfolding count
insert-once k j v b h = ground (
  arith,
  keys-insert j v b,
  h k,
  =ᵗ_iff j k,
  contains-keys j b,
  contains-count (keys b) j,
  count-append k (keys b) (j ∷ []),
)

gather-once :
    (kvs : List KeyValue) (b : Dict (List Text))
    → ((k : Text) → count k (keys b) ≤ 1)
    → (k : Text) → count k (keys (gather kvs b)) ≤ 1
unfolding gather
gather-once [] b h = h
gather-once (kv ∷ kvs) b h =
    gather-once kvs (insert kv.key (bucket kv.key b ++ kv.value ∷ []) b)
      (λ k. insert-once k kv.key (bucket kv.key b ++ kv.value ∷ []) b h)

gather-append :
    (xs ys : List KeyValue) (b : Dict (List Text)) → gather (xs ++ ys) b ≡ gather ys (gather xs b)
unfolding gather
gather-append [] ys b = refl
gather-append (x ∷ xs) ys b = gather-append xs ys (insert x.key (bucket x.key b ++ x.value ∷ []) b)

read_from-gather :
    (job : Text) (r rounds m : ℕ) (d : Dict (List KeyValue)) (b : Dict (List Text))
    → read_from job r rounds m d b ≡ gather (pairs_from job r rounds m d) b
unfolding read_from pairs_from gather
read_from-gather job r zero m d b = refl
read_from-gather job r (suc rounds) m d b =
    let here = or_empty (lookup (reduce_name job m r) d) in
    read_from-gather job r rounds (m + 1) d (gather here b)
    ∙ sym (gather-append here (pairs_from job r rounds (m + 1) d) b)

keys-reduce_all :
    (reduce_f : Text → List Text → Text) (b : Dict (List Text)) (ks : List Text)
    → keys_of (reduce_all reduce_f b ks) ≡ ks
unfolding reduce_all
keys-reduce_all reduce_f b [] = refl
keys-reduce_all reduce_f b (k ∷ ks) = ap (λ l. k ∷ l) (keys-reduce_all reduce_f b ks)

-- The record of a key: the reduced values that the key has in the pairs.
unfoldable pub reduced : (Text → List Text → Text) → List KeyValue → Text → KeyValue
reduced reduce_f pairs k = record { key = k; value = reduce_f k (values_of k pairs) }

reduce_all-reduced :
    (reduce_f : Text → List Text → Text) (pairs : List KeyValue) (ks : List Text)
    → reduce_all reduce_f (gather pairs []) ks ≡ map (reduced reduce_f pairs) ks
unfolding reduce_all reduced lookup
reduce_all-reduced reduce_f pairs [] = refl
reduce_all-reduced reduce_f pairs (k ∷ ks) =
    rw (bucket-gather k pairs [], reduce_all-reduced reduce_f pairs ks) refl

count-keys :
    (k : Text) (pairs : List KeyValue)
    → count k (keys (gather pairs [])) ≡ (if has_key k pairs then 1 else 0)
unfolding count has lookup keys
count-keys k pairs =
    let b = gather pairs [] in
    ground (
      arith,
      gather-once pairs [] (λ i. omega arith) k,
      has-gather k pairs [],
      contains-keys k b,
      contains-count (keys b) k,
    )

module _ (job : Text) (r n_map : ℕ) (reduce_f : Text → List Text → Text) (fs : Files) where
  -- The output file of doReduce holds one record for each key that occurs in the pairs of its
  -- intermediate files, and none for any other key, sorted by key; each has what the reduce function
  -- gives for the key and all its values, in the order of the map tasks and of their pairs.
  pub do_reduce-groups :
      let pairs = pairs_from job r n_map 0 fs.records in
      (out : List KeyValue) × (lookup (merge_name job r) (do_reduce job r n_map reduce_f fs).records
        ≡ some out)
      × IsSorted (keys_of out)
      × ((k : Text) → count k (keys_of out) ≡ (if has_key k pairs then 1 else 0))
      × (out ≡ map (reduced reduce_f pairs) (keys_of out))
  unfolding do_reduce
  do_reduce-groups =
      let pairs = pairs_from job r n_map 0 fs.records in
      let b = gather pairs [] in
      let out = reduce_all reduce_f b (sort (keys b)) in
      let name = merge_name job r in
      let named = keys-reduce_all reduce_f b (sort (keys b)) in
      (
        out,
        rw
            (
              read_from-gather job r n_map 0 fs.records [],
              lookup-insert name name out fs.records,
              =ᵗ_refl name,
            )
            refl,
        subst IsSorted (sym named) (sort-IsSorted (keys b)),
        (λ k. ap (count k) named ∙ count-sort k (keys b) ∙ count-keys k pairs),
        reduce_all-reduced reduce_f pairs (sort (keys b))
            ∙ ap (map (reduced reduce_f pairs)) (sym named),
      )
