-- ===== src/MapReduce/Master/Merging.antt =====
-- The map that merge of src/mapreduce/master_splitmerge.go builds from the results.
use cs.Prelude.{
  ℕ, zero, suc, ◌+◌, ◌%◌, ◌<◌, ◌≤◌, ◌≡◌, refl, sym, ap, subst, ◌∙◌, Bool, false, ◌&&◌, List, [],
  ◌∷◌, map, some, Text, arith, leb, ◌==◌, ==_iff, =ᵗ_iff, =ᵗ_refl, count, contains, contains-count,
  count-append, if◌then◌else◌, ◌>>=◌, >>=-eq-some, inl, inr, Bool-cases,
}
use mathlib.Core.Option.{some-injective}
use cs.Prelude.Dicts.{Dict, lookup, insert, keys, lookup-insert, keys-insert, contains-keys}
use cs.MapReduce.Defs.{ihash, KeyValue, Files, merge_name}
use cs.MapReduce.Map.Partition.{partition}
use cs.MapReduce.Reduce.Grouping.{
  values_of, has_key, keys_of, reduced, pairs_from, do_reduce-groups,
}
use cs.MapReduce.Master.{put_all, merge_from}
use cs.MapReduce.Phase.Reduces.{result, lookup-do_reduce}

-- A partition has the keys that hash to it, with all their values.
has_key-partition :
    (n r : ℕ) (k : Text) (kvs : List KeyValue)
    → has_key k (partition n r kvs) ≡ (if ihash k % n == r then has_key k kvs else false)
unfolding has_key partition
has_key-partition n r k [] = ground arith
has_key-partition n r k (kv ∷ kvs) =
    ground
      (arith, has_key-partition n r k kvs, =ᵗ_iff kv.key k, ap (λ t. ihash t) {x = kv.key} {y = k})

values_of-partition :
    (n r : ℕ) (k : Text) (kvs : List KeyValue)
    → ihash k % n ≡ r
    → values_of k (partition n r kvs) ≡ values_of k kvs
unfolding values_of partition
values_of-partition n r k [] h = refl
values_of-partition n r k (kv ∷ kvs) h = ground (
  arith,
  values_of-partition n r k kvs h,
  =ᵗ_iff kv.key k,
  ap (λ t. ihash t) {x = kv.key} {y = k},
  ==_iff (ihash kv.key % n) r,
)

-- The records of a result, put into the map that merge builds.
lookup-put_all :
    (reduce_f : Text → List Text → Text) (pairs : List KeyValue) (ks : List Text) (kvs : Dict Text)
    (k : Text)
    → lookup k (put_all (map (reduced reduce_f pairs) ks) kvs)
      ≡ (if contains ks k then some (reduce_f k (values_of k pairs)) else lookup k kvs)
unfolding put_all contains reduced
lookup-put_all reduce_f pairs [] kvs k = refl
lookup-put_all reduce_f pairs (x ∷ ks) kvs k =
    let v = reduce_f x (values_of x pairs) in
    ground (
      arith,
      lookup-put_all reduce_f pairs ks (insert x v kvs) k,
      lookup-insert x k v kvs,
      =ᵗ_iff x k,
      ap (λ t. reduce_f t (values_of t pairs)) {x = x} {y = k},
    )

pub contains-keys_of :
    (k : Text) (ks : List Text) (b : Bool) → count k ks ≡ (if b then 1 else 0) → contains ks k ≡ b
contains-keys_of k ks b h = ground (arith, contains-count ks k)

-- The result of a reduce task.
result-reduced :
    (job : Text) (r n_map : ℕ) (reduce_f : Text → List Text → Text) (fs : Files)
    → let pairs = pairs_from job r n_map 0 fs.records in
      (ks : List Text) × (result job n_map reduce_f fs.records r ≡ map (reduced reduce_f pairs) ks)
      × ((k : Text) → contains ks k ≡ has_key k pairs)
result-reduced job r n_map reduce_f fs =
    let (out, e, _, counts, shape) = do_reduce-groups job r n_map reduce_f fs in
    let name = merge_name job r in
    let found : some (result job n_map reduce_f fs.records r) ≡ some out =
      sym (lookup-do_reduce job n_map reduce_f r fs name ∙ rw (=ᵗ_refl name) refl) ∙ e in
    (
      keys_of out,
      some-injective _ _ found ∙ shape,
      λ k. contains-keys_of k (keys_of out) _ (counts k),
    )

insert-once :
    (k j v : Text) (b : Dict Text)
    → ((i : Text) → count i (keys b) ≤ 1)
    → count k (keys (insert j v b)) ≤ 1
unfolding count
insert-once k j v b h = ground (
  arith,
  keys-insert j v b,
  h k,
  =ᵗ_iff j k,
  contains-keys j b,
  contains-count (keys b) j,
  count-append k (keys b) (j ∷ []),
)

-- The map that merge builds has each key once.
put_all-once :
    (kvs : List KeyValue) (b : Dict Text)
    → ((k : Text) → count k (keys b) ≤ 1)
    → (k : Text) → count k (keys (put_all kvs b)) ≤ 1
unfolding put_all
put_all-once [] b h = h
put_all-once (kv ∷ kvs) b h =
    put_all-once kvs (insert kv.key kv.value b) (λ k. insert-once k kv.key kv.value b h)

pub merge_from-once :
    (job : Text) (rounds i : ℕ) (d : Dict (List KeyValue)) (kvs out : Dict Text)
    → ((k : Text) → count k (keys kvs) ≤ 1)
    → merge_from job rounds i d kvs ≡ some out
    → (k : Text) → count k (keys out) ≤ 1
unfolding merge_from
merge_from-once job zero i d kvs out h e =
    subst (λ o. (k : Text) → count k (keys o) ≤ 1) (some-injective _ _ e) h
merge_from-once job (suc rounds) i d kvs out h e =
    let (file, p, q) = >>=-eq-some (lookup (merge_name job i) d) _ e in
    merge_from-once job rounds (i + 1) d (put_all file kvs) out (put_all-once file kvs h) q

module _ (job : Text) (n n_map : ℕ) (reduce_f : Text → List Text → Text)
    (pairs : List KeyValue) where
  -- What the output gives for a key.
  abbrev pub value_for : Text → Text
  value_for k = reduce_f k (values_of k pairs)

  pub lookup-merge_from :
      (fs : Files) (d : Dict (List KeyValue)) (rounds i : ℕ) (kvs out : Dict Text)
      → ((r : ℕ) → r < suc n → pairs_from job r n_map 0 fs.records ≡ partition (suc n) r pairs)
      → ((r : ℕ)
          → r < suc n
          → lookup (merge_name job r) d ≡ some (result job n_map reduce_f fs.records r))
      → i + rounds ≡ suc n
      → merge_from job rounds i d kvs ≡ some out
      → (k : Text)
      → lookup k out
        ≡ (if leb i (ihash k % suc n) && has_key k pairs then some (value_for k) else lookup k kvs)
  unfolding merge_from
  lookup-merge_from fs d zero i kvs out reads results e m k = ground (arith, some-injective _ _ m)
  lookup-merge_from fs d (suc rounds) i kvs out reads results e m k =
      let (ks, shape, holds) = result-reduced job i n_map reduce_f fs in
      let mine = partition (suc n) i pairs in
      let read = reads i (omega (arith, e)) in
      let file = map (reduced reduce_f mine) ks in
      let found : lookup (merge_name job i) d ≡ some file =
        results i (omega (arith, e))
        ∙ ap some (shape ∙ ap (λ p. map (reduced reduce_f p) ks) read) in
      let rest : merge_from job rounds (i + 1) d (put_all file kvs) ≡ some out =
        sym (ap (λ x. x >>= λ f. merge_from job rounds (i + 1) d (put_all f kvs)) found) ∙ m in
      let later =
        lookup-merge_from fs d rounds (i + 1) (put_all file kvs) out reads results
          (omega (arith, e)) rest k in
      let put = lookup-put_all reduce_f mine ks kvs k in
      let held : contains ks k ≡ (if ihash k % suc n == i then has_key k pairs else false) =
        holds k ∙ ap (has_key k) read ∙ has_key-partition (suc n) i k pairs in
      elim (Bool-cases (ihash k % suc n == i)) [
        | inl here ↦
            let same = values_of-partition (suc n) i k pairs ((==_iff _ _).0 here) in
            ground (arith, later, put, held, here, ap (reduce_f k) same)
        | inr there ↦ ground (arith, later, put, held, there)
      ]
