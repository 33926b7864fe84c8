-- ===== src/Gossip/Store/Runs.antt =====
-- The store of project/gossip/pkg/gossip/store.go over any sequence of its operations.
use cs.Prelude.{
  ℕ, suc, ◌+◌, ◌≤◌, ◌≡◌, refl, sym, ap, subst, ◌∙◌, Bool, true, false, List, [], ◌∷◌, ◌++◌, map,
  none, some, arith, Text, count, contains, count-append, contains-append, contains-count,
  if◌then◌else◌, ◌=ᵗ◌, =ᵗ_iff, =ᵗ_refl, inl, inr, Option-cases,
}
use mathlib.Core.List.{append_assoc, append-nil}
use cs.Prelude.Dicts.{Dict, lookup, insert, keys, has, lookup-insert, keys-insert, contains-keys}
use cs.Gossip.Defs.{Rumor, LogEvent, inject, deliver, sent, received, LogRec, Store}
use cs.Gossip.Store.{new_store, write_log, add, ready_to_push, collect}

-- An operation on the store; the node logs every event but deliver itself.
pub data Op : Type 0 where
  adds : ℕ → Rumor → Op
  pushes : Op
  logs_inject logs_sent logs_received : ℕ → Rumor → Op

-- The store, and the IDs of all rumors that were handed out to be pushed, in order.
pub record History : Type 0 where
  pub store : Store
  pub pushed : List Text

-- The IDs of the rumors in a list.
abbrev pub ids_of : List Rumor → List Text
ids_of = map (λ r. r.id)

unfoldable pub apply : Op → History → History
apply (adds now r) h = record h { store = (add now r h.store).store }
apply pushes h = record {
  store = (ready_to_push h.store).store;
  pushed = h.pushed ++ ids_of (ready_to_push h.store).rumors;
}
apply (logs_inject now r) h = record h { store = write_log now inject r h.store }
apply (logs_sent now r) h = record h { store = write_log now sent r h.store }
apply (logs_received now r) h = record h { store = write_log now received r h.store }

unfoldable pub run : List Op → History → History
run [] h = h
run (op ∷ ops) h = run ops (apply op h)

abbrev pub started : Bool → Text → History
started file_opened node_id = record { store = new_store file_opened node_id; pushed = [] }

unfoldable pub is_deliver : LogEvent → Bool
is_deliver inject = false
is_deliver deliver = true
is_deliver sent = false
is_deliver received = false

-- How many deliver records the log holds for an ID.
unfoldable pub deliveries : Text → List LogRec → ℕ
unfolding is_deliver
deliveries k [] = 0
deliveries k (rec ∷ recs) =
    let rest = deliveries k recs in
    if is_deliver rec.ev then (if rec.id =ᵗ k then suc rest else rest) else rest

-- What holds after every operation: rumors stand under their IDs, each ID once, and the IDs handed out
-- and those still to come are all IDs in the order of their arrival.
pub record IsValid (h : History) : Type 0 where
  pub keyed : (k : Text) (r : Rumor) → lookup k h.store.seen ≡ some r → r.id ≡ k
  pub ids_split : h.pushed ++ h.store.new_ids ≡ keys h.store.seen
  pub once : (k : Text) → count k (keys h.store.seen) ≤ 1

module _ (now : ℕ) (r : Rumor) (h : History) where
  add_new :
      lookup r.id h.store.seen ≡ none
      → ((apply (adds now r) h).store.seen ≡ insert r.id r h.store.seen)
        × ((apply (adds now r) h).store.new_ids ≡ h.store.new_ids ++ r.id ∷ [])
  unfolding apply add
  add_new e = ground arith

  pub add_old : {old : Rumor} → lookup r.id h.store.seen ≡ some old → apply (adds now r) h ≡ h
  unfolding apply add
  add_old e = ground arith

  pub new_key : lookup r.id h.store.seen ≡ none → has r.id h.store.seen ≡ false
  unfolding has
  new_key e = ground arith

  keys_new :
      lookup r.id h.store.seen ≡ none
      → keys (insert r.id r h.store.seen) ≡ keys h.store.seen ++ r.id ∷ []
  keys_new e = rw (keys-insert r.id r h.store.seen, new_key e)

  once_new :
      (k : Text)
      → IsValid h
      → lookup r.id h.store.seen ≡ none
      → count k (keys h.store.seen ++ r.id ∷ []) ≤ 1
  unfolding count
  once_new k v e = ground (
    arith,
    v.once k,
    count-append k (keys h.store.seen) (r.id ∷ []),
    =ᵗ_iff r.id k,
    (contains-count (keys h.store.seen) r.id).0 (contains-keys r.id h.store.seen ∙ new_key e),
  )

  adds-IsValid : IsValid h → IsValid (apply (adds now r) h)
  unfolding apply
  adds-IsValid v = elim (Option-cases (lookup r.id h.store.seen)) [
    | inr (old, e) ↦ subst IsValid (sym (add_old e)) v
    | inl e ↦
        let (seen, ids) = add_new e in
        record {
          keyed = λ k r' q.
              let q' : (if r.id =ᵗ k then some r else lookup k h.store.seen) ≡ some r' =
                sym (lookup-insert r.id k r h.store.seen) ∙ sym (ap (lookup k) seen) ∙ q in
              ground (arith, =ᵗ_iff r.id k, v.keyed k r');
          ids_split = rw (
            ids,
            seen,
            keys_new e,
            ← append_assoc h.pushed h.store.new_ids (r.id ∷ []),
            v.ids_split,
          );
          once = λ k. rw (seen, keys_new e) (once_new k v e);
        }
  ]

has-some : {V : Type 0} (k : Text) (d : Dict V) → has k d ≡ true → (v : V) × (lookup k d ≡ some v)
unfolding has
has-some k d e = elim (Option-cases (lookup k d)) [ inl n ↦ ground arith | inr (v, q) ↦ (v, q) ]

-- The rumors that are collected for known IDs have these IDs.
ids-collect :
    (s : Store) (ids : List Text)
    → ((k : Text) (r : Rumor) → lookup k s.seen ≡ some r → r.id ≡ k)
    → ((k : Text) → contains ids k ≡ true → has k s.seen ≡ true)
    → ids_of (collect s ids) ≡ ids
unfolding collect contains
ids-collect s [] keyed known = refl
ids-collect s (k ∷ ks) keyed known =
    let (r, q) = has-some k s.seen (known k (rw (=ᵗ_refl k))) in
    rw (q, collect) (rw (keyed k r q, ids-collect s ks keyed (λ j c. known j (ground arith))))

pushes-IsValid : (h : History) → IsValid h → IsValid (apply pushes h)
unfolding apply ready_to_push
pushes-IsValid h v =
    let e = ids-collect h.store h.store.new_ids v.keyed (λ k c.
      let q : contains (h.pushed ++ h.store.new_ids) k ≡ true =
        rw (contains-append h.pushed h.store.new_ids k, c) (ground arith) in
      sym (contains-keys k h.store.seen) ∙ ap (λ ks. contains ks k) (sym v.ids_split) ∙ q) in
    record { keyed = v.keyed; ids_split = rw (e, append-nil) v.ids_split; once = v.once }

apply-IsValid : (op : Op) (h : History) → IsValid h → IsValid (apply op h)
unfolding apply write_log
apply-IsValid (adds now r) h v = adds-IsValid now r h v
apply-IsValid pushes h v = pushes-IsValid h v
apply-IsValid (logs_inject now r) h v = record {
  keyed = v.keyed;
  ids_split = v.ids_split;
  once = v.once;
}
apply-IsValid (logs_sent now r) h v = record {
  keyed = v.keyed;
  ids_split = v.ids_split;
  once = v.once;
}
apply-IsValid (logs_received now r) h v = record {
  keyed = v.keyed;
  ids_split = v.ids_split;
  once = v.once;
}

run-IsValid : (ops : List Op) (h : History) → IsValid h → IsValid (run ops h)
unfolding run
run-IsValid [] h v = v
run-IsValid (op ∷ ops) h v = run-IsValid ops (apply op h) (apply-IsValid op h v)

started-IsValid : (file_opened : Bool) (node_id : Text) → IsValid (started file_opened node_id)
unfolding new_store keys lookup count
started-IsValid file_opened node_id = record {
  keyed = λ k r q. ground arith;
  ids_split = refl;
  once = λ k. omega arith;
}

count-keys :
    {V : Type 0} (k : Text) (d : Dict V)
    → count k (keys d) ≤ 1
    → count k (keys d) ≡ (if has k d then 1 else 0)
count-keys k d h = ground (arith, contains-keys k d, contains-count (keys d) k)

-- After any operations on a new store, an ID that the store knows has been handed out to be pushed
-- once or waits to be, once; an ID that it does not know, never.
pub run-pushed_once :
    (ops : List Op) (file_opened : Bool) (node_id k : Text)
    → let h = run ops (started file_opened node_id) in
      count k h.pushed + count k h.store.new_ids ≡ (if has k h.store.seen then 1 else 0)
run-pushed_once ops file_opened node_id k =
    let h = run ops (started file_opened node_id) in
    let v = run-IsValid ops (started file_opened node_id) (started-IsValid file_opened node_id) in
    sym (count-append k h.pushed h.store.new_ids)
    ∙ ap (count k) v.ids_split
    ∙ count-keys k h.store.seen (v.once k)
