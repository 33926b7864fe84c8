-- ===== src/Gossip/Node/Receive.antt =====
-- The push branch of Handle in project/gossip/pkg/gossip/node.go.
use cs.Prelude.{
  or_else, decrement, ℕ, ◌≡◌, refl, List, [], ◌∷◌, Option, none, some, arith, Text, ◌=ᵗ◌, =ᵗ_iff,
  if◌then◌else◌, inl, inr, Option-cases,
}
use cs.Prelude.Dicts.{lookup, lookup-insert}
use cs.Gossip.Defs.{msg_push, Rumor, Msg, Store, Node, positive, received}
use cs.Gossip.Store.{write_log, add}
use cs.Gossip.Node.{handle, dispatch, receive_push, head_or_zero}

-- The first rumor of a push under an ID that has a hop left, with one hop less.
unfoldable pub first_live : Text → List Rumor → Option Rumor
first_live k [] = none
first_live k (r ∷ rs) =
    let rest = first_live k rs in
    if positive r.ttl
    then (if r.id =ᵗ k then some (record r { ttl = decrement r.ttl }) else rest)
    else rest

-- Add keeps a rumor that is there and stores a new one.
lookup-add :
    (now : ℕ) (r : Rumor) (s : Store) (k : Text)
    → lookup k (add now r s).store.seen
      ≡ or_else (lookup k s.seen) (if r.id =ᵗ k then some r else none)
unfolding add write_log
lookup-add now r s k = elim (Option-cases (lookup r.id s.seen)) [
  | inl e ↦ ground (arith, e, =ᵗ_iff r.id k, lookup-insert r.id k r s.seen)
  | inr (old, e) ↦ ground (arith, e, =ᵗ_iff r.id k)
]

lookup-receive :
    (now : ℕ) (rs : List Rumor) (s : Store) (k : Text)
    → lookup k (receive_push now rs s).seen ≡ or_else (lookup k s.seen) (first_live k rs)
unfolding receive_push first_live
lookup-receive now [] s k = ground arith
lookup-receive now (r ∷ rs) s k =
    let live : Rumor = record r { ttl = decrement r.ttl } in
    ground (
      arith,
      lookup-add now live s k,
      lookup-receive now rs (add now live s).store k,
      lookup-receive now rs s k,
    )

-- After a node handled a push, it knows under each ID the rumor that it knew before, or, if there was
-- none, the first rumor of the push with that ID and a positive TTL, its TTL lowered by one; and it
-- sends nothing.
pub handle-push :
    (now : ℕ) (order : List Text → List Text) (m : Msg) (remote : Text) (n : Node)
    → m.type_tag ≡ some msg_push
    → let h = handle now order m remote n in
      ((k : Text)
        → lookup k h.node.store.seen ≡ or_else (lookup k n.store.seen) (first_live k m.rumors))
      × (h.sends ≡ [])
unfolding handle dispatch write_log
handle-push now order m remote n is_push = rw (is_push) (
  λ k. lookup-receive now m.rumors (write_log now received (head_or_zero m.rumors) n.store) k,
  refl,
)
