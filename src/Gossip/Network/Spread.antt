-- ===== src/Gossip/Network/Spread.antt =====
-- A rumor of project/gossip reaches the peers of a node that has it to push.
use cs.Prelude.{
  ℕ, suc, ◌≤◌, pos, ◌≡◌, refl, sym, ap, ◌∙◌, true, List, [], ◌∷◌, map, some, arith, Text, length,
  contains, get_elem?, or_else, ◌&&◌, decrement, get_elem?-suffix, get_elem?-map, Bool-cases, ◌=ᵗ◌,
  =ᵗ_iff, =ᵗ_refl, inl, inr,
}
use cs.Prelude.Dicts.{lookup, has, lookup-insert}
use cs.Gossip.Defs.{msg_push, Rumor, Store, Node, Envelope, positive}
use cs.Gossip.Store.{collect, or_zero, ready_to_push}
use cs.Gossip.Node.{Handled, tick_once, handle}
use cs.Gossip.Node.Tick.{push_msg, tick_once-to_all}
use cs.Gossip.Node.Receive.{first_live, handle-push}
use cs.Gossip.Network.{Packet, Network, Event, ticked, arrived, at_node, arrive, sent_by, step, run}

module _ (k : Text) (x : Rumor) (xs : List Rumor) where
  first_live-head :
      positive x.ttl ≡ true → x.id ≡ k → (r : Rumor) × (first_live k (x ∷ xs) ≡ some r)
  unfolding first_live
  first_live-head live e =
      (record x { ttl = decrement x.ttl }, ground (arith, live, (=ᵗ_iff x.id k).1 e))

  first_live-tail :
      {r : Rumor} → first_live k xs ≡ some r → (r' : Rumor) × (first_live k (x ∷ xs) ≡ some r')
  unfolding first_live
  first_live-tail {r = r} e = elim (Bool-cases (positive x.ttl && (x.id =ᵗ k))) [
    | inl head ↦ (record x { ttl = decrement x.ttl }, ground (arith, head))
    | inr tail ↦ (r, ground (arith, tail, e))
  ]

-- A rumor that waits to be pushed has a live rumor under its ID in the batch.
first_live-collect :
    (s : Store) (k : Text) (r : Rumor) (ids : List Text)
    → lookup k s.seen ≡ some r
    → r.id ≡ k
    → positive r.ttl ≡ true
    → contains ids k ≡ true
    → (r' : Rumor) × (first_live k (collect s ids) ≡ some r')
unfolding collect contains or_zero
first_live-collect s k r [] found id live c = ground arith
first_live-collect s k r (j ∷ ids) found id live c = elim (Bool-cases (j =ᵗ k)) [
  | inl same ↦
      let q : or_zero (lookup j s.seen) ≡ r =
        ap (λ i. or_zero (lookup i s.seen)) ((=ᵗ_iff j k).0 same) ∙ ap or_zero found in
      first_live-head k (or_zero (lookup j s.seen)) (collect s ids)
        (ap (λ x. positive x.ttl) q ∙ live) (ap (λ x. x.id) q ∙ id)
  | inr other ↦
      let (r', e) = first_live-collect s k r ids found id live (ground (arith, other, c)) in
      first_live-tail k (or_zero (lookup j s.seen)) (collect s ids) e
]

-- The message for a peer among those for all of them.
get_elem?-peer :
    {B : Type 0} (f : Text → B) (peers : List Text) (b : Text)
    → contains peers b ≡ true
    → (j : ℕ) × (get_elem? (map f peers) j ≡ some (f b))
unfolding contains
get_elem?-peer f [] b c = ground arith
get_elem?-peer f (p ∷ peers) b c = elim (Bool-cases (p =ᵗ b)) [
  | inl same ↦ (0, ap (λ q. some (f q)) ((=ᵗ_iff p b).0 same))
  | inr other ↦ let (j, e) = get_elem?-peer f peers b (ground (arith, other, c)) in (suc j, e)
]

-- A batch with a rumor in it is not empty.
first_live-cons :
    (k : Text) (rs : List Rumor) {r : Rumor}
    → first_live k rs ≡ some r
    → (x : Rumor) × (xs : List Rumor) × (rs ≡ x ∷ xs)
unfolding first_live
first_live-cons k [] e = ground arith
first_live-cons k (x ∷ xs) e = (x, xs, refl)

-- The packet with a push reaches a node that then knows the rumor.
arrive-knows :
    (k : Text) (p : Packet) (now : ℕ) (order : List Text → List Text) (c : Network) (n : Node)
    {r : Rumor}
    → lookup p.envelope.addr c.nodes ≡ some n
    → p.envelope.msg.type_tag ≡ some msg_push
    → first_live k p.envelope.msg.rumors ≡ some r
    → (c' : Network) × (arrive (some p) now order c ≡ some c')
      × (n' : Node) × (lookup p.envelope.addr c'.nodes ≡ some n')
      × (has k n'.store.seen ≡ true)
unfolding arrive at_node sent_by has
arrive-knows k p now order c n {r = r} found push live =
    let h = handle now order p.envelope.msg p.from_addr n in
    let knows : lookup k h.node.store.seen ≡ or_else (lookup k n.store.seen) (some r) =
      (handle-push now order p.envelope.msg p.from_addr n push).0 k ∙ ap (or_else _) live in
    (
      sent_by p.envelope.addr h c,
      ground (arith, found),
      h.node,
      ground (
        arith,
        lookup-insert p.envelope.addr p.envelope.addr h.node c.nodes,
        =ᵗ_refl p.envelope.addr,
      ),
      ground (arith, knows),
    )

-- The node is still there after an action of any node.
lookup-sent_by :
    (a b : Text) (h : Handled) (c : Network) {n : Node}
    → lookup b c.nodes ≡ some n
    → (n' : Node) × (lookup b (sent_by a h c).nodes ≡ some n')
unfolding sent_by
lookup-sent_by a b h c {n = n} e = elim (Bool-cases (a =ᵗ b)) [
  | inl same ↦ (h.node, ground (arith, lookup-insert a b h.node c.nodes, same))
  | inr other ↦ (n, ground (arith, lookup-insert a b h.node c.nodes, other, e))
]

step-ticked :
    (a : Text) (now : ℕ) (perm : ℕ → List ℕ) (c : Network) (n : Node) (h : Handled)
    → lookup a c.nodes ≡ some n
    → tick_once now perm n ≡ some h
    → step (ticked a now perm) c ≡ some (sent_by a h c)
unfolding step at_node
step-ticked a now perm c n h found ticks = ground (arith, found, ticks)

step-arrived :
    (i now : ℕ) (order : List Text → List Text) (c : Network) (p : Packet)
    → get_elem? c.packets i ≡ some p
    → step (arrived i now order) c ≡ arrive (some p) now order c
unfolding step
step-arrived i now order c p e = ap (λ q. arrive q now order c) e

run_two :
    (e f : Event) (c : Network) {mid end : Network}
    → step e c ≡ some mid
    → step f mid ≡ some end
    → run (e ∷ f ∷ []) c ≡ some end
unfolding run
run_two e f c first second = rw (first, second) refl

-- A node that has a rumor to push, with a hop left to it, and that has as many fanouts as peers or more
-- can inform each of its peers: after its next round some packet is in the network whose arrival lets
-- the peer know a rumor with that ID.
pub rumor_spreads :
    (c : Network) (a b : Text) (from to : Node) (k : Text) (r : Rumor)
    → lookup a c.nodes ≡ some from
    → lookup b c.nodes ≡ some to
    → contains from.peers b ≡ true
    → (fanout : ℕ) → from.cfg.fanout ≡ pos fanout
    → length from.peers ≤ fanout
    → contains from.store.new_ids k ≡ true
    → lookup k from.store.seen ≡ some r
    → r.id ≡ k
    → positive r.ttl ≡ true
    → (sent_at arrived_at : ℕ) (perm : ℕ → List ℕ) (order : List Text → List Text)
    → (packet : ℕ) × (c' : Network) × (run
          (ticked a sent_at perm ∷ arrived packet arrived_at order ∷ [])
          c
        ≡ some c')
      × (n : Node) × (lookup b c'.nodes ≡ some n)
      × (has k n.store.seen ≡ true)
unfolding ready_to_push sent_by
rumor_spreads c a b from to k r at_a at_b peer fanout is_fanout room waits found id live sent_at
      arrived_at perm order =
    let (r', batched) = first_live-collect from.store k r from.store.new_ids found id live waits in
    let (x, xs, batch) = first_live-cons k (collect from.store from.store.new_ids) batched in
    let (h, ticks, sends) = tick_once-to_all sent_at fanout perm from is_fanout room x xs batch in
    let msg = push_msg from.cfg.id (x ∷ xs) in
    let (j, peer_at) = get_elem?-peer (λ p. record { addr = p; msg = msg }) from.peers b peer in
    let packet_of : Envelope → Packet = λ e. record { from_addr = a; envelope = e } in
    let (i, packet_at) =
      get_elem?-suffix c.packets (map packet_of h.sends) j
        (get_elem?-map packet_of h.sends j (ap (λ es. get_elem? es j) sends ∙ peer_at)) in
    let (to', still) = lookup-sent_by a b h c at_b in
    let (c', arrives, n, at_end, knows) =
      arrive-knows k (packet_of (record { addr = b; msg = msg })) arrived_at order (sent_by a h c)
        to' still refl (ap (first_live k) (sym batch) ∙ batched) in
    let ran =
      run_two (ticked a sent_at perm) (arrived i arrived_at order) c
        (step-ticked a sent_at perm c from h at_a ticks)
        (step-arrived i arrived_at order (sent_by a h c) _ packet_at ∙ arrives) in
    (i, c', ran, n, at_end, knows)
