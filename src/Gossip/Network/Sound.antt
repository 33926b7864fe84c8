-- ===== src/Gossip/Network/Sound.antt =====
-- What holds of every rumor that the events of a network of project/gossip inject holds of those that
-- its nodes know, if a hop less does not break it; and each node keeps its configuration.
use cs.Prelude.{
  decrement, ℕ, zero, suc, ℤ, pos, negsuc, ◌≡◌, refl, sym, ap, subst, ◌∙◌, Bool, true, List, [],
  ◌∷◌, Option, some, some-eq, arith, Text, get_elem?, ◌>>=◌, >>=-eq-some, Option-cases, Bool-cases,
  ◌=ᵗ◌, inl, inr, ◌≤◌,
}
use cs.Prelude.Dicts.{Dict, lookup, AllEntries, AllEntries-insert}
use cs.Prelude.Every.{Every, Every-append, Every-get, Every-map}
use cs.Gossip.Defs.{Rumor, Config, inject, Node, positive}
use cs.Gossip.Store.{write_log, new_store}
use cs.Gossip.Store.Known.{AllKnown, AllLive, add-AllKnown}
use cs.Gossip.Node.{Handled, effective_ttl, new_node, inject_rumor, tick_once, send_digest, handle}
use cs.Gossip.Node.Known.{
  IsHandled, IsKeptByHop, tick_once-IsHandled, tick_once-cfg, handle-cfg, send_digest-AllSent,
  handle-IsHandled,
}
use cs.Gossip.Network.{
  Packet, Network, Event, injected, ticked, reconciled, arrived, sent_by, at_node, arrive, step,
  start_all, boot, run,
}

-- The hops that a TTL leaves.
unfoldable pub hops : ℤ → ℕ
hops (pos n) = n
hops (negsuc n) = 0

-- The rumor is the one that the event injects at a node of the network, or has fewer hops left.
unfoldable pub Injects : Dict Node → Event → Rumor → Type 0
Injects nodes (injected addr now id body ttl) r =
    (n : Node) × (lookup addr nodes ≡ some n)
    × (r.id ≡ id)
    × (r.body ≡ body)
    × (r.origin ≡ n.cfg.id)
    × (r.inject_ts ≡ now)
    × (hops r.ttl ≤ hops (effective_ttl ttl n.cfg))
Injects nodes (ticked addr now perm) r = ⊥
Injects nodes (reconciled addr order perm) r = ⊥
Injects nodes (arrived packet now order) r = ⊥

hops-decrement : (t : ℤ) → positive t ≡ true → hops (decrement t) ≤ hops t
unfolding hops
hops-decrement (pos zero) e = ground arith
hops-decrement (pos (suc n)) e = omega arith
hops-decrement (negsuc n) e = ground arith

pub Injects-hop : (nodes : Dict Node) (e : Event) → IsKeptByHop (Injects nodes e)
unfolding Injects
Injects-hop nodes (injected addr now id body ttl) r live (n, l, i, b, o, t, h) =
    let le = hops-decrement r.ttl live in (n, l, i, b, o, t, omega arith)
Injects-hop nodes (ticked addr now perm) r live h = h
Injects-hop nodes (reconciled addr order perm) r live h = h
Injects-hop nodes (arrived packet now order) r live h = h

-- A node with the configuration of the one under its address at the start, which knows only rumors
-- with P.
abbrev pub IsSoundNode : (Rumor → Type 0) → Dict Node → Text → Node → Type 0
IsSoundNode P start addr n =
    AllKnown P n.store × ((old : Node) × (lookup addr start ≡ some old) × (n.cfg ≡ old.cfg))

-- All nodes are such, and the packets carry only rumors with P, or without a hop left.
pub record IsSound (P : Rumor → Type 0) (start : Dict Node) (c : Network) : Type 0 where
  pub nodes : AllEntries (IsSoundNode P start) c.nodes
  pub packets : Every (λ p. AllLive P p.envelope.msg.rumors) c.packets

-- An action that keeps rumors and configuration.
abbrev KeepsRumors : (Rumor → Type 0) → Node → Option Handled → Type 0
KeepsRumors P n m = (h : Handled) → m ≡ some h → IsHandled P h × (h.node.cfg ≡ n.cfg)

module _ (P : Rumor → Type 0) (start : Dict Node) where
  at_node-IsSound :
      (addr : Text) (act : Node → Option Handled) (c : Network) {c' : Network}
      → at_node addr act c ≡ some c'
      → ((n : Node) → IsSoundNode P start addr n → KeepsRumors P n (act n))
      → IsSound P start c
      → IsSound P start c'
  unfolding at_node sent_by
  at_node-IsSound addr act c {c' = c'} e keep s = elim (Option-cases (lookup addr c.nodes)) [
    | inl absent ↦ subst (IsSound P start) (some-eq (ground (arith, absent, e))) s
    | inr (n, found) ↦
        let sound = s.nodes addr n found in
        let (_, (old, at_start, same)) = sound in
        let acted : (act n >>= λ h. some (sent_by addr h c)) ≡ some c' = ground (arith, found, e) in
        let (h, m, q) = >>=-eq-some (act n) _ acted in
        let ((known, sends), cfg) = keep n sound h m in
        subst (IsSound P start) (some-eq q) (record {
          nodes =
              AllEntries-insert (IsSoundNode P start) addr h.node c.nodes
                (known, (old, at_start, cfg ∙ same)) s.nodes;
          packets =
              Every-append _ c.packets _ s.packets
                (Every-map _ (λ e. record { from_addr = addr; envelope = e }) h.sends sends);
        })
  ]

-- What an event needs for its network to stay sound: its rumors have P.
abbrev pub Brings : (Rumor → Type 0) → Dict Node → Event → Type 0
Brings P start e = (r : Rumor) → Injects start e r → P r

module _ (P : Rumor → Type 0) (start : Dict Node) (hop : IsKeptByHop P) where
  inject-KeepsRumors :
      (addr : Text) (now : ℕ) (id : Text) (body : List ℕ) (ttl : ℤ) (n : Node)
      → Brings P start (injected addr now id body ttl)
      → IsSoundNode P start addr n
      → KeepsRumors P n (some (record { node = inject_rumor now id body ttl n; sends = [] }))
  unfolding Injects inject_rumor write_log
  inject-KeepsRumors addr now id body ttl n brings (known, (old, found, cfg)) h e =
      let r : Rumor = record {
        id = id;
        ttl = effective_ttl ttl n.cfg;
        body = body;
        origin = n.cfg.id;
        inject_ts = now;
      } in
      let p = brings r (
        old,
        found,
        refl,
        refl,
        ap (λ c. c.id) cfg,
        refl,
        ground (arith, ap (λ c. hops (effective_ttl ttl c)) cfg),
      ) in
      subst (λ h. IsHandled P h × (h.node.cfg ≡ n.cfg)) (some-eq e)
        ((add-AllKnown P now r (write_log now inject r n.store) p known, tt), refl)

  digest-KeepsRumors :
      (order : List Text → List Text) (perm : ℕ → List ℕ) (n : Node)
      → AllKnown P n.store
      → KeepsRumors P n (send_digest order perm n >>= λ es. some (record { node = n; sends = es }))
  digest-KeepsRumors order perm n known h e =
      let (es, sent, q) = >>=-eq-some (send_digest order perm n) _ e in
      subst (λ h. IsHandled P h × (h.node.cfg ≡ n.cfg)) (some-eq q)
        ((known, send_digest-AllSent P order perm n sent), refl)

  arrive-IsSound :
      (p : Packet) (now : ℕ) (order : List Text → List Text) (c : Network) {c' : Network}
      → arrive (some p) now order c ≡ some c'
      → AllLive P p.envelope.msg.rumors
      → IsSound P start c
      → IsSound P start c'
  unfolding arrive
  arrive-IsSound p now order c e live =
      at_node-IsSound P start p.envelope.addr
        (λ n. some (handle now order p.envelope.msg p.from_addr n)) c e
        (λ n sound h q.
          subst (λ h. IsHandled P h × (h.node.cfg ≡ n.cfg))
            {x = handle now order p.envelope.msg p.from_addr n} (some-eq q)
            (
              handle-IsHandled P hop now order p.envelope.msg p.from_addr n live sound.0,
              handle-cfg now order p.envelope.msg p.from_addr n,
            ))

  pub step-IsSound :
      (e : Event) (c : Network) {c' : Network}
      → step e c ≡ some c'
      → Brings P start e
      → IsSound P start c
      → IsSound P start c'
  unfolding step
  step-IsSound (injected addr now id body ttl) c e b s =
      at_node-IsSound P start addr
        (λ n. some (record { node = inject_rumor now id body ttl n; sends = [] })) c e
        (λ n. inject-KeepsRumors addr now id body ttl n b) s
  step-IsSound (ticked addr now perm) c e b s =
      at_node-IsSound P start addr (tick_once now perm) c e
        (λ n sound h q. (tick_once-IsHandled P now perm n q sound.0, tick_once-cfg now perm n q)) s
  step-IsSound (reconciled addr order perm) c e b s =
      at_node-IsSound P start addr
        (λ n. send_digest order perm n >>= λ es. some (record { node = n; sends = es })) c e
        (λ n sound. digest-KeepsRumors order perm n sound.0) s
  step-IsSound (arrived i now order) c e b s = elim (Option-cases (get_elem? c.packets i)) [
    | inl absent ↦ subst (IsSound P start) (some-eq (rw (← e, absent) refl)) s
    | inr (p, found) ↦
        arrive-IsSound p now order c (rw (← e, found) refl)
          (Every-get _ c.packets i s.packets found) s
  ]

  pub run-IsSound :
      (es : List Event) (c : Network) {c' : Network}
      → run es c ≡ some c'
      → Every (Brings P start) es
      → IsSound P start c
      → IsSound P start c'
  unfolding run
  run-IsSound [] c e b s = subst (IsSound P start) (some-eq e) s
  run-IsSound (x ∷ es) c e b s =
      let (mid, q, rest) = >>=-eq-some (step x c) (run es) e in
      run-IsSound es mid rest b.1 (step-IsSound x c q b.0 s)

start_all-new :
    (file_opened : Bool) (cfgs : Dict Config) (addr : Text) (n : Node)
    → lookup addr (start_all file_opened cfgs) ≡ some n
    → n.store.seen ≡ []
unfolding start_all lookup new_node new_store
start_all-new file_opened [] addr n e = ground arith
start_all-new file_opened ((a, cfg) ∷ cfgs) addr n e = elim (Bool-cases (a =ᵗ addr)) [
  | inl same ↦
      let q : some (new_node cfg file_opened) ≡ some n = ground (arith, same, e) in
      ap (λ n. n.store.seen) (sym (some-eq q))
  | inr other ↦ start_all-new file_opened cfgs addr n (ground (arith, other, e))
]

pub boot-IsSound :
    (P : Rumor → Type 0) (file_opened : Bool) (cfgs : Dict Config)
    → IsSound P (boot file_opened cfgs).nodes (boot file_opened cfgs)
unfolding boot lookup
boot-IsSound P file_opened cfgs = record {
  nodes = λ addr n found.
      let empty = start_all-new file_opened cfgs addr n found in
      ((λ k r q. ground (arith, sym (ap (lookup k) empty) ∙ q)), (n, found, refl));
  packets = tt;
}
