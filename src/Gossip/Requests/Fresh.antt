-- ===== src/Gossip/Requests/Fresh.antt =====
-- The IDs that /inject of project/gossip/pkg/gossip/http.go makes up are new ones.
use cs.Prelude.{
  ℤ, length-append, ℕ, suc, ◌+◌, ◌%◌, ◌^◌, ◌<◌, ◌≡◌, refl, ap, ◌∙◌, true, false, List, [], ◌∷◌,
  arith, Text, length, append-cancel, ◌=ᵗ◌, =ᵗ_iff, if◌then◌else◌,
}
use cs.Prelude.Decimal.{itoa, itoa-injective}
use cs.Prelude.Dicts.{Dict, insert, keys, has, lookup-insert, keys-insert, not_has-lookup}
use cs.Prelude.Every.{Every}
use cs.Gossip.Defs.{Rumor, Node}
use cs.Gossip.Store.{write_log, add, digest_count}
use cs.Gossip.Node.{inject_rumor, effective_ttl}
use cs.Gossip.Requests.{
  Request, Service, generated_id, requested_ttl, serve_inject, serve_metrics, serve_all, next_count,
}

pub generated_id-injective :
    (node_id : Text) (m n : ℕ) → generated_id node_id m ≡ generated_id node_id n → m ≡ n
unfolding generated_id
generated_id-injective node_id m n e =
    itoa-injective m n (ground (arith, append-cancel node_id (45 ∷ itoa m) (45 ∷ itoa n) e))

-- The store knows no ID that the counter has still to give.
abbrev pub IsFresh : Service → Type 0
IsFresh s = (m : ℕ) → s.injected < m → has (generated_id s.node.cfg.id m) s.node.store.seen ≡ false

inject_rumor-seen :
    (now : ℕ) (id : Text) (body : List ℕ) (ttl : ℤ) (n : Node)
    → has id n.store.seen ≡ false
    → (r : Rumor) × ((inject_rumor now id body ttl n).store.seen ≡ insert id r n.store.seen)
unfolding inject_rumor add write_log
inject_rumor-seen now id body ttl n absent =
    let r : Rumor = record {
      id = id;
      ttl = effective_ttl ttl n.cfg;
      body = body;
      origin = n.cfg.id;
      inject_ts = now;
    } in
    (r, ground (arith, not_has-lookup id n.store.seen absent))

inject_rumor-cfg :
    (now : ℕ) (id : Text) (body : List ℕ) (ttl : ℤ) (n : Node)
    → (inject_rumor now id body ttl n).cfg ≡ n.cfg
unfolding inject_rumor
inject_rumor-cfg now id body ttl n = refl

has-insert :
    {V : Type 0} (k j : Text) (v : V) (d : Dict V)
    → has j (insert k v d) ≡ (if k =ᵗ j then true else has j d)
unfolding has
has-insert k j v d = ground (arith, lookup-insert k j v d)

length-keys-insert :
    {V : Type 0} (k : Text) (v : V) (d : Dict V)
    → has k d ≡ false
    → length (keys (insert k v d)) ≡ suc (length (keys d))
length-keys-insert k v d e = ground (arith, keys-insert k v d, length-append (keys d) (k ∷ []))

-- A request without an ID adds one rumor to a service that is fresh, and leaves it fresh.
module _ (now : ℕ) (q : Request) (s : Service) (no_id : q.id ≡ [])
    (room : suc s.injected < 2 ^ 64) where
  serve_inject-next : serve_inject now q s ≡ record {
    node =
        inject_rumor now
          (generated_id s.node.cfg.id (suc s.injected))
          q.body
          (requested_ttl q.ttl s.node.cfg)
          s.node;
    injected = suc s.injected;
  }
  unfolding serve_inject next_count
  serve_inject-next =
      let small : suc s.injected % 2 ^ 64 ≡ suc s.injected = ground arith in rw (no_id, small) refl

  serve_inject-IsFresh :
      IsFresh s
      → IsFresh (serve_inject now q s)
        × (serve_metrics (serve_inject now q s) ≡ suc (serve_metrics s))
        × ((serve_inject now q s).injected ≡ suc s.injected)
  unfolding serve_metrics digest_count
  serve_inject-IsFresh fresh =
      let cfg = s.node.cfg in
      let id = generated_id cfg.id (suc s.injected) in
      let ttl = requested_ttl q.ttl cfg in
      let absent = fresh (suc s.injected) (omega arith) in
      let (r, seen) = inject_rumor-seen now id q.body ttl s.node absent in
      let node = inject_rumor now id q.body ttl s.node in
      let same_cfg = inject_rumor-cfg now id q.body ttl s.node in
      rw (serve_inject-next) (
        (λ m lt.
            ap (λ c. has (generated_id c.id m) node.store.seen) same_cfg
            ∙ ap (has (generated_id cfg.id m)) seen
            ∙ has-insert id (generated_id cfg.id m) r s.node.store.seen
            ∙ ground (
              arith,
              fresh m,
              =ᵗ_iff id (generated_id cfg.id m),
              generated_id-injective cfg.id (suc s.injected) m,
            )),
        ap (λ d. length (keys d)) seen ∙ length-keys-insert id r s.node.store.seen absent,
        refl,
      )

-- From a service that is fresh, requests without an ID, however many the counter has room for, add one
-- rumor each to what /metrics reports.
pub serve_all-metrics :
    (qs : List (ℕ × Request)) (s : Service)
    → IsFresh s
    → Every (λ p. p.1.id ≡ []) qs
    → s.injected + length qs < 2 ^ 64
    → serve_metrics (serve_all qs s) ≡ serve_metrics s + length qs
unfolding serve_all
serve_all-metrics [] s fresh no_id room = omega arith
serve_all-metrics ((now, q) ∷ qs) s fresh no_id room =
    let (fresh', one, next) = serve_inject-IsFresh now q s no_id.0 (omega arith) fresh in
    let rest = serve_all-metrics qs (serve_inject now q s) fresh' no_id.1 (omega (arith, next)) in
    omega (arith, rest, one)
