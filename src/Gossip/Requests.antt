-- ===== src/Gossip/Requests.antt =====
-- The HTTP endpoint of project/gossip/pkg/gossip/http.go: its handlers, without the network.
pub mod Fresh
use cs.Prelude.{ℕ, suc, ◌+◌, ◌%◌, ◌^◌, ℤ, List, [], ◌∷◌, ◌++◌, Text, if◌then◌else◌}
use cs.Prelude.Decimal.{itoa, atoi, Parsed}
use cs.Gossip.Defs.{Config, Store, Node, positive}
use cs.Gossip.Store.{digest_count}
use cs.Gossip.Node.{inject_rumor}

-- The values of the query; one that is missing is empty.
pub record Request : Type 0 where
  pub id : Text
  pub body : List ℕ
  pub ttl : Text

-- The node, and the counter of the process, a number of 64 bits.
pub record Service : Type 0 where
  pub node : Node
  pub injected : ℕ

-- fmt.Sprintf("%s-%d", node_id, n)
unfoldable pub generated_id : Text → ℕ → Text
generated_id node_id n = node_id ++ 45 ∷ itoa n

unfoldable pub requested_ttl : Text → Config → ℤ
requested_ttl ttl cfg = if positive (atoi ttl).value then (atoi ttl).value else cfg.ttl

-- atomic.AddUint64(&injected, 1)
next_count : ℕ → ℕ
next_count n = suc n % 2 ^ 64

-- The handler of /inject.
unfoldable pub serve_inject : (now : ℕ) → Request → Service → Service
unfolding next_count generated_id requested_ttl
serve_inject now q s =
    let ttl = requested_ttl q.ttl s.node.cfg in
    elim q.id [
      | [] ↦
          let n = next_count s.injected in
          record {
            node = inject_rumor now (generated_id s.node.cfg.id n) q.body ttl s.node;
            injected = n;
          }
      | c ∷ cs ↦ record s { node = inject_rumor now q.id q.body ttl s.node }
    ]

-- What the handler of /metrics gives as "known".
unfoldable pub serve_metrics : Service → ℕ
serve_metrics s = digest_count s.node.store

-- Requests that come one after the other, each with its time.
unfoldable pub serve_all : List (ℕ × Request) → Service → Service
serve_all [] s = s
serve_all ((now, q) ∷ qs) s = serve_all qs (serve_inject now q s)
