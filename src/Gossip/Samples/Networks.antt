-- ===== src/Gossip/Samples/Networks.antt =====
-- The theorems about several nodes and the requests of project/gossip at concrete ones.
use cs.Prelude.{
  contains, ℕ, ◌+◌, ◌≡◌, refl, pos, true, List, [], ◌∷◌, none, some, arith, Text, length, ◌=ᵗ◌,
}
use cs.Prelude.Dicts.{Dict, lookup, has, insert, keys}
use cs.Prelude.Every.{Exists}
use cs.Gossip.Defs.{Rumor, Config, Node}
use cs.Gossip.Store.{new_store, add, digest}
use cs.Gossip.Node.{new_node, tick_once, inject_rumor, pick_peers, send_digest, handle}
use cs.Gossip.Network.{Network, Event, injected, ticked, reconciled, arrived, boot, run}
use cs.Gossip.Network.Sound.{Injects}
use cs.Gossip.Network.Spread.{rumor_spreads}
use cs.Gossip.Samples.{count_down, same_order}
use cs.Gossip.Network.Origin.{run-rumors_injected}
use cs.Gossip.Requests.{Request, Service, serve_all, serve_metrics}
use cs.Gossip.Requests.Fresh.{IsFresh, serve_all-metrics}

abbrev config_of : ℕ → ℕ → Config
config_of me other = record {
  id = me ∷ [];
  bind = me ∷ [];
  seeds = (other ∷ []) ∷ [];
  period = pos 200;
  fanout = pos 2;
  ttl = pos 3;
  metrics_addr = [];
  log_path = [];
}

-- Two nodes, A and B, at their IDs' addresses.
abbrev two_nodes : Dict Config
two_nodes = (65 ∷ [], config_of 65 66) ∷ (66 ∷ [], config_of 66 65) ∷ []

-- A rumor of A reaches B twice, and B sends its digest to A.
abbrev exchange : List Event
exchange =
    injected (65 ∷ []) 5 (1 ∷ []) (7 ∷ []) (pos 2)
    ∷ ticked (65 ∷ []) 6 count_down
    ∷ arrived 0 7 same_order
    ∷ arrived 0 8 same_order
    ∷ reconciled (66 ∷ []) same_order count_down
    ∷ arrived 1 9 same_order
    ∷ []

abbrev after_exchange : Network
after_exchange = elim (run exchange (boot true two_nodes)) [
  | none ↦ boot true two_nodes
  | some c ↦ c
]

abbrev node_b : Node
node_b = elim (lookup (66 ∷ []) after_exchange.nodes) [
  | none ↦ new_node (config_of 66 65) true
  | some n ↦ n
]

abbrev passed_on : Rumor
passed_on = record { id = 1 ∷ []; ttl = pos 1; body = 7 ∷ []; origin = 65 ∷ []; inject_ts = 5 }

run-rumors_injected_example : Exists (λ e. Injects (boot true two_nodes).nodes e passed_on) exchange
unfolding run boot lookup ◌=ᵗ◌ insert tick_once inject_rumor add new_node new_store pick_peers
    send_digest handle digest keys
run-rumors_injected_example =
    run-rumors_injected true two_nodes exchange after_exchange refl (66 ∷ []) node_b refl (1 ∷ [])
      passed_on refl

-- A has the rumor, and has not pushed it yet.
abbrev injection : List Event
injection = injected (65 ∷ []) 5 (1 ∷ []) (7 ∷ []) (pos 2) ∷ []

abbrev informed_network : Network
informed_network = elim (run injection (boot true two_nodes)) [
  | none ↦ boot true two_nodes
  | some c ↦ c
]

abbrev node_in : Text → Network → Node
node_in addr c = elim (lookup addr c.nodes) [ none ↦ new_node (config_of 66 65) true | some n ↦ n ]

abbrev fresh_rumor : Rumor
fresh_rumor = record { id = 1 ∷ []; ttl = pos 2; body = 7 ∷ []; origin = 65 ∷ []; inject_ts = 5 }

rumor_spreads_example :
    (packet : ℕ) × (c' : Network) × (run
        (ticked (65 ∷ []) 6 count_down ∷ arrived packet 7 same_order ∷ [])
        informed_network
      ≡ some c')
    × (n : Node) × (lookup (66 ∷ []) c'.nodes ≡ some n)
    × (has (1 ∷ []) n.store.seen ≡ true)
unfolding run boot lookup ◌=ᵗ◌ insert inject_rumor add new_node new_store contains
rumor_spreads_example =
    rumor_spreads informed_network (65 ∷ []) (66 ∷ []) (node_in (65 ∷ []) informed_network)
      (node_in (66 ∷ []) informed_network) (1 ∷ []) fresh_rumor refl refl refl 2 refl (omega arith)
      refl refl refl refl 6 7 count_down same_order

abbrev two_requests : List (ℕ × Request)
two_requests =
    (5, record { id = []; body = 7 ∷ []; ttl = [] })
    ∷ (6, record { id = []; body = 8 ∷ []; ttl = 50 ∷ [] })
    ∷ []

abbrev new_service : Service
new_service = record { node = new_node (config_of 65 66) true; injected = 0 }

new_service-IsFresh : IsFresh new_service
unfolding new_node new_store has lookup
new_service-IsFresh m h = refl

serve_all-metrics_example :
    serve_metrics (serve_all two_requests new_service)
    ≡ serve_metrics new_service + length two_requests
serve_all-metrics_example =
    serve_all-metrics two_requests new_service new_service-IsFresh (refl, (refl, tt)) (omega arith)
