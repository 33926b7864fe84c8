-- ===== src/Gossip/Network.antt =====
-- Several nodes of project/gossip and the UDP packets between them (cmd/gossipd/main.go puts a node and
-- its transport together). A packet that was sent may arrive never, once or more often, at any time.
pub mod Sound
pub mod Origin
pub mod Total
pub mod Spread
use cs.Prelude.{ℕ, ℤ, Bool, List, [], ◌∷◌, ◌++◌, map, Option, none, some, Text, get_elem?, ◌>>=◌}
use cs.Prelude.Dicts.{Dict, lookup, insert}
use cs.Gossip.Defs.{Config, Node, Envelope}
use cs.Gossip.Node.{Handled, new_node, inject_rumor, tick_once, send_digest, handle}

pub record Packet : Type 0 where
  pub from_addr : Text
  pub envelope : Envelope

-- The nodes under their addresses, and all packets that were sent, in order.
pub record Network : Type 0 where
  pub nodes : Dict Node
  pub packets : List Packet

-- New nodes under their addresses, and no packet.
start_all : Bool → Dict Config → Dict Node
start_all file_opened [] = []
start_all file_opened ((addr, cfg) ∷ cfgs) =
    (addr, new_node cfg file_opened) ∷ start_all file_opened cfgs

unfoldable pub boot : (file_opened : Bool) → Dict Config → Network
unfolding start_all
boot file_opened cfgs = record { nodes = start_all file_opened cfgs; packets = [] }

-- What happens at the node under an address, or to the packet with a number.
pub data Event : Type 0 where
  injected : (addr : Text) (now : ℕ) (id : Text) (body : List ℕ) (ttl : ℤ) → Event
  ticked : (addr : Text) (now : ℕ) (perm : ℕ → List ℕ) → Event
  reconciled : (addr : Text) (order : List Text → List Text) (perm : ℕ → List ℕ) → Event
  arrived : (packet now : ℕ) (order : List Text → List Text) → Event

sent_by : Text → Handled → Network → Network
sent_by addr h c = record {
  nodes = insert addr h.node c.nodes;
  packets = c.packets ++ map (λ e. record { from_addr = addr; envelope = e }) h.sends;
}

-- An action of the node under an address. Without one, nothing happens.
at_node : Text → (Node → Option Handled) → Network → Option Network
unfolding sent_by
at_node addr act c = elim (lookup addr c.nodes) [
  | none ↦ some c
  | some n ↦ act n >>= λ h. some (sent_by addr h c)
]

-- The packet reaches the handler of the node that listens on its address.
arrive : Option Packet → ℕ → (List Text → List Text) → Network → Option Network
unfolding at_node
arrive none now order c = some c
arrive (some p) now order c =
    at_node p.envelope.addr (λ n. some (handle now order p.envelope.msg p.from_addr n)) c

unfoldable pub step : Event → Network → Option Network
unfolding at_node arrive
step (injected addr now id body ttl) c =
    at_node addr (λ n. some (record { node = inject_rumor now id body ttl n; sends = [] })) c
step (ticked addr now perm) c = at_node addr (tick_once now perm) c
step (reconciled addr order perm) c =
    at_node addr (λ n. send_digest order perm n >>= λ es. some (record { node = n; sends = es })) c
step (arrived i now order) c = arrive (get_elem? c.packets i) now order c

-- The events in order; `none` is a panic of a node.
unfoldable pub run : List Event → Network → Option Network
unfolding step
run [] c = some c
run (e ∷ es) c = step e c >>= run es
