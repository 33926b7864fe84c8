-- ===== src/Gossip/Network/Origin.antt =====
-- Where the rumors come from that the nodes of project/gossip know.
use cs.Prelude.{◌≡◌, Bool, List, [], ◌∷◌, some, Text, inl, inr}
use cs.Prelude.Dicts.{Dict, lookup}
use cs.Prelude.Every.{Exists, Every-Exists}
use cs.Gossip.Defs.{Rumor, Config, Node}
use cs.Gossip.Node.Known.{IsKeptByHop}
use cs.Gossip.Network.Sound.{Injects, Injects-hop, run-IsSound, boot-IsSound}
use cs.Gossip.Network.{Network, Event, boot, run}

Exists-hop :
    (nodes : Dict Node) (es : List Event) → IsKeptByHop (λ r. Exists (λ e. Injects nodes e r) es)
Exists-hop nodes [] r live h = h
Exists-hop nodes (e ∷ es) r live (inl h) = inl (Injects-hop nodes e r live h)
Exists-hop nodes (e ∷ es) r live (inr h) = inr (Exists-hop nodes es r live h)

-- Whatever a network of new nodes does and its packets meet, each rumor that a node knows was injected
-- at the node that its origin names: an event injected its ID, body and time there, with a TTL that
-- leaves as many hops or more.
pub run-rumors_injected :
    (file_opened : Bool) (cfgs : Dict Config) (es : List Event) (c : Network)
    → run es (boot file_opened cfgs) ≡ some c
    → (addr : Text) (n : Node) → lookup addr c.nodes ≡ some n
    → (k : Text) (r : Rumor) → lookup k n.store.seen ≡ some r
    → Exists (λ e. Injects (boot file_opened cfgs).nodes e r) es
run-rumors_injected file_opened cfgs es c e addr n found =
    let start = (boot file_opened cfgs).nodes in
    let P : Rumor → Type 0 = λ r. Exists (λ e. Injects start e r) es in
    let sound =
      run-IsSound P start (Exists-hop start es) es (boot file_opened cfgs) e
        (Every-Exists (Injects start) P es (λ r h. h)) (boot-IsSound P file_opened cfgs) in
    (sound.nodes addr n found).0
