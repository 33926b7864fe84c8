-- ===== src/Gossip/Network/Total.antt =====
-- A network of project/gossip whose fanouts are not negative does not panic.
use cs.Prelude.{ℕ, pos, ◌≡◌}
use cs.Prelude.Every.{Every}
use cs.Gossip.Defs.{Rumor, Config, Node}
use cs.Gossip.Node.Picks.{IsInRange}
use cs.Gossip.Network.{Network, Event, injected, ticked, reconciled, arrived}

-- What the event needs of rand.Perm.
unfoldable pub DrawsInRange : Event → Type 0
DrawsInRange (injected addr now id body ttl) = Unit
DrawsInRange (ticked addr now perm) = IsInRange perm
DrawsInRange (reconciled addr order perm) = IsInRange perm
DrawsInRange (arrived packet now order) = Unit

abbrev pub HasFanout : Config → Type 0
HasFanout cfg = (k : ℕ) × (cfg.fanout ≡ pos k)

-- Any rumor will do here.
abbrev IsAny : Rumor → Type 0
IsAny r = Unit
