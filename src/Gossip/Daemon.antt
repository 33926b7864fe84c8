-- ===== src/Gossip/Daemon.antt =====
-- The command gossipd of project/gossip/cmd/gossipd/main.go. The flags are parsed and strings.TrimSpace
-- trims: both are parameters.
pub mod Seeds
use cs.Prelude.{ℕ, ℤ, List, [], ◌∷◌, Option, none, some, Text, ◌==◌, Bool, true, false}
use cs.Gossip.Defs.{Config, Node}
use cs.Gossip.Node.{new_node}
use cs.Gossip.Transport.{Udp, UdpTransport, Listening, new_udp_transport, listen}

pub record Flags : Type 0 where
  pub id : Text
  pub bind : Text
  pub seeds : Text
  pub period : ℤ
  pub fanout : ℤ
  pub ttl : ℤ
  pub metrics_addr : Text
  pub log : Text

abbrev pub comma : ℕ
comma = 44

-- A byte before the first part.
put : ℕ → List Text → List Text
put b [] = (b ∷ []) ∷ []
put b (p ∷ ps) = (b ∷ p) ∷ ps

-- strings.Split at the commas: the empty string has one part.
unfoldable pub split : Text → List Text
unfolding put
split [] = [] ∷ []
split (b ∷ s) = let rest = split s in elim (b == comma) [ true ↦ [] ∷ rest | false ↦ put b rest ]

add_part : Text → List Text → List Text
add_part [] out = out
add_part (b ∷ p) out = (b ∷ p) ∷ out

-- The loop of splitCSV over the parts.
unfoldable pub trimmed : (Text → Text) → List Text → List Text
unfolding add_part
trimmed trim_space [] = []
trimmed trim_space (p ∷ ps) = add_part (trim_space p) (trimmed trim_space ps)

unfoldable pub split_csv : (Text → Text) → Text → List Text
unfolding split trimmed
split_csv trim_space [] = []
split_csv trim_space (b ∷ s) = trimmed trim_space (split (b ∷ s))

unfoldable pub config : (Text → Text) → Flags → Config
unfolding split_csv
config trim_space flags = record {
  id = flags.id;
  bind = flags.bind;
  seeds = split_csv trim_space flags.seeds;
  period = flags.period;
  fanout = flags.fanout;
  ttl = flags.ttl;
  metrics_addr = flags.metrics_addr;
  log_path = flags.log;
}

pub record Daemon : Type 0 where
  pub node : Node
  pub tx : UdpTransport

daemon : Node → Listening → Option Daemon
daemon node l = elim l.started [ true ↦ some (record { node = node; tx = l.tx }) | false ↦ none ]

-- main up to the start of the node's loops; `none` is log.Fatal.
unfoldable pub main : Udp → (Text → Text) → (file_opened : Bool) → Flags → Option Daemon
unfolding config daemon
main udp trim_space file_opened flags =
    let cfg = config trim_space flags in
    daemon (new_node cfg file_opened) (listen udp cfg.bind new_udp_transport)
