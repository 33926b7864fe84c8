-- ===== src/Gossip/Node.antt =====
-- project/gossip/pkg/gossip/node.go and the inject handler of http.go. A handler takes the clock and
-- returns the node and the messages that it sends, in order.
pub mod Exchange
pub mod Receive
pub mod Known
pub mod Picks
pub mod Tick
use cs.Prelude.{
  decrement, ℕ, zero, suc, ℤ, pos, negsuc, Bool, true, false, List, [], ◌∷◌, ◌++◌, map, Option,
  none, some, length, Text, count, contains, take, leb, get_elem?, if◌then◌else◌, ◌>>=◌,
}
use cs.Gossip.Defs.{
  MsgType, msg_push, msg_digest, msg_missing, msg_fetch_rep, Rumor, Msg, Config, LogEvent, inject,
  sent, received, Store, Node, Envelope, positive,
}
use cs.Gossip.Store.{digest, zero_rumor, new_store, write_log, add, ready_to_push, lookup_many}

pub record Handled : Type 0 where
  pub node : Node
  pub sends : List Envelope

unfoldable pub new_node : Config → (file_opened : Bool) → Node
new_node cfg file_opened = record {
  cfg = cfg;
  store = new_store file_opened cfg.id;
  peers = cfg.seeds;
}

unfoldable pub effective_ttl : ℤ → Config → ℤ
effective_ttl ttl cfg = if positive ttl then ttl else cfg.ttl

-- One reading of the clock stands for those of a handler: the rumor and its log records.
unfoldable pub inject_rumor : (now : ℕ) → Text → List ℕ → ℤ → Node → Node
unfolding effective_ttl
inject_rumor now id body ttl n =
    let r : Rumor = record {
      id = id;
      ttl = effective_ttl ttl n.cfg;
      body = body;
      origin = n.cfg.id;
      inject_ts = now;
    } in
    record n { store = (add now r (write_log now inject r n.store)).store }

-- n.peers[perm[i]] for the first k of a permutation; `none` is a panic.
picked : List Text → List ℕ → Option (List Text)
picked peers [] = some []
picked peers (i ∷ is) = get_elem? peers i >>= λ p. picked peers is >>= λ rest. some (p ∷ rest)

pick_some : ℤ → (ℕ → List ℕ) → List Text → Option (List Text)
unfolding picked
pick_some (pos k) perm peers =
    if leb (length peers) k then some peers else picked peers (take k (perm (length peers)))
pick_some (negsuc k) perm peers = none

-- `perm` is rand.Perm. A negative k panics where there are peers: make takes no negative capacity.
unfoldable pub pick_peers : ℤ → (ℕ → List ℕ) → List Text → Option (List Text)
unfolding pick_some
pick_peers k perm [] = some []
pick_peers k perm (p ∷ ps) = pick_some k perm (p ∷ ps)

head_or_zero : List Rumor → Rumor
head_or_zero [] = zero_rumor
head_or_zero (r ∷ rs) = r

-- The loop of tickOnce over the peers: one "sent" record and one message for each.
unfoldable pub send_all : ℕ → Rumor → Msg → List Text → Store → Store
send_all now tag msg [] s = s
send_all now tag msg (p ∷ ps) s = send_all now tag msg ps (write_log now sent tag s)

tick_with : ℕ → (ℕ → List ℕ) → List Rumor → Node → Option Handled
unfolding send_all
tick_with now perm [] n = some (record { node = n; sends = [] })
tick_with now perm (r ∷ rs) n = pick_peers n.cfg.fanout perm n.peers >>= λ peers.
    let msg : Msg = record {
      type_tag = some msg_push;
      sender = n.cfg.id;
      rumors = r ∷ rs;
      ids = [];
    } in
    some (record {
      node = record n { store = send_all now (record zero_rumor { id = r.id }) msg peers n.store };
      sends = map (λ p. record { addr = p; msg = msg }) peers;
    })

unfoldable pub tick_once : ℕ → (ℕ → List ℕ) → Node → Option Handled
unfolding tick_with ready_to_push
tick_once now perm n =
    let ready = ready_to_push n.store in
    tick_with now perm ready.rumors (record n { store = ready.store })

-- The rumors of a push: one hop less is left for each.
unfoldable pub receive_push : ℕ → List Rumor → Store → Store
receive_push now [] s = s
receive_push now (r ∷ rs) s =
    receive_push now rs
      (if positive r.ttl then (add now (record r { ttl = decrement r.ttl }) s).store else s)

unfoldable pub receive_fetch : ℕ → List Rumor → Store → Store
receive_fetch now [] s = s
receive_fetch now (r ∷ rs) s =
    receive_fetch now rs (if positive r.ttl then (add now r s).store else s)

unfoldable pub diff : List Text → List Text → List Text
diff [] b = []
diff (x ∷ xs) b = let rest = diff xs b in if contains b x then rest else x ∷ rest

ask_missing : Text → Text → List Text → List Envelope
ask_missing id remote [] = []
ask_missing id remote (x ∷ xs) =
    record {
      addr = remote;
      msg = record { type_tag = some msg_missing; sender = id; rumors = []; ids = x ∷ xs };
    }
    ∷ []

unfoldable pub handle_digest : (List Text → List Text) → Msg → Text → Node → List Envelope
unfolding ask_missing
handle_digest order m remote n = ask_missing n.cfg.id remote (diff (digest order n.store) m.ids)

reply_rumors : Text → Text → List Rumor → List Envelope
reply_rumors id remote [] = []
reply_rumors id remote (r ∷ rs) =
    record {
      addr = remote;
      msg = record { type_tag = some msg_fetch_rep; sender = id; rumors = r ∷ rs; ids = [] };
    }
    ∷ []

unfoldable pub handle_missing : Msg → Text → Node → List Envelope
unfolding reply_rumors
handle_missing m remote n = reply_rumors n.cfg.id remote (lookup_many n.store m.ids)

-- The switch of Handle, after the record of the receipt.
dispatch : Option MsgType → ℕ → (List Text → List Text) → Msg → Text → Node → Handled
unfolding receive_push receive_fetch handle_digest handle_missing
dispatch none now order m remote n = record { node = n; sends = [] }
dispatch (some msg_push) now order m remote n = record {
  node = record n { store = receive_push now m.rumors n.store };
  sends = [];
}
dispatch (some msg_digest) now order m remote n = record {
  node = n;
  sends = handle_digest order m remote n;
}
dispatch (some msg_missing) now order m remote n = record {
  node = n;
  sends = handle_missing m remote n;
}
dispatch (some msg_fetch_rep) now order m remote n = record {
  node = record n { store = receive_fetch now m.rumors n.store };
  sends = [];
}

unfoldable pub handle : ℕ → (List Text → List Text) → Msg → Text → Node → Handled
unfolding dispatch head_or_zero
handle now order m remote n =
    dispatch m.type_tag now order m remote
      (record n { store = write_log now received (head_or_zero m.rumors) n.store })

digest_to : Text → List Text → List Text → List Envelope
digest_to id [] ids = []
digest_to id (p ∷ ps) [] = []
digest_to id (p ∷ ps) (x ∷ xs) =
    record {
      addr = p;
      msg = record { type_tag = some msg_digest; sender = id; rumors = []; ids = x ∷ xs };
    }
    ∷ []

unfoldable pub send_digest : (List Text → List Text) → (ℕ → List ℕ) → Node → Option (List Envelope)
unfolding digest_to
send_digest order perm n = pick_peers (pos 1) perm n.peers >>= λ peers.
    some (digest_to n.cfg.id peers (digest order n.store))
