-- ===== src/Gossip/Samples.antt =====
-- The theorems about project/gossip/pkg/gossip at concrete stores and nodes.
mod Networks
mod Links
use cs.Prelude.{
  false, ◌==◌, or_else, ℕ, zero, suc, ◌+◌, ◌≤◌, ap, pos, ◌≡◌, refl, true, List, [], ◌∷◌, some,
  arith, length, map, count, contains, Text, if◌then◌else◌, ◌=ᵗ◌, =ᵗ_iff,
}
use cs.Prelude.Dicts.{lookup, insert, has}
use cs.Gossip.Defs.{msg_push, msg_digest, deliver, LogRec, Rumor, Msg, Config, Node}
use cs.Gossip.Store
use cs.Gossip.Store.{new_store, ready_to_push}
use cs.Gossip.Store.Runs.{
  Op, adds, pushes, logs_inject, apply, run, started, deliveries, run-pushed_once,
}
use cs.Gossip.Store.Kept.{run-kept}
use cs.Gossip.Store.Deliveries.{run-delivered_once}
use cs.Gossip.Node.{Handled, new_node, inject_rumor, handle, diff, tick_once}
use cs.Gossip.Node.Exchange.{handle_all, IsKeyed, anti_entropy-no_news}
use cs.Gossip.Node.Receive.{first_live, handle-push}
use cs.Gossip.Node.Picks.{AllBelow, IsDistinct, IsPermutation}
use cs.Gossip.Node.Tick.{IsFanOut, tick_once-IsFanOut}
use cs.Prelude.Every.{Every}

abbrev news : Rumor
news = record { id = 1 ∷ []; ttl = pos 2; body = 7 ∷ 8 ∷ []; origin = 65 ∷ []; inject_ts = 5 }

abbrev stale : Rumor
stale = record { id = 2 ∷ []; ttl = pos 0; body = []; origin = 65 ∷ []; inject_ts = 6 }

abbrev sample_ops : List Op
sample_ops = logs_inject 5 news ∷ adds 5 news ∷ pushes ∷ adds 6 stale ∷ adds 7 news ∷ []

run-pushed_once_example :
    let h = run sample_ops (started true (65 ∷ [])) in
    count (1 ∷ []) h.pushed + count (1 ∷ []) h.store.new_ids
    ≡ (if has (1 ∷ []) h.store.seen then 1 else 0)
run-pushed_once_example = run-pushed_once sample_ops true (65 ∷ []) (1 ∷ [])

abbrev sample_records : List LogRec
sample_records =
    record {
      ts = 6;
      node = 65 ∷ [];
      ev = deliver;
      id = 2 ∷ [];
      sz = 0;
      origin = 65 ∷ [];
      inject_ts = 6;
    }
    ∷ record {
      ts = 5;
      node = 65 ∷ [];
      ev = deliver;
      id = 1 ∷ [];
      sz = 2;
      origin = 65 ∷ [];
      inject_ts = 5;
    }
    ∷ []

run-delivered_once_example : deliveries (1 ∷ []) sample_records ≡ (
    if has
      (1 ∷ [])
      (run (adds 5 news ∷ adds 6 stale ∷ adds 7 news ∷ []) (started true (65 ∷ []))).store.seen
    then 1
    else 0)
unfolding run apply Store.add lookup new_store insert ◌=ᵗ◌
run-delivered_once_example =
    run-delivered_once (adds 5 news ∷ adds 6 stale ∷ adds 7 news ∷ []) (65 ∷ []) (1 ∷ [])
      sample_records refl

abbrev sample_config : Config
sample_config = record {
  id = 65 ∷ [];
  seeds = (66 ∷ []) ∷ (67 ∷ []) ∷ (68 ∷ []) ∷ [];
  bind = 65 ∷ [];
  period = pos 200;
  fanout = pos 2;
  metrics_addr = [];
  log_path = [];
  ttl = pos 3;
}

-- A node that has had one rumor injected.
abbrev informed : Node
informed = inject_rumor 5 (1 ∷ []) (7 ∷ []) (pos 0) (new_node sample_config true)

abbrev idle : Node
idle = new_node sample_config true

abbrev same_order : List Text → List Text
same_order ks = ks

abbrev digest_msg : Msg
digest_msg = record {
  type_tag = some msg_digest;
  sender = 66 ∷ [];
  rumors = [];
  ids = (9 ∷ []) ∷ [];
}

abbrev push_msg : Msg
push_msg = record {
  type_tag = some msg_push;
  sender = 66 ∷ [];
  rumors = stale ∷ news ∷ [];
  ids = [];
}

informed-IsKeyed : IsKeyed informed.store
unfolding inject_rumor new_node new_store lookup insert Store.add Store.write_log
informed-IsKeyed k r e = ground (arith, =ᵗ_iff (1 ∷ []) k)

anti_entropy-no_news_example :
    let asked = handle 9 same_order digest_msg (66 ∷ []) informed in
    let answer = handle_all 9 same_order asked.sends (65 ∷ []) informed in
    let done = handle_all 9 same_order answer.sends (66 ∷ []) asked.node in
    (done.node.store.seen ≡ informed.store.seen)
    × (done.node.store.new_ids ≡ informed.store.new_ids)
anti_entropy-no_news_example =
    anti_entropy-no_news 9 same_order informed informed digest_msg (66 ∷ []) (65 ∷ [])
      (λ ks k. refl) informed-IsKeyed refl

handle-push_example :
    let h = handle 9 same_order push_msg (66 ∷ []) informed in
    ((k : Text)
      → lookup k h.node.store.seen
        ≡ or_else (lookup k informed.store.seen) (first_live k push_msg.rumors))
    × (h.sends ≡ [])
handle-push_example = handle-push 9 same_order push_msg (66 ∷ []) informed refl

-- n - 1, ..., 1, 0.
abbrev count_down : ℕ → List ℕ
count_down zero = []
count_down (suc n) = n ∷ count_down n

count_down-AllBelow : (n bound : ℕ) → n ≤ bound → AllBelow bound (count_down n)
unfolding AllBelow
count_down-AllBelow zero bound h = tt
count_down-AllBelow (suc n) bound h = (omega arith, count_down-AllBelow n bound (omega arith))

length-count_down : (n : ℕ) → length (count_down n) ≡ n
length-count_down zero = refl
length-count_down (suc n) = ap suc (length-count_down n)

count_down_new : (n i : ℕ) → n ≤ i → Every (λ j. (i == j) ≡ false) (count_down n)
count_down_new zero i h = tt
count_down_new (suc n) i h = (ground arith, count_down_new n i (omega arith))

count_down-IsDistinct : (n : ℕ) → IsDistinct (count_down n)
count_down-IsDistinct zero = tt
count_down-IsDistinct (suc n) = (count_down_new n n (omega arith), count_down-IsDistinct n)

count_down-IsPermutation : IsPermutation count_down
count_down-IsPermutation =
    (λ n. (length-count_down n, count_down-AllBelow n n (omega arith)), count_down-IsDistinct)

-- Three peers, of which two are drawn.
tick_once-IsFanOut_example :
    (h : Handled) × (tick_once 9 count_down informed ≡ some h)
    × (h.node.store.seen ≡ informed.store.seen)
    × (h.node.store.new_ids ≡ [])
    × IsFanOut 2 count_down (ready_to_push informed.store).rumors informed h.sends
unfolding inject_rumor new_node
tick_once-IsFanOut_example =
    tick_once-IsFanOut 9 2 count_down informed refl count_down-IsPermutation

run-kept_example :
    lookup (1 ∷ []) (run sample_ops (record { store = informed.store; pushed = [] })).store.seen
    ≡ some (record { id = 1 ∷ []; ttl = pos 3; body = 7 ∷ []; origin = 65 ∷ []; inject_ts = 5 })
unfolding inject_rumor new_node new_store lookup insert Store.add Store.write_log ◌=ᵗ◌
run-kept_example =
    run-kept sample_ops (record { store = informed.store; pushed = [] }) (1 ∷ [])
      (record { id = 1 ∷ []; ttl = pos 3; body = 7 ∷ []; origin = 65 ∷ []; inject_ts = 5 }) refl
