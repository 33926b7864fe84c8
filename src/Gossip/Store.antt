-- ===== src/Gossip/Store.antt =====
-- project/gossip/pkg/gossip/store.go. The mutex is held over each operation; `now` is the clock.
pub mod Runs
pub mod Deliveries
pub mod Kept
pub mod Known
use cs.Prelude.{
  ℕ, zero, suc, pos, Bool, true, false, List, [], ◌∷◌, ◌++◌, Option, none, some, length, Text,
  if◌then◌else◌,
}
use cs.Prelude.Dicts.{lookup, insert, keys}
use cs.Gossip.Defs.{Rumor, LogEvent, deliver, LogRec, Store}

-- The store after an operation, and its result.
pub record Added : Type 0 where
  pub store : Store
  pub is_new : Bool

pub record Ready : Type 0 where
  pub store : Store
  pub rumors : List Rumor

-- `file_opened` says whether os.Create gave a file.
unfoldable pub new_store : (file_opened : Bool) → Text → Store
new_store file_opened node_id = record {
  seen = [];
  new_ids = [];
  logf = if file_opened then some [] else none;
  node_id = node_id;
}

log_record : ℕ → Text → LogEvent → Rumor → LogRec
log_record now node ev r = record {
  ts = now;
  node = node;
  ev = ev;
  id = r.id;
  sz = length r.body;
  origin = r.origin;
  inject_ts = r.inject_ts;
}

appended : LogRec → Option (List LogRec) → Option (List LogRec)
appended rec none = none
appended rec (some recs) = some (rec ∷ recs)

unfoldable pub write_log : ℕ → LogEvent → Rumor → Store → Store
unfolding log_record appended
write_log now ev r s = record s { logf = appended (log_record now s.node_id ev r) s.logf }

-- Whether an insertion of the rumor finds its ID.
unfoldable pub add : ℕ → Rumor → Store → Added
unfolding write_log
add now r s = elim (lookup r.id s.seen) [
  | some old ↦ record { store = s; is_new = false }
  | none ↦ record {
    store =
        write_log now deliver r
          (record s { seen = insert r.id r s.seen; new_ids = s.new_ids ++ r.id ∷ [] });
    is_new = true;
  }
]

-- The zero value, which a lookup of a missing key gives.
abbrev pub zero_rumor : Rumor
zero_rumor = record { id = []; ttl = pos 0; body = []; origin = []; inject_ts = 0 }

unfoldable pub or_zero : Option Rumor → Rumor
or_zero none = zero_rumor
or_zero (some r) = r

unfoldable pub collect : Store → List Text → List Rumor
unfolding or_zero
collect s [] = []
collect s (id ∷ ids) = or_zero (lookup id s.seen) ∷ collect s ids

-- With no new ID the result is nil.
unfoldable pub ready_to_push : Store → Ready
unfolding collect
ready_to_push s = record { store = record s { new_ids = [] }; rumors = collect s s.new_ids }

-- Go gives the keys of a map in an order of its own, `order`.
unfoldable pub digest : (order : List Text → List Text) → Store → List Text
digest order s = order (keys s.seen)

unfoldable pub digest_count : Store → ℕ
digest_count s = length (keys s.seen)

found : Option Rumor → List Rumor → List Rumor
found none rest = rest
found (some r) rest = r ∷ rest

unfoldable pub lookup_many : Store → List Text → List Rumor
unfolding found
lookup_many s [] = []
lookup_many s (id ∷ ids) = found (lookup id s.seen) (lookup_many s ids)
