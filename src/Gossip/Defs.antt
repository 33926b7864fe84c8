-- ===== src/Gossip/Defs.antt =====
-- The types of project/gossip/pkg/gossip: config.go, msg.go and the records of store.go and node.go.
-- Strings are lists of bytes. Times are in nanoseconds; a TTL is an `int` that may be negative.
use cs.Prelude.{ℕ, zero, suc, ℤ, pos, negsuc, Bool, true, false, List, Option, Text}
use cs.Prelude.Dicts.{Dict}

pub data MsgType : Type 0 where
  msg_push msg_digest msg_missing msg_fetch_rep : MsgType

pub record Rumor : Type 0 where
  pub id : Text
  pub ttl : ℤ
  pub body : List ℕ
  pub origin : Text
  pub inject_ts : ℕ

-- `type_tag` is `none` for a type that the node does not know, which its switch passes over.
pub record Msg : Type 0 where
  pub type_tag : Option MsgType
  pub sender : Text
  pub rumors : List Rumor
  pub ids : List Text

-- Config but for AEInterval, which nothing reads.
pub record Config : Type 0 where
  pub id : Text
  pub bind : Text
  pub seeds : List Text
  pub period : ℤ
  pub fanout : ℤ
  pub ttl : ℤ
  pub metrics_addr : Text
  pub log_path : Text

-- The event names that writeLog is called with.
pub data LogEvent : Type 0 where
  inject deliver sent received : LogEvent

pub record LogRec : Type 0 where
  pub ts : ℕ
  pub node : Text
  pub ev : LogEvent
  pub id : Text
  pub sz : ℕ
  pub origin : Text
  pub inject_ts : ℕ

-- `logf` is `none` where the log file could not be created, and else the records in it, the last
-- one first.
pub record Store : Type 0 where
  pub seen : Dict Rumor
  pub new_ids : List Text
  pub logf : Option (List LogRec)
  pub node_id : Text

pub record Node : Type 0 where
  pub cfg : Config
  pub store : Store
  pub peers : List Text

-- A message that a handler hands to the transport. Its errors are only logged.
pub record Envelope : Type 0 where
  pub addr : Text
  pub msg : Msg

-- x <= 0 fails
abbrev pub positive : ℤ → Bool
positive (pos zero) = false
positive (pos (suc n)) = true
positive (negsuc n) = false
