-- ===== src/Raft/Heartbeat.antt =====
-- Heartbeat and StartHeartbeat of src/raft/raft.go.
use cs.Prelude.{ℕ, minus_one, true, false, List, map, ltb, if◌then◌else◌}
use cs.Raft.Defs.{Raft, follower, World, Gob, HeartbeatArgs, HeartbeatReply}
use cs.Raft.Persist.{persist, update_last_heartbeat_locked}
use cs.Raft.Vote.{others, step_down_locked}

pub record HeartbeatResult (C : Type 0) : Type 0 where
  pub node : Raft C
  pub reply : HeartbeatReply

-- The call that a goroutine of StartHeartbeat makes.
pub record Beat : Type 0 where
  pub peer : ℕ
  pub args : HeartbeatArgs

pub record Beats (C : Type 0) : Type 0 where
  pub node : Raft C
  pub beats : List Beat

module _ {C : Type 0} where
  unfoldable pub heartbeat : Gob C → World → HeartbeatArgs → Raft C → HeartbeatResult C
  unfolding persist update_last_heartbeat_locked
  heartbeat g w args rf =
      if ltb args.term rf.term
      then record { node = rf; reply = record { term = rf.term; status = false } }
      else (let current =
            if ltb rf.term args.term
            then record rf { term = args.term; voted_for = minus_one }
            else rf in
          let node =
            persist g (update_last_heartbeat_locked w (record current { state = follower })) in
          record { node = node; reply = record { term = node.term; status = true } })

  unfoldable pub start_heartbeat : World → Raft C → Beats C
  unfolding update_last_heartbeat_locked others
  start_heartbeat w rf = record {
    node = update_last_heartbeat_locked w rf;
    beats =
        map
          (λ p. record { peer = p; args = record { leader_id = rf.me; term = rf.term; entry = 0 } })
          (others rf.peers rf.me);
  }

  -- The goroutine of StartHeartbeat once its call has returned; a call that failed leaves the
  -- reply's term at zero. It goes on to replicateTo.
  unfoldable pub beat_answered : Gob C → World → (t : ℕ) → HeartbeatReply → Raft C → Raft C
  unfolding step_down_locked
  beat_answered g w t reply rf = if ltb t reply.term then step_down_locked g w reply.term rf else rf
