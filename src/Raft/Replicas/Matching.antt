-- ===== src/Raft/Replicas/Matching.antt =====
-- Log matching in a cluster of src/raft/raft.go.
use cs.Prelude.{
  ℕ, zero, suc, ◌+◌, ◌≡◌, refl, subst, some, some-eq, inl, arith, length, length-replicate,
  get_elem?, take, replicate,
}
use cs.Raft.Defs.{LogEntry, Raft, World, Gob}
use cs.Raft.Persist.{make_persister, dummy_log, make}
use cs.Raft.Persist.Durable.{GobLaws}
use cs.Raft.Cluster.{boot, made}
use cs.Raft.Cluster.Keeps.{IsFair}
use cs.Raft.Cluster.Safety.{Move-IsFair, boot-IsFair}
use cs.Raft.Replicas.{
  Replicas, moves, sends, delivers, answers, Reaches, here, next, new_replicas, IsTimely,
}
use cs.Raft.Replicas.Logs.{Rooted, Rooted-match}
use cs.Raft.Replicas.Fair.{LogOk}
use cs.Raft.Replicas.Moves.{Move-HasBooks}
use cs.Raft.Replicas.Sound.{IsSound, sends-IsSound, delivers-IsSound, answers-IsSound}

dummy-Rooted : {C : Type 0} → Rooted {C = C} (λ t. dummy_log) dummy_log
dummy-Rooted zero e f = refl
dummy-Rooted (suc k) e f = ground arith

module _ {C : Type 0} (g : Gob C) (laws : GobLaws g) (n : ℕ) where
  new-LogOk : (w : World) (peers i : ℕ) → LogOk (λ t. dummy_log) (make g w peers i make_persister)
  unfolding make make_persister
  new-LogOk w peers i = record { dummy = refl; rooted = dummy-Rooted; leads = λ l. refl }

  made-LogOk :
      (w : World) (peers m k i : ℕ) (rf : Raft C)
      → get_elem? (made g w peers m (replicate k make_persister)) i ≡ some rf
      → LogOk (λ t. dummy_log) rf
  unfolding made
  made-LogOk w peers m zero i rf e = ground arith
  made-LogOk w peers m (suc k) zero rf e =
      subst (LogOk (λ t. dummy_log)) (some-eq e) (new-LogOk w peers m)
  made-LogOk w peers m (suc k) (suc i) rf e = made-LogOk w peers (m + 1) k i rf e

  new-IsSound : (w : World) → IsSound g laws n (new_replicas g w n)
  unfolding new_replicas boot
  new-IsSound w = (
    subst (λ m. IsFair g m (boot g w (replicate n make_persister)))
        (length-replicate n make_persister) (boot-IsFair g w (replicate n make_persister)),
    (
      λ t. dummy_log,
      record {
        logs = λ i rf e. made-LogOk w (length (replicate n make_persister)) 0 n i rf e;
        books = λ t. (refl, dummy-Rooted);
        crowned = λ t. inl refl;
        messages = tt;
      },
    ),
    tt,
  )

  Reaches-IsSound :
      (w : World) {r r' : Replicas C} (run : Reaches g r r')
      → IsTimely run
      → IsSound g laws n r
      → IsSound g laws n r'
  Reaches-IsSound w here timely sound = sound
  Reaches-IsSound w (next run (moves move apart)) (timely, prompt) sound =
      let (fair, books, ok) = Reaches-IsSound w run timely sound in
      (
        Move-IsFair g laws n move prompt fair,
        Move-HasBooks g laws n _ move prompt apart fair books,
        ok,
      )
  Reaches-IsSound w
        (next {mid = mid} run
          (sends i peer leader_term {rf = rf} {p = p} {args = args} found bound q f))
        timely sound =
      sends-IsSound g laws n w mid i peer leader_term rf p args found bound q f
        (Reaches-IsSound w run timely sound)
  Reaches-IsSound w (next {mid = mid} run (delivers v k {m = m} {rf = rf} sent found)) timely
        sound =
      delivers-IsSound g laws n v mid k m rf sent found (Reaches-IsSound w run timely sound)
  Reaches-IsSound w (next {mid = mid} run (answers v k {m = m} {rf = rf} {a = a} came found q))
        timely sound =
      answers-IsSound g laws n v mid k m rf a came found q (Reaches-IsSound w run timely sound)

  pub run-IsSound :
      (w : World) {r : Replicas C} (run : Reaches g (new_replicas g w n) r)
      → IsTimely run
      → IsSound g laws n r
  run-IsSound w run timely = Reaches-IsSound w run timely (new-IsSound w)

  -- Among new servers whose leaders replicate their logs, with messages of AppendEntries and answers to
  -- them that come late, out of order, more than once or not at all, and servers that crash and
  -- restart: where the logs of two servers have entries of one term at one index, the logs are the
  -- same up to that index, commands included; if each vote that is counted finds its candidate
  -- still in the election's term, and no answer to a heartbeat is stale.
  pub logs_match :
      (w : World) {r : Replicas C} (run : Reaches g (new_replicas g w n) r)
      → IsTimely run
      → (i j k : ℕ) (a b : Raft C) (x y : LogEntry C) → get_elem? r.cluster.servers i ≡ some a
      → get_elem? r.cluster.servers j ≡ some b
      → get_elem? a.log k ≡ some x
      → get_elem? b.log k ≡ some y
      → x.term ≡ y.term
      → take (suc k) a.log ≡ take (suc k) b.log
  logs_match w run timely i j k a b x y at_i at_j at_k at_k' same =
      let (fair, books, _) = run-IsSound w run timely in
      let (book, log_fair) = books in
      Rooted-match book a.log b.log k x y (log_fair.logs i a at_i).rooted
        (log_fair.logs j b at_j).rooted at_k at_k' same
