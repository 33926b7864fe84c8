-- ===== src/MapReduce/Worker/Waits.antt =====
-- What Shutdown in src/mapreduce/worker.go does to the loop of RunWorker.
use cs.Prelude.{
  increment, decrement, ℕ, zero, suc, pos, ◌==ℤ◌, ◌≡◌, ◌≢◌, refl, ap, ◌∙◌, List, [], ◌∷◌,
  if◌then◌else◌,
}
use cs.MapReduce.Worker.{
  Worker, Point, testing, accepting, counting, exited, Serving, Event, goes_on, connected, stopped,
  go_on, connect, serve, serve_all, shutdown,
}

-- A sequence in which only the loop goes on.
unfoldable pub going : ℕ → List Event
going zero = []
going (suc k) = goes_on ∷ going k

-- In Accept, the loop stays there.
going-accepting :
    (k : ℕ) (wk : Worker)
    → serve_all (going k) (record { worker = wk; point = accepting })
      ≡ record { worker = wk; point = accepting }
unfolding going serve_all serve go_on
going-accepting zero wk = refl
going-accepting (suc k) wk = going-accepting k wk

-- Two steps of a loop that still expects one connection bring it to Accept.
twice :
    (wk : Worker) (p : Point)
    → wk.n_rpc ≡ pos 1
    → p ≢ exited
    → (wk' : Worker) × (go_on (go_on p wk).point (go_on p wk).worker
        ≡ record { worker = wk'; point = accepting })
      × (wk'.n_rpc ≡ pos 1)
unfolding go_on
twice wk testing r p = (wk, ap (λ z. go_on (if z ==ℤ pos 0 then exited else accepting) wk) r, r)
twice wk accepting r p = (wk, refl, r)
twice wk counting r p =
    let counted : Worker = record wk { n_tasks = increment wk.n_tasks } in
    (
      counted,
      ap (λ z. record { worker = counted; point = if z ==ℤ pos 0 then exited else accepting }) r,
      r,
    )
twice wk exited r p = absurd (p refl)

going-waits :
    (k : ℕ) (s : Serving)
    → s.worker.n_rpc ≡ pos 1
    → s.point ≢ exited
    → (wk : Worker) × (serve_all (going (suc (suc k))) s
        ≡ record { worker = wk; point = accepting })
      × (wk.n_rpc ≡ pos 1)
unfolding going serve_all serve
going-waits k s r p =
    let (wk, e, one) = twice s.worker s.point r p in
    (wk, ap (serve_all (going k)) e ∙ going-accepting k wk, one)

-- Once Shutdown was called at a worker whose loop has not ended, the loop stands in Accept after two
-- or more steps of its own, however many; one more connection then lets it end, in two steps.
pub shutdown-waits :
    (s : Serving) (k : ℕ)
    → s.point ≢ exited
    → let w = serve_all (stopped ∷ going (suc (suc k))) s in
      (w.point ≡ accepting) × ((serve_all (connected ∷ goes_on ∷ goes_on ∷ []) w).point ≡ exited)
unfolding serve_all serve shutdown go_on connect
shutdown-waits s k p =
    let (wk, e, one) = going-waits k (record s { worker = shutdown s.worker }) refl p in
    (
      ap (λ w. w.point) e,
      ap (λ w. (serve_all (connected ∷ goes_on ∷ goes_on ∷ []) w).point) e
          ∙ ap (λ z. if decrement z ==ℤ pos 0 then exited else accepting) one,
    )
