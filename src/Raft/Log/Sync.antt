-- ===== src/Raft/Log/Sync.antt =====
-- What syncLocked of src/raft/raft.go leaves in the log.
use mathlib.Core.List.{append_assoc, map-append}
use cs.Prelude.{
  ℕ, zero, suc, ◌+◌, ◌≤◌, ◌≡◌, refl, sym, ap, ◌∙◌, ◌⊎◌, inl, inr, List, [], ◌∷◌, ◌++◌, map, arith,
  length, length-append, length-take, take, take-all, drop, min,
}
use cs.Raft.Defs.{LogEntry}
use cs.Raft.Log.{agreeing, clamp, sync_at, sync_locked}

module _ {ℓ} {A : Type ℓ} where
  take-add : (m n : ℕ) (xs : List A) → take (m + n) xs ≡ take m xs ++ take n (drop m xs)
  take-add zero n xs = let e : zero + n ≡ n = omega arith in rw e
  take-add (suc m) zero [] = let e : suc m + zero ≡ suc m = omega arith in rw e
  take-add (suc m) (suc n) [] = let e : suc m + suc n ≡ suc (m + suc n) = omega arith in rw e
  take-add (suc m) n (x ∷ xs) =
      let e : suc m + n ≡ suc (m + n) = omega arith in rw e (ap (◌∷◌ x) (take-add m n xs))

clamp_cases : (s n : ℕ) → ((s ≤ n) × (clamp s n ≡ s)) ⊎ ((n ≤ s) × (clamp s n ≡ n))
unfolding clamp
clamp_cases s n = ground arith

module _ {C : Type 0} where
  abbrev pub terms : List (LogEntry C) → List ℕ
  terms = map (λ e. e.term)

  -- Two lists of entries whose first entries of one term and index are one entry.
  abbrev pub Matching : List (LogEntry C) → List (LogEntry C) → Type 0
  Matching [] es = Unit
  Matching (x ∷ xs) [] = Unit
  Matching (x ∷ xs) (e ∷ es) = (x.term ≡ e.term → x ≡ e) × Matching xs es

  pub take-terms : (n : ℕ) (log : List (LogEntry C)) → terms (take n log) ≡ take n (terms log)
  take-terms zero log = refl
  take-terms (suc n) [] = refl
  take-terms (suc n) (x ∷ xs) = ap (◌∷◌ x.term) (take-terms n xs)

  pub drop-terms : (n : ℕ) (log : List (LogEntry C)) → terms (drop n log) ≡ drop n (terms log)
  drop-terms zero log = refl
  drop-terms (suc n) [] = refl
  drop-terms (suc n) (x ∷ xs) = drop-terms n xs

  take-clamp : (s : ℕ) (log : List (LogEntry C)) → take (clamp s (length log)) log ≡ take s log
  take-clamp s log = elim (clamp_cases s (length log)) [
    | inl (_, e) ↦ rw e
    | inr (h, e) ↦ rw e (take-all (length log) log (omega arith) ∙ sym (take-all s log h))
  ]

  agreeing-terms :
      (xs es : List (LogEntry C))
      → terms (take (agreeing xs es) xs) ++ terms (drop (agreeing xs es) es) ≡ terms es
  unfolding agreeing
  agreeing-terms [] es = refl
  agreeing-terms (x ∷ xs) [] = refl
  agreeing-terms (x ∷ xs) (e ∷ es) = ground (arith, agreeing-terms xs es)

  agreeing-Matching :
      (xs es : List (LogEntry C))
      → Matching xs es
      → take (agreeing xs es) xs ++ drop (agreeing xs es) es ≡ es
  unfolding agreeing
  agreeing-Matching [] es h = refl
  agreeing-Matching (x ∷ xs) [] h = refl
  agreeing-Matching (x ∷ xs) (e ∷ es) h = ground (arith, agreeing-Matching xs es)

  sync_at_split :
      (log : List (LogEntry C)) (start : ℕ) (es : List (LogEntry C))
      → sync_at log start es
        ≡ take start log
          ++ (take (agreeing (drop start log) es) (drop start log)
              ++ drop (agreeing (drop start log) es) es)
  unfolding sync_at
  sync_at_split log start es =
      rw (take-add start (agreeing (drop start log) es) log) (append_assoc (take start log) _ _)

  -- However many entries are skipped as agreeing, the terms that syncLocked leaves are those of
  -- the log below the start index, and then those of the entries: nothing of the log behind
  -- the entries stays. The start index may lie past the end of the log.
  pub sync_locked-terms :
      (log : List (LogEntry C)) (start : ℕ) (e : LogEntry C) (es : List (LogEntry C))
      → terms (sync_locked log start (e ∷ es)) ≡ take start (terms log) ++ terms (e ∷ es)
  unfolding sync_locked
  sync_locked-terms log start e es =
      let s = clamp start (length log) in
      rw (
        sync_at_split log s (e ∷ es),
        take-clamp start log,
        map-append,
        map-append,
        agreeing-terms (drop s log) (e ∷ es),
        take-terms start log,
      )

  -- Where an entry of the log and one that is sent for the same index agree in whole once their
  -- terms agree, syncLocked is the plain overwrite: the log below the start index, then the entries.
  pub sync_locked-overwrite :
      (log : List (LogEntry C)) (start : ℕ) (e : LogEntry C) (es : List (LogEntry C))
      → start ≤ length log
      → Matching (drop start log) (e ∷ es)
      → sync_locked log start (e ∷ es) ≡ take start log ++ e ∷ es
  unfolding sync_locked
  sync_locked-overwrite log start e es h m = elim (clamp_cases start (length log)) [
    | inl (_, c) ↦
        rw (c, sync_at_split log start (e ∷ es), agreeing-Matching (drop start log) (e ∷ es) m)
    | inr (g, c) ↦
        let d : clamp start (length log) ≡ start = omega (arith, c) in
        rw (d, sync_at_split log start (e ∷ es), agreeing-Matching (drop start log) (e ∷ es) m)
  ]

  -- With nothing to append the log stays.
  pub sync_locked-nil : (log : List (LogEntry C)) (start : ℕ) → sync_locked log start [] ≡ log
  unfolding sync_locked
  sync_locked-nil log start = refl

  -- The log below the start index stays.
  pub length-sync_locked :
      (log : List (LogEntry C)) (start : ℕ) (es : List (LogEntry C))
      → min start (length log) ≤ length (sync_locked log start es)
  unfolding sync_locked
  length-sync_locked log start [] = omega arith
  length-sync_locked log start (e ∷ es) =
      let s = clamp start (length log) in
      rw (sync_at_split log s (e ∷ es)) (
        omega (
          arith,
          length-append (take s log) (
              take (agreeing (drop s log) (e ∷ es)) (drop s log)
              ++ drop (agreeing (drop s log) (e ∷ es)) (e ∷ es)),
          length-take s log,
          clamp_cases start (length log),
        ))
