-- ===== src/Raft/Replicas/Logs.antt =====
-- Logs of src/raft/raft.go whose entries come from one book for each term: the log of that term's
-- leader.
use cs.Prelude.{
  ℕ, zero, suc, ◌+◌, ◌≤◌, ◌<◌, ◌≡◌, ◌⊎◌, refl, sym, ap, ◌∙◌, inl, inr, pos, List, [], ◌∷◌, ◌++◌,
  some, some-eq, none, arith, length, length-take, get_elem?, get_elem?-lt, get_elem?-take,
  lt_of_get_elem?, subst, take, drop, take-append-drop,
}
use cs.Raft.Defs.{LogEntry, AppendEntriesArgs}
use cs.Raft.Log.{term_at_locked, sync_locked}
use cs.Raft.Replicate.Backtrack.{term_at_locked-found}
use cs.Raft.Log.Sync.{Matching, sync_locked-nil, sync_locked-overwrite}

-- The second list goes on from the first.
abbrev pub IsPrefix {ℓ} : {A : Type ℓ} → List A → List A → Type ℓ
IsPrefix xs ys = take (length xs) ys ≡ xs

module _ {ℓ} {A : Type ℓ} where
  pub take-take : (m n : ℕ) (xs : List A) → m ≤ n → take m (take n xs) ≡ take m xs
  take-take zero n xs h = refl
  take-take (suc m) zero xs h = absurd (omega arith)
  take-take (suc m) (suc n) [] h = refl
  take-take (suc m) (suc n) (x ∷ xs) h = ap (◌∷◌ x) (take-take m n xs (omega arith))

  pub take-append : (n : ℕ) (xs ys : List A) → n ≤ length xs → take n (xs ++ ys) ≡ take n xs
  take-append zero xs ys h = refl
  take-append (suc n) [] ys h = absurd (omega arith)
  take-append (suc n) (x ∷ xs) ys h = ap (◌∷◌ x) (take-append n xs ys (omega arith))

  pub take-IsPrefix :
      (n : ℕ) (xs ys : List A) → n ≤ length xs → IsPrefix xs ys → take n ys ≡ take n xs
  take-IsPrefix n xs ys h p = sym (take-take n (length xs) ys h) ∙ ap (take n) p

  pub get_of_take :
      (n : ℕ) (xs ys : List A) → take (suc n) xs ≡ take (suc n) ys → get_elem? xs n ≡ get_elem? ys n
  get_of_take n xs ys e =
      sym (get_elem?-take (suc n) xs n (omega arith))
      ∙ ap (λ l. get_elem? l n) e
      ∙ get_elem?-take (suc n) ys n (omega arith)

  pub get_elem?-drop : (n i : ℕ) (xs : List A) → get_elem? (drop n xs) i ≡ get_elem? xs (n + i)
  get_elem?-drop zero i xs = let e : zero + i ≡ i = omega arith in rw e refl
  get_elem?-drop (suc n) i [] = refl
  get_elem?-drop (suc n) i (x ∷ xs) =
      let e : suc n + i ≡ suc (n + i) = omega arith in rw e (get_elem?-drop n i xs)

  pub length-of_take :
      (n : ℕ) (xs ys : List A) → take n xs ≡ take n ys → n ≤ length xs → n ≤ length ys
  length-of_take n xs ys e h = omega (arith, ap length e, length-take n xs, length-take n ys)

module _ {C : Type 0} where
  -- Up to each of its entries, the log is the book of the entry's term.
  abbrev pub Rooted : (ℕ → List (LogEntry C)) → List (LogEntry C) → Type 0
  Rooted book log =
      (k : ℕ) (e : LogEntry C)
      → get_elem? log k ≡ some e
      → take (suc k) log ≡ take (suc k) (book e.term)

  -- Books that only grow.
  abbrev pub Extends : (ℕ → List (LogEntry C)) → (ℕ → List (LogEntry C)) → Type 0
  Extends book' book = (t : ℕ) → IsPrefix (book t) (book' t)

  -- Part of a log, as a message carries it: the entries between two indices, and the term of the entry
  -- before them.
  pub record IsChunk (log : List (LogEntry C)) (args : AppendEntriesArgs C) : Type 0 where
    pub end : ℕ
    pub in_log : end ≤ length log
    pub in_order : args.prev_log_index < end
    pub entries : args.entries ≡ drop (suc args.prev_log_index) (take end log)
    pub prev_term : args.prev_log_term ≡ term_at_locked (take end log) args.prev_log_index

  pub Rooted-match :
      (book : ℕ → List (LogEntry C)) (xs ys : List (LogEntry C)) (k : ℕ) (x y : LogEntry C)
      → Rooted book xs
      → Rooted book ys
      → get_elem? xs k ≡ some x
      → get_elem? ys k ≡ some y
      → x.term ≡ y.term
      → take (suc k) xs ≡ take (suc k) ys
  Rooted-match book xs ys k x y h h' e e' same =
      h k x e ∙ ap (λ t. take (suc k) (book t)) same ∙ sym (h' k y e')

  pub Rooted-take :
      (book : ℕ → List (LogEntry C)) (n : ℕ) (log : List (LogEntry C))
      → Rooted book log
      → Rooted book (take n log)
  Rooted-take book n log h k e f =
      let lt : suc k ≤ n = omega (arith, lt_of_get_elem? (take n log) k f, length-take n log) in
      take-take (suc k) n log lt ∙ h k e (sym (get_elem?-take n log k lt) ∙ f)

  pub Rooted-Extends :
      (book' book : ℕ → List (LogEntry C)) (log : List (LogEntry C))
      → Extends book' book
      → Rooted book log
      → Rooted book' log
  Rooted-Extends book' book log grows h k e f =
      let same = h k e f in
      let le = length-of_take (suc k) log (book e.term) same (lt_of_get_elem? log k f) in
      same ∙ sym (take-IsPrefix (suc k) (book e.term) (book' e.term) le (grows e.term))

  snoc-cases :
      (log : List (LogEntry C)) (e : LogEntry C) (k : ℕ) (f : LogEntry C)
      → get_elem? (log ++ e ∷ []) k ≡ some f
      → (get_elem? log k ≡ some f) ⊎ ((k ≡ length log) × (e ≡ f))
  snoc-cases [] e zero f h = inr (refl, some-eq h)
  snoc-cases [] e (suc k) f h = ground arith
  snoc-cases (x ∷ xs) e zero f h = inl h
  snoc-cases (x ∷ xs) e (suc k) f h = elim (snoc-cases xs e k f h) [
    | inl old ↦ inl old
    | inr (last, same) ↦ inr (ap suc last, same)
  ]

  -- A new entry of a term, where the log is the term's book.
  pub Rooted-snoc :
      (book : ℕ → List (LogEntry C)) (log : List (LogEntry C)) (e : LogEntry C)
      → Rooted book log
      → book e.term ≡ log ++ e ∷ []
      → Rooted book (log ++ e ∷ [])
  Rooted-snoc book log e h b k f at_k = elim (snoc-cases log e k f at_k) [
    | inl old ↦ take-append (suc k) log (e ∷ []) (lt_of_get_elem? log k old) ∙ h k f old
    | inr (last, same) ↦ ap (take (suc k)) (sym b ∙ ap (λ (x : LogEntry C). book x.term) same)
  ]

  pub IsChunk-Extends :
      (log log' : List (LogEntry C)) (args : AppendEntriesArgs C)
      → IsPrefix log log'
      → IsChunk log args
      → IsChunk log' args
  IsChunk-Extends log log' args p c =
      let same : take c.end log' ≡ take c.end log = take-IsPrefix c.end log log' c.in_log p in
      record {
        end = c.end;
        in_log = length-of_take c.end log log' (sym same) c.in_log;
        in_order = c.in_order;
        entries = rw same c.entries;
        prev_term = rw same c.prev_term;
      }

  abbrev pub HasDummy : List (LogEntry C) → Type 0
  HasDummy log = get_elem? log 0 ≡ some (record { term = 0; command = none })

  -- An index in the log has an entry, which the code's test of its term reads.
  pub entry_at :
      (log : List (LogEntry C)) (i : ℕ)
      → HasDummy log
      → i < length log
      → (e : LogEntry C) × (get_elem? log i ≡ some e) × (term_at_locked log i ≡ pos e.term)
  unfolding term_at_locked
  entry_at log zero d lt = (_, d, refl)
  entry_at log (suc i) d lt =
      let (e, at_i) = get_elem?-lt log (suc i) lt in (e, at_i, term_at_locked-found log i at_i)

  Matching-from :
      (xs ys : List (LogEntry C))
      → ((i : ℕ) (x y : LogEntry C)
          → get_elem? xs i ≡ some x
          → get_elem? ys i ≡ some y
          → x.term ≡ y.term
          → x ≡ y)
      → Matching xs ys
  Matching-from [] ys h = tt
  Matching-from (x ∷ xs) [] h = tt
  Matching-from (x ∷ xs) (y ∷ ys) h =
      (h 0 x y refl refl, Matching-from xs ys (λ i a b p q. h (suc i) a b p q))

  -- A message whose check succeeds leaves the log, or makes it a part of the leader's.
  module _ (book : ℕ → List (LogEntry C)) (log sent : List (LogEntry C)) (prev : ℕ)
      (rooted : Rooted book log) (rooted' : Rooted book sent) (dummy : HasDummy log)
      (dummy' : HasDummy sent) (lt : prev < length log) (lt' : prev < length sent)
      (same : term_at_locked log prev ≡ term_at_locked sent prev) where
    same_start : take (suc prev) log ≡ take (suc prev) sent
    same_start =
        let (x, at_x, tx) = entry_at log prev dummy lt in
        let (y, at_y, ty) = entry_at sent prev dummy' lt' in
        Rooted-match book log sent prev x y rooted rooted' at_x at_y
          (let e : pos x.term ≡ pos y.term = sym tx ∙ same ∙ ty in ground arith)

    matching : Matching (drop (suc prev) log) (drop (suc prev) sent)
    matching = Matching-from _ _ λ i x y p q t.
        let at_x = sym (get_elem?-drop (suc prev) i log) ∙ p in
        let at_y = sym (get_elem?-drop (suc prev) i sent) ∙ q in
        let agree = Rooted-match book log sent (suc prev + i) x y rooted rooted' at_x at_y t in
        some-eq (sym at_x ∙ get_of_take (suc prev + i) log sent agree ∙ at_y)

    overwrites :
        (es : List (LogEntry C))
        → drop (suc prev) sent ≡ es
        → (sync_locked log (prev + 1) es ≡ log) ⊎ (sync_locked log (prev + 1) es ≡ sent)
    overwrites [] q = inl (sync_locked-nil log (prev + 1))
    overwrites (e ∷ es) q =
        let start : prev + 1 ≡ suc prev = omega arith in
        inr (
          rw start (
            sync_locked-overwrite log (suc prev) e es lt
              (subst (Matching (drop (suc prev) log)) q matching)
            ∙ ap (λ l. l ++ e ∷ es) same_start
            ∙ ap (◌++◌ (take (suc prev) sent)) (sym q)
            ∙ take-append-drop (suc prev) sent))

    pub sync_locked-sent :
        (sync_locked log (prev + 1) (drop (suc prev) sent) ≡ log)
        ⊎ (sync_locked log (prev + 1) (drop (suc prev) sent) ≡ sent)
    sync_locked-sent = overwrites (drop (suc prev) sent) refl
