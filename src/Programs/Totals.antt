-- ===== src/Programs/Totals.antt =====
-- Whole sequential jobs of src/main/wc.go and src/main/ii.go: what the output file says.
use cs.Prelude.{
  ℕ, zero, suc, ◌+◌, ◌<◌, ◌^◌, ◌≡◌, refl, ap, ◌∙◌, true, List, [], ◌∷◌, ◌++◌, none, some, Text,
  arith, length, count, contains, contains-count, replicate, ltb, if◌then◌else◌,
}
use cs.Prelude.Decimal.{itoa}
use cs.Prelude.Dicts.{Dict, lookup, insert}
use cs.MapReduce.Defs.{KeyValue, Files, prefix, reduce_name, or_empty}
use cs.MapReduce.Reduce.{sort}
use cs.MapReduce.Reduce.Sorting.{IsSorted, length-sort}
use cs.MapReduce.Reduce.Grouping.{values_of, has_key}
use cs.MapReduce.Master.{sequential}
use cs.MapReduce.Master.Partitions.{all_pairs}
use cs.MapReduce.Master.Report.{report, sequential-report}
use cs.Programs.Words.{Unicode, words}
use cs.Programs.WordCount
use cs.Programs.WordCount.{one, reduce_f-ones}
use cs.Programs.InvertedIndex
use cs.Programs.InvertedIndex.{join}

-- A line for each key.
unfoldable pub lines : (Text → Text) → List Text → Text
lines f [] = []
lines f (k ∷ ks) = k ++ 58 ∷ 32 ∷ [] ++ f k ++ 10 ∷ [] ++ lines f ks

report-lines :
    (reduce_f : Text → List Text → Text) (pairs : List KeyValue) (f : Text → Text) (ks : List Text)
    → ((k : Text) → reduce_f k (values_of k pairs) ≡ f k)
    → report reduce_f pairs ks ≡ lines f ks
unfolding report lines
report-lines reduce_f pairs f [] h = refl
report-lines reduce_f pairs f (k ∷ ks) h = rw (h k, report-lines reduce_f pairs f ks h) refl

values_of-append :
    (k : Text) (xs ys : List KeyValue) → values_of k (xs ++ ys) ≡ values_of k xs ++ values_of k ys
unfolding values_of
values_of-append k [] ys = refl
values_of-append k (x ∷ xs) ys = ground (arith, values_of-append k xs ys)

has_key-append :
    (k : Text) (xs ys : List KeyValue)
    → has_key k (xs ++ ys) ≡ (if has_key k xs then true else has_key k ys)
unfolding has_key
has_key-append k [] ys = ground arith
has_key-append k (x ∷ xs) ys = ground (arith, has_key-append k xs ys)

replicate-add : (m n : ℕ) (v : Text) → replicate m v ++ replicate n v ≡ replicate (m + n) v
replicate-add zero n v = ap (λ x. replicate x v) (omega arith)
replicate-add (suc m) n v =
    let e : suc (m + n) ≡ suc m + n = omega arith in
    ap (λ l. v ∷ l) (replicate-add m n v) ∙ ap (λ x. replicate x v) e

module _ (u : Unicode) (plain : Dict Text) where
  abbrev pub words_in : Text → List Text
  words_in f = words u (or_empty (lookup f plain))

  -- How often a word occurs in all the files.
  unfoldable pub total : List Text → Text → ℕ
  total [] k = 0
  total (f ∷ files) k = count k (words_in f) + total files k

  -- The files in which a word occurs.
  unfoldable pub files_with : List Text → Text → List Text
  files_with [] k = []
  files_with (f ∷ files) k =
      let rest = files_with files k in if contains (words_in f) k then f ∷ rest else rest

  values_of-total :
      (files : List Text) (k : Text)
      → values_of k (all_pairs (WordCount.map_f u) plain files) ≡ replicate (total files k) one
  unfolding all_pairs total values_of
  values_of-total [] k = refl
  values_of-total (f ∷ files) k =
      values_of-append k (WordCount.map_f u f (or_empty (lookup f plain))) _
      ∙ rw (WordCount.values_of-map_f u f (or_empty (lookup f plain)) k, values_of-total files k)
          (replicate-add (count k (words_in f)) (total files k) one)

  has_key-total :
      (files : List Text) (k : Text)
      → has_key k (all_pairs (WordCount.map_f u) plain files) ≡ ltb 0 (total files k)
  unfolding all_pairs total has_key
  has_key-total [] k = ground arith
  has_key-total (f ∷ files) k =
      has_key-append k (WordCount.map_f u f (or_empty (lookup f plain))) _
      ∙ ground (
        arith,
        WordCount.has_key-map_f u f (or_empty (lookup f plain)) k,
        has_key-total files k,
        contains-count (words_in f) k,
      )

  values_of-files_with :
      (files : List Text) (k : Text)
      → values_of k (all_pairs (InvertedIndex.map_f u) plain files) ≡ files_with files k
  unfolding all_pairs files_with values_of
  values_of-files_with [] k = refl
  values_of-files_with (f ∷ files) k =
      values_of-append k (InvertedIndex.map_f u f (or_empty (lookup f plain))) _
      ∙ ground (
        arith,
        InvertedIndex.values_of-map_f u f (or_empty (lookup f plain)) k,
        values_of-files_with files k,
      )

  has_key-files_with :
      (files : List Text) (k : Text)
      → has_key k (all_pairs (InvertedIndex.map_f u) plain files)
        ≡ ltb 0 (length (files_with files k))
  unfolding all_pairs files_with has_key
  has_key-files_with [] k = ground arith
  has_key-files_with (f ∷ files) k =
      has_key-append k (InvertedIndex.map_f u f (or_empty (lookup f plain))) _
      ∙ ground (
        arith,
        InvertedIndex.has_key-map_f u f (or_empty (lookup f plain)) k,
        has_key-files_with files k,
      )

-- What reduceF of the inverted index prints for the files of a word.
unfoldable pub listing : List Text → Text
listing docs = itoa (length docs) ++ 32 ∷ [] ++ join (sort docs)

reduce_f-listing : (k : Text) (docs : List Text) → InvertedIndex.reduce_f k docs ≡ listing docs
unfolding InvertedIndex.reduce_f listing
reduce_f-listing k docs = ap (λ n. itoa n ++ 32 ∷ [] ++ join (sort docs)) (length-sort docs)

module _ (u : Unicode) (job : Text) (files : List Text) (n : ℕ) (fs : Files) where
  -- A sequential word count with at least one reduce task, with no intermediate file from before, and
  -- in which no word occurs 2^63 times, ends and writes its output file: a line for each word that
  -- occurs in some input file, and no other line, sorted; the line has the number of times, in
  -- decimal, that the word occurs in all the files.
  pub word_count-totals :
      ((m r : ℕ) → lookup (reduce_name job m r) fs.records ≡ none)
      → ((k : Text) → total u fs.plain files k < 2 ^ 63)
      → (out : Files) × (ks : List Text) × (sequential job files
            (suc n)
            (WordCount.map_f u)
            WordCount.reduce_f
            fs
          ≡ some out)
        × IsSorted ks
        × ((k : Text) → count k ks ≡ (if ltb 0 (total u fs.plain files k) then 1 else 0))
        × (out.plain
            ≡ insert (prefix ++ job) (lines (λ k. itoa (total u fs.plain files k)) ks) fs.plain)
  word_count-totals fresh small =
      let (out, ks, e, sorted, counts, text) =
        sequential-report job files n (WordCount.map_f u) WordCount.reduce_f fs fresh in
      (
        out,
        ks,
        e,
        sorted,
        λ k. counts k ∙ ap (λ b. if b then 1 else 0) (has_key-total u fs.plain files k),
        text
            ∙ ap (λ t. insert (prefix ++ job) t fs.plain)
                (report-lines WordCount.reduce_f _ (λ k. itoa (total u fs.plain files k)) ks
                  (λ k.
                    ap (WordCount.reduce_f k) (values_of-total u fs.plain files k)
                    ∙ reduce_f-ones k (total u fs.plain files k) (small k))),
      )

  -- A sequential inverted index with at least one reduce task and no intermediate file from before
  -- ends and writes its output file: a line for each word that occurs in some input file, and no other
  -- line, sorted; the line has the number of the input files in which the word occurs and their names,
  -- sorted.
  pub inverted_index-files :
      ((m r : ℕ) → lookup (reduce_name job m r) fs.records ≡ none)
      → (out : Files) × (ks : List Text) × (sequential job files
            (suc n)
            (InvertedIndex.map_f u)
            InvertedIndex.reduce_f
            fs
          ≡ some out)
        × IsSorted ks
        × ((k : Text)
            → count k ks ≡ (if ltb 0 (length (files_with u fs.plain files k)) then 1 else 0))
        × (out.plain
            ≡ insert
                (prefix ++ job)
                (lines (λ k. listing (files_with u fs.plain files k)) ks)
                fs.plain)
  inverted_index-files fresh =
      let (out, ks, e, sorted, counts, text) =
        sequential-report job files n (InvertedIndex.map_f u) InvertedIndex.reduce_f fs fresh in
      (
        out,
        ks,
        e,
        sorted,
        λ k. counts k ∙ ap (λ b. if b then 1 else 0) (has_key-files_with u fs.plain files k),
        text
            ∙ ap (λ t. insert (prefix ++ job) t fs.plain)
                (report-lines InvertedIndex.reduce_f _
                  (λ k. listing (files_with u fs.plain files k)) ks
                  (λ k.
                    ap (InvertedIndex.reduce_f k) (values_of-files_with u fs.plain files k)
                    ∙ reduce_f-listing k (files_with u fs.plain files k))),
      )
