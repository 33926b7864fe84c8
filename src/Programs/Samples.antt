-- ===== src/Programs/Samples.antt =====
-- The theorems about src/main/wc.go and src/main/ii.go at concrete files.
use cs.Prelude.{
  ℕ, ◌<◌, ◌^◌, ◌≡◌, refl, Bool, List, [], ◌∷◌, map, some, none, Text, arith, length, count, ltb,
  leb, ◌=ᵗ◌, if◌then◌else◌,
}
use cs.Prelude.Decimal.{itoa}
use cs.Prelude.Dicts.{lookup, insert}
use cs.MapReduce.Defs.{Files, prefix, reduce_name}
use cs.MapReduce.Reduce.Sorting.{IsSorted}
use cs.MapReduce.Master.{sequential}
use cs.Programs.Words.{Unicode, words}
use cs.Programs.WordCount
use cs.Programs.WordCount.{sum, reduce_f-itoa}
use cs.Programs.InvertedIndex
use cs.Programs.Main.{runs_worker, word_count_main}
use cs.Programs.Totals.{lines, total, files_with, listing, word_count-totals, inverted_index-files}

-- One byte for each rune, and letters from "a" on.
abbrev ascii : Unicode
ascii = record {
  runes = map (λ c. c ∷ []);
  is_letter = λ r. elim r [ [] ↦ Bool.false | c ∷ rest ↦ leb 97 c ];
}

-- "ab a" and "a": the files "f" and "g".
abbrev two_files : Files
two_files = record {
  plain = (102 ∷ [], 97 ∷ 98 ∷ 32 ∷ 97 ∷ []) ∷ (103 ∷ [], 97 ∷ []) ∷ [];
  records = [];
}

abbrev sample_names : List Text
sample_names = (102 ∷ []) ∷ (103 ∷ []) ∷ []

-- Words are split at what is no letter.
words_example : words ascii (97 ∷ 98 ∷ 32 ∷ 97 ∷ 32 ∷ 32 ∷ []) ≡ (97 ∷ 98 ∷ []) ∷ (97 ∷ []) ∷ []
unfolding words
words_example = refl

worker_example :
    word_count_main ([] ∷ (1 ∷ []) ∷ (2 ∷ []) ∷ (3 ∷ []) ∷ []) ≡ runs_worker (2 ∷ []) (3 ∷ []) 100
unfolding word_count_main ◌=ᵗ◌
worker_example = refl

no_fresh : (m r : ℕ) → lookup (reduce_name [] m r) two_files.records ≡ none
unfolding lookup
no_fresh m r = refl

total_small : (k : Text) → total ascii two_files.plain sample_names k < 2 ^ 63
unfolding total words lookup ◌=ᵗ◌ count
total_small k = ground arith

reduce_f-itoa_example : WordCount.reduce_f [] (map itoa (12 ∷ 30 ∷ [])) ≡ itoa (sum (12 ∷ 30 ∷ []))
unfolding sum
reduce_f-itoa_example = reduce_f-itoa [] (12 ∷ 30 ∷ []) (omega arith)

word_count-totals_example :
    (out : Files) × (ks : List Text) × (sequential [] sample_names 3
        (WordCount.map_f ascii)
        WordCount.reduce_f
        two_files
      ≡ some out)
    × IsSorted ks
    × ((k : Text)
        → count k ks ≡ (if ltb 0 (total ascii two_files.plain sample_names k) then 1 else 0))
    × (out.plain
        ≡ insert prefix
            (lines (λ k. itoa (total ascii two_files.plain sample_names k)) ks)
            two_files.plain)
word_count-totals_example = word_count-totals ascii [] sample_names 2 two_files no_fresh total_small

inverted_index-files_example :
    (out : Files) × (ks : List Text) × (sequential [] sample_names 3
        (InvertedIndex.map_f ascii)
        InvertedIndex.reduce_f
        two_files
      ≡ some out)
    × IsSorted ks
    × ((k : Text)
        → count k ks
          ≡ (if ltb 0 (length (files_with ascii two_files.plain sample_names k)) then 1 else 0))
    × (out.plain
        ≡ insert prefix
            (lines (λ k. listing (files_with ascii two_files.plain sample_names k)) ks)
            two_files.plain)
inverted_index-files_example = inverted_index-files ascii [] sample_names 2 two_files no_fresh
