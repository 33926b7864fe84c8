-- ===== src/Programs/WordCount.antt =====
-- src/main/wc.go: mapF and reduceF.
use cs.Prelude.{
  ℕ, zero, suc, ◌+◌, ◌<◌, ◌^◌, ℤ, pos, add_int, add_int_fits, ◌≡◌, refl, sym, ap, ◌∙◌, List, [],
  ◌∷◌, map, Text, arith, count, contains, replicate,
}
use cs.Prelude.Decimal.{itoa, itoa_int, atoi, atoi-itoa}
use cs.MapReduce.Defs.{KeyValue}
use cs.MapReduce.Reduce.Grouping.{values_of, has_key}
use cs.Programs.Words.{Unicode, words}

-- "1"
abbrev pub one : Text
one = 49 ∷ []

unfoldable pub word_pairs : List Text → List KeyValue
word_pairs [] = []
word_pairs (w ∷ ws) = record { key = w; value = one } ∷ word_pairs ws

unfoldable pub map_f : Unicode → (document value : Text) → List KeyValue
unfolding word_pairs
map_f u document value = word_pairs (words u value)

-- The loop over the values. Where Atoi gives an error, its value is added all the same.
unfoldable pub sum_values : ℤ → List Text → ℤ
sum_values n [] = n
sum_values n (v ∷ vs) = sum_values (add_int n (atoi v).value) vs

unfoldable pub reduce_f : (key : Text) → List Text → Text
unfolding sum_values
reduce_f key values = itoa_int (sum_values (pos 0) values)

unfoldable pub sum : List ℕ → ℕ
sum [] = 0
sum (n ∷ ns) = n + sum ns

sum_values-itoa :
    (n : ℕ) (ns : List ℕ)
    → n + sum ns < 2 ^ 63
    → sum_values (pos n) (map itoa ns) ≡ pos (n + sum ns)
unfolding sum_values sum
sum_values-itoa n [] h = ap pos (omega arith)
sum_values-itoa n (m ∷ ns) h =
    let read = ap (λ p. add_int (pos n) p.value) (atoi-itoa m (omega arith)) in
    ap (λ z. sum_values z (map itoa ns)) (read ∙ add_int_fits n m (omega arith))
    ∙ sum_values-itoa (n + m) ns (omega (arith, h))
    ∙ ap pos (omega arith)

-- reduceF of numbers in decimal is their sum in decimal, if the sum is below 2^63.
pub reduce_f-itoa :
    (key : Text) (ns : List ℕ) → sum ns < 2 ^ 63 → reduce_f key (map itoa ns) ≡ itoa (sum ns)
unfolding reduce_f itoa_int
reduce_f-itoa key ns h =
    ap itoa_int (sum_values-itoa 0 ns (omega (arith, h)) ∙ ap pos (omega arith))

values_of-word_pairs :
    (k : Text) (ws : List Text) → values_of k (word_pairs ws) ≡ replicate (count k ws) one
unfolding values_of word_pairs count
values_of-word_pairs k [] = refl
values_of-word_pairs k (w ∷ ws) = ground (arith, values_of-word_pairs k ws)

has_key-word_pairs : (k : Text) (ws : List Text) → has_key k (word_pairs ws) ≡ contains ws k
unfolding has_key word_pairs contains
has_key-word_pairs k [] = refl
has_key-word_pairs k (w ∷ ws) = ground (arith, has_key-word_pairs k ws)

ones_sum : (n : ℕ) → sum (replicate n 1) ≡ n
unfolding sum
ones_sum zero = refl
ones_sum (suc n) = omega (arith, ones_sum n)

ones_itoa : (n : ℕ) → map itoa (replicate n 1) ≡ replicate n one
unfolding itoa
ones_itoa zero = refl
ones_itoa (suc n) = ap (λ l. one ∷ l) (ones_itoa n)

-- reduceF of n ones prints n.
pub reduce_f-ones : (key : Text) (n : ℕ) → n < 2 ^ 63 → reduce_f key (replicate n one) ≡ itoa n
reduce_f-ones key n h =
    ap (reduce_f key) (sym (ones_itoa n))
    ∙ reduce_f-itoa key (replicate n 1) (omega (arith, ones_sum n, h))
    ∙ ap itoa (ones_sum n)

-- The values of a word in the pairs of a document.
pub values_of-map_f :
    (u : Unicode) (document value k : Text)
    → values_of k (map_f u document value) ≡ replicate (count k (words u value)) one
unfolding map_f
values_of-map_f u document value k = values_of-word_pairs k (words u value)

pub has_key-map_f :
    (u : Unicode) (document value k : Text)
    → has_key k (map_f u document value) ≡ contains (words u value) k
unfolding map_f
has_key-map_f u document value k = has_key-word_pairs k (words u value)
