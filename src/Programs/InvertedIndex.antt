-- ===== src/Programs/InvertedIndex.antt =====
-- src/main/ii.go: mapF and reduceF.
use cs.Prelude.{
  ◌≡◌, ap, Bool, true, false, List, [], ◌∷◌, ◌++◌, none, some, Text, arith, length, contains, ◌=ᵗ◌,
  =ᵗ_iff, if◌then◌else◌,
}
use cs.Prelude.Decimal.{itoa}
use cs.Prelude.Dicts.{Dict, lookup, insert, lookup-insert}
use cs.MapReduce.Defs.{KeyValue}
use cs.MapReduce.Reduce.{sort}
use cs.MapReduce.Reduce.Grouping.{values_of, has_key}
use cs.Programs.Words.{Unicode, words}

-- alreadyread[word], which is false where there is no entry.
unfoldable pub is_read : Text → Dict Bool → Bool
is_read w d = elim (lookup w d) [ none ↦ false | some b ↦ b ]

-- The loop over the words: a pair for each that was not read before.
unfoldable pub first_pairs : Text → List Text → Dict Bool → List KeyValue
unfolding is_read
first_pairs document [] read = []
first_pairs document (w ∷ ws) read =
    let rest = first_pairs document ws read in
    let marked = first_pairs document ws (insert w true read) in
    if is_read w read then rest else record { key = w; value = document } ∷ marked

unfoldable pub map_f : Unicode → (document value : Text) → List KeyValue
unfolding first_pairs
map_f u document value = first_pairs document (words u value) []

-- strings.Join(docs, ",")
unfoldable pub join : List Text → Text
join [] = []
join (d ∷ []) = d
join (d ∷ e ∷ ds) = d ++ 44 ∷ [] ++ join (e ∷ ds)

-- "%d %s"
unfoldable pub reduce_f : (key : Text) → List Text → Text
unfolding join sort
reduce_f key values = let docs = sort values in itoa (length docs) ++ 32 ∷ [] ++ join docs

is_read-insert :
    (k w : Text) (read : Dict Bool)
    → is_read k (insert w true read) ≡ (if w =ᵗ k then true else is_read k read)
unfolding is_read
is_read-insert k w read = ground (arith, lookup-insert w k true read)

-- A word that was read gets no pair, and any other word gets one, with the document, if it occurs.
values_of-first_pairs :
    (document k : Text) (ws : List Text) (read : Dict Bool)
    → values_of k (first_pairs document ws read)
      ≡ (if is_read k read then [] else if contains ws k then document ∷ [] else [])
unfolding values_of first_pairs contains
values_of-first_pairs document k [] read = ground arith
values_of-first_pairs document k (w ∷ ws) read = ground (
  arith,
  values_of-first_pairs document k ws read,
  values_of-first_pairs document k ws (insert w true read),
  is_read-insert k w read,
  =ᵗ_iff w k,
  ap (λ t. is_read t read) {x = w} {y = k},
)

has_key-first_pairs :
    (document k : Text) (ws : List Text) (read : Dict Bool)
    → has_key k (first_pairs document ws read) ≡ (if is_read k read then false else contains ws k)
unfolding has_key first_pairs contains
has_key-first_pairs document k [] read = ground arith
has_key-first_pairs document k (w ∷ ws) read = ground (
  arith,
  has_key-first_pairs document k ws read,
  has_key-first_pairs document k ws (insert w true read),
  is_read-insert k w read,
  =ᵗ_iff w k,
  ap (λ t. is_read t read) {x = w} {y = k},
)

-- A document gives one pair for each word that occurs in it, with its name, however often.
pub values_of-map_f :
    (u : Unicode) (document value k : Text)
    → values_of k (map_f u document value)
      ≡ (if contains (words u value) k then document ∷ [] else [])
unfolding map_f is_read lookup
values_of-map_f u document value k = values_of-first_pairs document k (words u value) []

pub has_key-map_f :
    (u : Unicode) (document value k : Text)
    → has_key k (map_f u document value) ≡ contains (words u value) k
unfolding map_f is_read lookup
has_key-map_f u document value k = has_key-first_pairs document k (words u value) []
