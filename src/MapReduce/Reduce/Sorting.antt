-- ===== src/MapReduce/Reduce/Sorting.antt =====
-- The order of the keys in src/mapreduce/common_reduce.go.
use cs.Prelude.{
  length, suc, ◌∙◌, ap, ◌≡◌, refl, true, false, List, [], ◌∷◌, arith, Text, count, inl, inr,
  Bool-cases,
}
use cs.MapReduce.Reduce.{le_text, insert_sorted, sort}

-- The text comes before the first one of the list.
unfoldable pub Before : Text → List Text → Type 0
Before x [] = Unit
Before x (y ∷ ys) = le_text x y ≡ true

-- Each text comes before the next one.
unfoldable pub IsSorted : List Text → Type 0
unfolding Before
IsSorted [] = Unit
IsSorted (x ∷ xs) = Before x xs × IsSorted xs

le_text-total : (a b : Text) → le_text a b ≡ false → le_text b a ≡ true
unfolding le_text
le_text-total [] b h = ground arith
le_text-total (x ∷ xs) [] h = refl
le_text-total (x ∷ xs) (y ∷ ys) h = ground (arith, le_text-total xs ys)

Before-insert :
    (x y : Text) (ys : List Text) → le_text y x ≡ true → Before y ys → Before y (insert_sorted x ys)
unfolding Before insert_sorted
Before-insert x y [] h b = h
Before-insert x y (z ∷ zs) h b = elim (Bool-cases (le_text x z)) [
  | inl e ↦ rw (e) h
  | inr e ↦ rw (e) b
]

insert_sorted-IsSorted : (x : Text) (ys : List Text) → IsSorted ys → IsSorted (insert_sorted x ys)
unfolding IsSorted insert_sorted Before
insert_sorted-IsSorted x [] h = (tt, tt)
insert_sorted-IsSorted x (y ∷ ys) (b, h) = elim (Bool-cases (le_text x y)) [
  | inl e ↦ rw (e) (e, (b, h))
  | inr e ↦ rw (e) (Before-insert x y ys (le_text-total x y e) b, insert_sorted-IsSorted x ys h)
]

pub sort-IsSorted : (xs : List Text) → IsSorted (sort xs)
unfolding sort IsSorted
sort-IsSorted [] = tt
sort-IsSorted (x ∷ xs) = insert_sorted-IsSorted x (sort xs) (sort-IsSorted xs)

count-insert_sorted :
    (k x : Text) (ys : List Text) → count k (insert_sorted x ys) ≡ count k (x ∷ ys)
unfolding insert_sorted count
count-insert_sorted k x [] = refl
count-insert_sorted k x (y ∷ ys) = ground (arith, count-insert_sorted k x ys)

pub count-sort : (k : Text) (xs : List Text) → count k (sort xs) ≡ count k xs
unfolding sort count
count-sort k [] = refl
count-sort k (x ∷ xs) = ground (arith, count-insert_sorted k x (sort xs), count-sort k xs)

length-insert_sorted : (x : Text) (ys : List Text) → length (insert_sorted x ys) ≡ suc (length ys)
unfolding insert_sorted
length-insert_sorted x [] = refl
length-insert_sorted x (y ∷ ys) = ground (arith, length-insert_sorted x ys)

pub length-sort : (xs : List Text) → length (sort xs) ≡ length xs
unfolding sort
length-sort [] = refl
length-sort (x ∷ xs) = length-insert_sorted x (sort xs) ∙ ap suc (length-sort xs)
