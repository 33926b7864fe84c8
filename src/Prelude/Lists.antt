-- ===== src/Prelude/Lists.antt =====
-- Lists measured and indexed by native numbers, under the library's names.
use Prim.Native.Nat.{ℕ, zero, suc, ◌+◌, ◌-◌, ◌≤◌, ◌<◌, min}
use mathlib.Core.Path.{◌≡◌, refl, ap}
use mathlib.Core.Logic.{◌≢◌}
use mathlib.Core.List.{List, [], ◌∷◌, ◌++◌, map}
use mathlib.Core.Option.{Option, none, some}
use native.Mathlib.Omega.{arith}
use cs.Prelude.Tests.{ltb, ◌==◌, if◌then◌else◌}

module _ {ℓ} {A : Type ℓ} where
  abbrev pub length : List A → ℕ
  length [] = 0
  length (x ∷ xs) = suc (length xs)

  abbrev pub get_elem? : List A → ℕ → Option A
  get_elem? [] i = none
  get_elem? (x ∷ xs) zero = some x
  get_elem? (x ∷ xs) (suc i) = get_elem? xs i

  -- A write out of bounds changes nothing; `store` is the checked one.
  abbrev pub set : List A → ℕ → A → List A
  set [] i v = []
  set (x ∷ xs) zero v = v ∷ xs
  set (x ∷ xs) (suc i) v = x ∷ set xs i v

  -- `xs[i] = v` in Go; `none` is the panic of an index out of range.
  abbrev pub store : List A → ℕ → A → Option (List A)
  store xs i v = if ltb i (length xs) then some (set xs i v) else none

  abbrev pub take : ℕ → List A → List A
  take zero xs = []
  take (suc n) [] = []
  take (suc n) (x ∷ xs) = x ∷ take n xs

  abbrev pub drop : ℕ → List A → List A
  drop zero xs = xs
  drop (suc n) [] = []
  drop (suc n) (x ∷ xs) = drop n xs

  abbrev pub replicate : ℕ → A → List A
  replicate zero a = []
  replicate (suc n) a = a ∷ replicate n a

module _ {ℓ} {A : Type ℓ} where
  pub length-append : (xs ys : List A) → length (xs ++ ys) ≡ length xs + length ys
  length-append [] ys = omega arith
  length-append (x ∷ xs) ys = omega (arith, length-append xs ys)

  pub length-take : (n : ℕ) (xs : List A) → length (take n xs) ≡ min n (length xs)
  length-take zero xs = omega arith
  length-take (suc n) [] = omega arith
  length-take (suc n) (x ∷ xs) = omega (arith, length-take n xs)

  pub length-drop : (n : ℕ) (xs : List A) → length (drop n xs) ≡ length xs - n
  length-drop zero xs = omega arith
  length-drop (suc n) [] = omega arith
  length-drop (suc n) (x ∷ xs) = omega (arith, length-drop n xs)

  pub length-replicate : (n : ℕ) (a : A) → length (replicate n a) ≡ n
  length-replicate zero a = refl
  length-replicate (suc n) a = ap suc (length-replicate n a)

  pub take-append-drop : (n : ℕ) (xs : List A) → take n xs ++ drop n xs ≡ xs
  take-append-drop zero xs = refl
  take-append-drop (suc n) [] = refl
  take-append-drop (suc n) (x ∷ xs) = ap (◌∷◌ x) (take-append-drop n xs)

  pub take-all : (n : ℕ) (xs : List A) → length xs ≤ n → take n xs ≡ xs
  take-all zero [] h = refl
  take-all zero (x ∷ xs) h = absurd (omega arith)
  take-all (suc n) [] h = refl
  take-all (suc n) (x ∷ xs) h = ap (◌∷◌ x) (take-all n xs (omega arith))

  pub get_elem?-lt : (xs : List A) (i : ℕ) → i < length xs → (a : A) × (get_elem? xs i ≡ some a)
  get_elem?-lt [] i h = elim h [ ]
  get_elem?-lt (x ∷ xs) zero h = (x, refl)
  get_elem?-lt (x ∷ xs) (suc i) h = get_elem?-lt xs i (omega arith)

  pub lt_of_get_elem? : (xs : List A) (i : ℕ) {a : A} → get_elem? xs i ≡ some a → i < length xs
  lt_of_get_elem? [] i h = ground arith
  lt_of_get_elem? (x ∷ xs) zero h = omega arith
  lt_of_get_elem? (x ∷ xs) (suc i) h = omega (arith, lt_of_get_elem? xs i h)

  pub get_elem?-eq_none : (xs : List A) (i : ℕ) → length xs ≤ i → get_elem? xs i ≡ none
  get_elem?-eq_none [] i h = refl
  get_elem?-eq_none (x ∷ xs) zero h = absurd (omega arith)
  get_elem?-eq_none (x ∷ xs) (suc i) h = get_elem?-eq_none xs i (omega arith)

  pub get_elem?-append_left :
      (xs ys : List A) (i : ℕ) → i < length xs → get_elem? (xs ++ ys) i ≡ get_elem? xs i
  get_elem?-append_left [] ys i h = elim h [ ]
  get_elem?-append_left (x ∷ xs) ys zero h = refl
  get_elem?-append_left (x ∷ xs) ys (suc i) h = get_elem?-append_left xs ys i (omega arith)

  pub get_elem?-suffix :
      (xs ys : List A) (i : ℕ) {y : A}
      → get_elem? ys i ≡ some y
      → (j : ℕ) × (get_elem? (xs ++ ys) j ≡ some y)
  get_elem?-suffix [] ys i e = (i, e)
  get_elem?-suffix (x ∷ xs) ys i e = let (j, q) = get_elem?-suffix xs ys i e in (suc j, q)

  pub get_elem?-take :
      (n : ℕ) (xs : List A) (i : ℕ) → i < n → get_elem? (take n xs) i ≡ get_elem? xs i
  get_elem?-take zero xs i h = elim h [ ]
  get_elem?-take (suc n) [] i h = refl
  get_elem?-take (suc n) (x ∷ xs) zero h = refl
  get_elem?-take (suc n) (x ∷ xs) (suc i) h = get_elem?-take n xs i (omega arith)

  pub length-set : (xs : List A) (i : ℕ) (v : A) → length (set xs i v) ≡ length xs
  length-set [] i v = refl
  length-set (x ∷ xs) zero v = refl
  length-set (x ∷ xs) (suc i) v = ap suc (length-set xs i v)

  pub get_elem?-set_self :
      (xs : List A) (i : ℕ) (v : A) → i < length xs → get_elem? (set xs i v) i ≡ some v
  get_elem?-set_self [] i v h = elim h [ ]
  get_elem?-set_self (x ∷ xs) zero v h = refl
  get_elem?-set_self (x ∷ xs) (suc i) v h = get_elem?-set_self xs i v (omega arith)

  pub get_elem?-set :
      (xs : List A) (i j : ℕ) (v : A) {x : A}
      → get_elem? xs i ≡ some x
      → get_elem? (set xs i v) j ≡ (if i == j then some v else get_elem? xs j)
  get_elem?-set [] i j v e = ground arith
  get_elem?-set (y ∷ xs) zero zero v e = refl
  get_elem?-set (y ∷ xs) zero (suc j) v e = ground arith
  get_elem?-set (y ∷ xs) (suc i) zero v e = ground arith
  get_elem?-set (y ∷ xs) (suc i) (suc j) v e = ground (arith, get_elem?-set xs i j v e)

  pub get_elem?-set_ne :
      (xs : List A) (i j : ℕ) (v : A) → i ≢ j → get_elem? (set xs i v) j ≡ get_elem? xs j
  get_elem?-set_ne [] i j v h = refl
  get_elem?-set_ne (x ∷ xs) zero zero v h = absurd (h refl)
  get_elem?-set_ne (x ∷ xs) zero (suc j) v h = refl
  get_elem?-set_ne (x ∷ xs) (suc i) zero v h = refl
  get_elem?-set_ne (x ∷ xs) (suc i) (suc j) v h = get_elem?-set_ne xs i j v (λ e. h (ap suc e))

  pub length-map {κ} : {B : Type κ} (xs : List A) (f : A → B) → length (map f xs) ≡ length xs
  length-map [] f = refl
  length-map (x ∷ xs) f = ap suc (length-map xs f)

pub get_elem?-map {ℓ κ} :
    {A : Type ℓ} {B : Type κ} (f : A → B) (xs : List A) (i : ℕ) {x : A}
    → get_elem? xs i ≡ some x
    → get_elem? (map f xs) i ≡ some (f x)
get_elem?-map f [] i e = ground arith
get_elem?-map f (x ∷ xs) zero e = ground arith
get_elem?-map f (x ∷ xs) (suc i) e = get_elem?-map f xs i e
