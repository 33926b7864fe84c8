-- ===== src/Prelude/Every.antt =====
-- A predicate on every element, or on some element, of a list.
use Prim.Native.Nat.{ℕ, zero, suc}
use mathlib.Core.Path.{◌≡◌, subst}
use mathlib.Core.Logic.{◌⊎◌, inl, inr}
use mathlib.Core.Option.{some, some-injective}
use mathlib.Core.List.{List, [], ◌∷◌, ◌++◌, map}
use native.Mathlib.Omega.{arith}
use cs.Prelude.Lists.{get_elem?, set, take}

abbrev pub Every {ℓ} : {A : Type ℓ} → (A → Type 0) → List A → Type 0
Every P [] = Unit
Every P (x ∷ xs) = P x × Every P xs

abbrev pub Exists {ℓ} : {A : Type ℓ} → (A → Type 0) → List A → Type 0
Exists P [] = ⊥
Exists P (x ∷ xs) = P x ⊎ Exists P xs

module _ {ℓ} {A : Type ℓ} (P : A → Type 0) where
  pub Every-append : (xs ys : List A) → Every P xs → Every P ys → Every P (xs ++ ys)
  Every-append [] ys h k = k
  Every-append (x ∷ xs) ys h k = (h.0, Every-append xs ys h.1 k)

  pub Every-get : (xs : List A) (i : ℕ) {x : A} → Every P xs → get_elem? xs i ≡ some x → P x
  Every-get [] i h e = ground arith
  Every-get (y ∷ ys) zero h e = subst P (some-injective _ _ e) h.0
  Every-get (y ∷ ys) (suc i) h e = Every-get ys i h.1 e

pub Every-set {ℓ} :
    {A : Type ℓ} (P : A → Type 0) (xs : List A) (i : ℕ) (v : A)
    → P v
    → Every P xs
    → Every P (set xs i v)
Every-set P [] i v p h = tt
Every-set P (x ∷ xs) zero v p h = (p, h.1)
Every-set P (x ∷ xs) (suc i) v p h = (h.0, Every-set P xs i v p h.1)

pub Every-mono {ℓ} :
    {A : Type ℓ} (P Q : A → Type 0) (xs : List A) → ((x : A) → P x → Q x) → Every P xs → Every Q xs
Every-mono P Q [] f h = tt
Every-mono P Q (x ∷ xs) f h = (f x h.0, Every-mono P Q xs f h.1)

pub Every-take {ℓ} :
    {A : Type ℓ} (P : A → Type 0) (n : ℕ) (xs : List A) → Every P xs → Every P (take n xs)
Every-take P zero xs h = tt
Every-take P (suc n) [] h = tt
Every-take P (suc n) (x ∷ xs) h = (h.0, Every-take P n xs h.1)

pub Every-map {ℓ κ} :
    {A : Type ℓ} {B : Type κ} (P : B → Type 0) (f : A → B) (xs : List A)
    → Every (λ x. P (f x)) xs
    → Every P (map f xs)
Every-map P f [] h = tt
Every-map P f (x ∷ xs) h = (h.0, Every-map P f xs h.1)

-- What every witness in the list gives, each element gives.
pub Every-Exists {ℓ} :
    {A : Type ℓ} {B : Type 0} (Q : A → B → Type 0) (P : B → Type 0) (xs : List A)
    → ((b : B) → Exists (λ x. Q x b) xs → P b)
    → Every (λ x. (b : B) → Q x b → P b) xs
Every-Exists Q P [] h = tt
Every-Exists Q P (x ∷ xs) h = ((λ b q. h b (inl q)), Every-Exists Q P xs (λ b s. h b (inr s)))
