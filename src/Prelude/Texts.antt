-- ===== src/Prelude/Texts.antt =====
-- Go's strings as lists of bytes, with equality, and lists of them as bags.
use Prim.Native.Nat.{ℕ, suc, ◌+◌}
use mathlib.Core.Path.{◌≡◌, refl}
use mathlib.Core.Logic.{◌↔◌}
use mathlib.Core.Bool.{Bool, true, false, ◌&&◌}
use mathlib.Core.List.{List, [], ◌∷◌, ◌++◌}
use native.Mathlib.Omega.{arith}
use cs.Prelude.Tests.{◌==◌, if◌then◌else◌}

abbrev pub Text : Type 0
Text = List ℕ

infix 50 ◌=ᵗ◌
unfoldable pub ◌=ᵗ◌ : Text → Text → Bool
[] =ᵗ [] = true
[] =ᵗ (y ∷ ys) = false
(x ∷ xs) =ᵗ [] = false
(x ∷ xs) =ᵗ (y ∷ ys) = x == y && xs =ᵗ ys

pub =ᵗ_iff : (s t : Text) → ((s =ᵗ t) ≡ true) ↔ (s ≡ t)
unfolding ◌=ᵗ◌
=ᵗ_iff [] [] = (λ h. refl, λ h. refl)
=ᵗ_iff [] (y ∷ ys) = (λ h. cc, λ h. cc)
=ᵗ_iff (x ∷ xs) [] = (λ h. cc, λ h. cc)
=ᵗ_iff (x ∷ xs) (y ∷ ys) = (λ h. ground (arith, =ᵗ_iff xs ys), λ h. ground (arith, =ᵗ_iff xs ys))

pub =ᵗ_refl : (s : Text) → (s =ᵗ s) ≡ true
=ᵗ_refl s = (=ᵗ_iff s s).1 refl

-- How often a text stands in a list.
unfoldable pub count : Text → List Text → ℕ
count x [] = 0
count x (y ∷ ys) = let rest = count x ys in if y =ᵗ x then suc rest else rest

unfoldable pub contains : List Text → Text → Bool
contains [] x = false
contains (y ∷ ys) x = let rest = contains ys x in if y =ᵗ x then true else rest

pub count-append : (x : Text) (xs ys : List Text) → count x (xs ++ ys) ≡ count x xs + count x ys
unfolding count
count-append x [] ys = omega arith
count-append x (y ∷ xs) ys = ground (arith, count-append x xs ys)

pub contains-count : (xs : List Text) (x : Text) → (contains xs x ≡ false) ↔ (count x xs ≡ 0)
unfolding contains count
contains-count [] x = (λ h. refl, λ h. refl)
contains-count (y ∷ ys) x =
    (λ h. ground (arith, contains-count ys x), λ h. ground (arith, contains-count ys x))

pub contains-append :
    (xs ys : List Text) (x : Text)
    → contains (xs ++ ys) x ≡ (if contains xs x then true else contains ys x)
unfolding contains
contains-append [] ys x = refl
contains-append (y ∷ xs) ys x = ground (arith, contains-append xs ys x)

pub append-cancel : (xs ys zs : Text) → xs ++ ys ≡ xs ++ zs → ys ≡ zs
append-cancel [] ys zs h = h
append-cancel (x ∷ xs) ys zs h = append-cancel xs ys zs (ground arith)
