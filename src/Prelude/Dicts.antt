-- ===== src/Prelude/Dicts.antt =====
-- A Go map with string keys: an association list in the order of the first insertions.
use mathlib.Core.Path.{◌≡◌, refl, sym, subst, ◌∙◌}
use mathlib.Core.Bool.{Bool, true, false}
use mathlib.Core.Option.{Option, none, some, some-injective}
use mathlib.Core.List.{List, [], ◌∷◌, ◌++◌}
use native.Mathlib.Omega.{arith}
use cs.Prelude.Tests.{if◌then◌else◌}
use cs.Prelude.Texts.{Text, ◌=ᵗ◌, =ᵗ_iff, contains}

abbrev pub Dict {ℓ} : Type ℓ → Type ℓ
Dict V = List (Text × V)

module _ {ℓ} {V : Type ℓ} where
  -- v, ok := d[k]
  unfoldable pub lookup : Text → Dict V → Option V
  lookup k [] = none
  lookup k ((j, v) ∷ d) = if j =ᵗ k then some v else lookup k d

  -- d[k] = v
  unfoldable pub insert : Text → V → Dict V → Dict V
  insert k v [] = (k, v) ∷ []
  insert k v ((j, w) ∷ d) = if j =ᵗ k then (j, v) ∷ d else (j, w) ∷ insert k v d

  unfoldable pub keys : Dict V → List Text
  keys [] = []
  keys ((k, v) ∷ d) = k ∷ keys d

  unfoldable pub has : Text → Dict V → Bool
  has k d = elim (lookup k d) [ none ↦ false | some v ↦ true ]

  pub lookup-insert :
      (k j : Text) (v : V) (d : Dict V)
      → lookup j (insert k v d) ≡ (if k =ᵗ j then some v else lookup j d)
  unfolding lookup insert
  lookup-insert k j v [] = refl
  lookup-insert k j v ((i, w) ∷ d) =
      ground (arith, =ᵗ_iff k j, =ᵗ_iff i k, =ᵗ_iff i j, lookup-insert k j v d)

  -- A new key goes to the end, and an old one stays where it is.
  pub keys-insert :
      (k : Text) (v : V) (d : Dict V)
      → keys (insert k v d) ≡ (if has k d then keys d else keys d ++ k ∷ [])
  unfolding keys insert has lookup
  keys-insert k v [] = refl
  keys-insert k v ((i, w) ∷ d) = ground (arith, keys-insert k v d)

  pub contains-keys : (k : Text) (d : Dict V) → contains (keys d) k ≡ has k d
  unfolding keys has lookup contains
  contains-keys k [] = refl
  contains-keys k ((i, w) ∷ d) = ground (arith, contains-keys k d)

  pub has-lookup : (k : Text) (d : Dict V) {v : V} → lookup k d ≡ some v → has k d ≡ true
  unfolding has
  has-lookup k d e = ground arith

  pub not_has-lookup : (k : Text) (d : Dict V) → has k d ≡ false → lookup k d ≡ none
  unfolding has
  not_has-lookup k d e = ground arith

module _ {V : Type 0} where
  -- Q holds of every key of the map and its value.
  abbrev pub AllEntries : (Text → V → Type 0) → Dict V → Type 0
  AllEntries Q d = (k : Text) (v : V) → lookup k d ≡ some v → Q k v

  lookup-if :
      (Q : V → Type 0) (b : Bool) (v w : V) (o : Option V)
      → (b ≡ true → Q v)
      → (o ≡ some w → Q w)
      → (if b then some v else o) ≡ some w
      → Q w
  lookup-if Q true v w o q h e = subst Q (some-injective v w e) (q refl)
  lookup-if Q false v w o q h e = h e

  pub AllEntries-insert :
      (Q : Text → V → Type 0) (k : Text) (v : V) (d : Dict V)
      → Q k v
      → AllEntries Q d
      → AllEntries Q (insert k v d)
  AllEntries-insert Q k v d q h j w e =
      lookup-if (Q j) (k =ᵗ j) v w (lookup j d) (λ same. subst (λ i. Q i v) ((=ᵗ_iff k j).0 same) q)
        (h j w) (sym (lookup-insert k j v d) ∙ e)
