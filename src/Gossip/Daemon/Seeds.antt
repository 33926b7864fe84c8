-- ===== src/Gossip/Daemon/Seeds.antt =====
-- The seed addresses that project/gossip/cmd/gossipd/main.go reads from its flag.
use cs.Prelude.{ℕ, ◌≡◌, ◌≢◌, refl, ap, ◌∙◌, false, List, [], ◌∷◌, ◌++◌, Text, ◌==◌, arith}
use cs.Prelude.Every.{Every, Every-mono}
use cs.Gossip.Daemon.{comma, split, trimmed, split_csv}

-- The texts with commas between them.
unfoldable pub comma_separated : List Text → Text
comma_separated [] = []
comma_separated (p ∷ []) = p
comma_separated (p ∷ q ∷ ps) = p ++ comma ∷ comma_separated (q ∷ ps)

-- The address is not empty, has no comma, and no white space around it.
pub record IsSeed (trim_space : Text → Text) (p : Text) : Type 0 where
  pub nonempty : p ≢ []
  pub no_comma : Every (λ (b : ℕ). (b == comma) ≡ false) p
  pub trim : trim_space p ≡ p

split-word : (p : Text) → Every (λ (b : ℕ). (b == comma) ≡ false) p → split p ≡ p ∷ []
unfolding split
split-word [] h = refl
split-word (b ∷ p) h = ground (arith, h.0, split-word p h.1)

split-append :
    (p rest : Text)
    → Every (λ (b : ℕ). (b == comma) ≡ false) p
    → split (p ++ comma ∷ rest) ≡ p ∷ split rest
unfolding split
split-append [] rest h = refl
split-append (b ∷ p) rest h = ground (arith, h.0, split-append p rest h.1)

split-comma_separated :
    (p : Text) (ps : List Text)
    → Every (Every (λ (b : ℕ). (b == comma) ≡ false)) (p ∷ ps)
    → split (comma_separated (p ∷ ps)) ≡ p ∷ ps
unfolding comma_separated
split-comma_separated p [] h = split-word p h.0
split-comma_separated p (q ∷ ps) h =
    split-append p (comma_separated (q ∷ ps)) h.0 ∙ ap (◌∷◌ p) (split-comma_separated q ps h.1)

module _ (trim_space : Text → Text) where
  trimmed-seeds : (ps : List Text) → Every (IsSeed trim_space) ps → trimmed trim_space ps ≡ ps
  unfolding trimmed
  trimmed-seeds [] h = refl
  trimmed-seeds ([] ∷ ps) h = absurd (h.0.nonempty refl)
  trimmed-seeds ((b ∷ p) ∷ ps) h = rw (h.0.trim, trimmed-seeds ps h.1) refl

  split_csv-nonempty : (s : Text) → s ≢ [] → split_csv trim_space s ≡ trimmed trim_space (split s)
  unfolding split_csv
  split_csv-nonempty [] h = absurd (h refl)
  split_csv-nonempty (b ∷ s) h = refl

  comma_separated-nonempty : (p : Text) (ps : List Text) → p ≢ [] → comma_separated (p ∷ ps) ≢ []
  unfolding comma_separated
  comma_separated-nonempty [] ps h = absurd (h refl)
  comma_separated-nonempty (b ∷ p) [] h = λ e. cc
  comma_separated-nonempty (b ∷ p) (q ∷ ps) h = λ e. cc

  -- The flag that holds addresses with commas between them is read as these addresses, where none is
  -- empty, has a comma, or is changed by TrimSpace.
  pub split_csv-comma_separated :
      (ps : List Text)
      → Every (IsSeed trim_space) ps
      → split_csv trim_space (comma_separated ps) ≡ ps
  unfolding split_csv comma_separated
  split_csv-comma_separated [] h = refl
  split_csv-comma_separated (p ∷ ps) h =
      split_csv-nonempty (comma_separated (p ∷ ps)) (comma_separated-nonempty p ps h.0.nonempty)
      ∙ ap (trimmed trim_space)
          (split-comma_separated p ps (Every-mono _ _ (p ∷ ps) (λ x k. k.no_comma) h))
      ∙ trimmed-seeds (p ∷ ps) h
