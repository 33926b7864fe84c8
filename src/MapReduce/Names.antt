-- ===== src/MapReduce/Names.antt =====
-- The file names of src/mapreduce/common.go: no two tasks use the same one.
use cs.Prelude.{◌≡◌, ◌≢◌, sym, ◌∙◌, ℕ, [], ◌∷◌, ◌++◌, Text, append-cancel, arith}
use cs.Prelude.Decimal.{itoa, itoa-injective, AllDigits, itoa-AllDigits}
use mathlib.Core.List.{append_assoc}
use cs.MapReduce.Defs.{prefix, dash, res, reduce_name, merge_name}

-- Digits end where the first dash stands.
digits-dash :
    (xs ys a b : Text)
    → AllDigits xs
    → AllDigits ys
    → xs ++ 45 ∷ a ≡ ys ++ 45 ∷ b
    → (xs ≡ ys) × (a ≡ b)
unfolding AllDigits
digits-dash [] [] a b h k e = ground arith
digits-dash [] (y ∷ ys) a b h k e = absurd (ground arith)
digits-dash (x ∷ xs) [] a b h k e = absurd (ground arith)
digits-dash (x ∷ xs) (y ∷ ys) a b (_, _, h) (_, _, k) e =
    let (p, q) = digits-dash xs ys a b h k (ground arith) in (ground arith, q)

-- A number, then a dash, is not "res-".
digits-res : (xs a b : Text) → AllDigits xs → xs ++ 45 ∷ a ≢ 114 ∷ b
unfolding AllDigits
digits-res [] a b h e = ground arith
digits-res (x ∷ xs) a b h e = ground arith

module _ (job : Text) where
  reduce_name_split :
      (m r : ℕ) → reduce_name job m r ≡ prefix ++ job ++ dash ++ (itoa m ++ 45 ∷ itoa r)
  unfolding reduce_name
  reduce_name_split m r =
      append_assoc (prefix ++ job ++ dash ++ itoa m) dash (itoa r)
      ∙ append_assoc (prefix ++ job ++ dash) (itoa m) (45 ∷ itoa r)

  pub reduce_name-injective :
      (m r m' r' : ℕ) → reduce_name job m r ≡ reduce_name job m' r' → (m ≡ m') × (r ≡ r')
  reduce_name-injective m r m' r' e =
      let tail =
        append-cancel (prefix ++ job ++ dash) _ _
          (sym (reduce_name_split m r) ∙ e ∙ reduce_name_split m' r') in
      let (p, q) = digits-dash _ _ _ _ (itoa-AllDigits m) (itoa-AllDigits m') tail in
      (itoa-injective m m' p, itoa-injective r r' q)

  pub merge_name-injective : (r r' : ℕ) → merge_name job r ≡ merge_name job r' → r ≡ r'
  unfolding merge_name
  merge_name-injective r r' e = itoa-injective r r' (append-cancel (prefix ++ job ++ res) _ _ e)

  pub reduce_name-ne-merge_name : (m r i : ℕ) → reduce_name job m r ≢ merge_name job i
  unfolding merge_name
  reduce_name-ne-merge_name m r i e =
      let tail = append-cancel (prefix ++ job ++ dash) _ (114 ∷ 101 ∷ 115 ∷ 45 ∷ itoa i) (
        sym (reduce_name_split m r)
        ∙ e
        ∙ append_assoc (prefix ++ job) res (itoa i)
        ∙ sym (append_assoc (prefix ++ job) dash (114 ∷ 101 ∷ 115 ∷ 45 ∷ itoa i))) in
      digits-res (itoa m) (itoa r) _ (itoa-AllDigits m) tail
