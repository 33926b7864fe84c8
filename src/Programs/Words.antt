-- ===== src/Programs/Words.antt =====
-- strings.FieldsFunc with !unicode.IsLetter, as src/main/wc.go and src/main/ii.go call it.
use cs.Prelude.{Bool, List, [], ◌∷◌, ◌++◌, Text, if◌then◌else◌}

-- A range over a string gives its runes: `runes` has the bytes of each, and `is_letter` is
-- unicode.IsLetter of the rune that bytes encode.
pub record Unicode : Type 0 where
  pub runes : Text → List Text
  pub is_letter : Text → Bool

-- A word that has ended; an empty one is none.
unfoldable pub closed : Text → List Text → List Text
closed [] ws = ws
closed (c ∷ w) ws = (c ∷ w) ∷ ws

-- The words of the runes that are left, where `word` is read so far.
unfoldable pub fields : (Text → Bool) → List Text → Text → List Text
unfolding closed
fields is_letter [] word = closed word []
fields is_letter (r ∷ rs) word =
    let more = fields is_letter rs (word ++ r) in
    let next = fields is_letter rs [] in if is_letter r then more else closed word next

unfoldable pub words : Unicode → Text → List Text
unfolding fields
words u s = fields u.is_letter (u.runes s) []
