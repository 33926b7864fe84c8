-- ===== src/MapReduce/Defs.antt =====
-- src/mapreduce/common.go and the file system that the tasks share.
use Prim.Native.Nat.{bit_xor}
use cs.Prelude.Decimal.{itoa}
use cs.Prelude.{ℕ, ◌*◌, ◌%◌, ◌^◌, List, [], ◌∷◌, ◌++◌, Option, none, some, Text}
use cs.Prelude.Dicts.{Dict}

pub record KeyValue : Type 0 where
  pub key : Text
  pub value : Text

-- ihash: hash/fnv's 32-bit FNV-1a.
unfoldable pub fnv : ℕ → Text → ℕ
fnv h [] = h
fnv h (c ∷ s) = fnv (bit_xor h c * 16777619 % 2 ^ 32) s

unfoldable pub ihash : Text → ℕ
unfolding fnv
ihash s = fnv 2166136261 s

-- The files by name: those of plain text, and those that a JSON encoder wrote, as lists of records.
-- A name is used for one kind of file, and a file can be created.
pub record Files : Type 0 where
  pub plain : Dict Text
  pub records : Dict (List KeyValue)

-- "mrtmp."
abbrev pub prefix : Text
prefix = 109 ∷ 114 ∷ 116 ∷ 109 ∷ 112 ∷ 46 ∷ []

-- "-"
abbrev pub dash : Text
dash = 45 ∷ []

-- "-res-"
abbrev pub res : Text
res = 45 ∷ 114 ∷ 101 ∷ 115 ∷ 45 ∷ []

unfoldable pub reduce_name : Text → (map_task reduce_task : ℕ) → Text
reduce_name job_name map_task reduce_task =
    prefix ++ job_name ++ dash ++ itoa map_task ++ dash ++ itoa reduce_task

unfoldable pub merge_name : Text → (reduce_task : ℕ) → Text
merge_name job_name reduce_task = prefix ++ job_name ++ res ++ itoa reduce_task

-- The zero value, nil or "", where a map has no key.
abbrev pub or_empty {ℓ} : {A : Type ℓ} → Option (List A) → List A
or_empty none = []
or_empty (some xs) = xs
