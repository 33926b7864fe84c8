-- ===== src/Programs/Main.antt =====
-- The main functions of src/main/wc.go and src/main/ii.go: what they start for their arguments.
use cs.Prelude.{ℕ, List, [], ◌∷◌, Text, ◌=ᵗ◌, if◌then◌else◌}

-- "master"
abbrev pub master_arg : Text
master_arg = 109 ∷ 97 ∷ 115 ∷ 116 ∷ 101 ∷ 114 ∷ []

-- "sequential"
abbrev pub sequential_arg : Text
sequential_arg = 115 ∷ 101 ∷ 113 ∷ 117 ∷ 101 ∷ 110 ∷ 116 ∷ 105 ∷ 97 ∷ 108 ∷ []

pub data Action : Type 0 where
  usage : Action
  runs_sequential : (job_name : Text) → (files : List Text) → (n_reduce : ℕ) → Action
  runs_distributed :
      (job_name : Text) → (files : List Text) → (n_reduce : ℕ) → (address : Text) → Action
  runs_worker : (master_address me : Text) → (n_rpc : ℕ) → Action

-- By os.Args; the jobs have three reduce tasks, and a worker serves 100 calls.
unfoldable pub main_of : (job_name : Text) → (args : List Text) → Action
main_of job_name (program ∷ mode ∷ second ∷ third ∷ rest) =
    if mode =ᵗ master_arg
    then (if second =ᵗ sequential_arg
        then runs_sequential job_name (third ∷ rest) 3
        else runs_distributed job_name (third ∷ rest) 3 second)
    else runs_worker second third 100
main_of job_name args = usage

-- "wcseq"
unfoldable pub word_count_main : List Text → Action
unfolding main_of
word_count_main = main_of (119 ∷ 99 ∷ 115 ∷ 101 ∷ 113 ∷ [])

-- "iiseq"
unfoldable pub inverted_index_main : List Text → Action
unfolding main_of
inverted_index_main = main_of (105 ∷ 105 ∷ 115 ∷ 101 ∷ 113 ∷ [])
