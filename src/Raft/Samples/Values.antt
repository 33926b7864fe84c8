-- ===== src/Raft/Samples/Values.antt =====
-- A concrete encoding and concrete servers, for the tests of the modules about src/raft.
use cs.Prelude.{ℕ, zero, suc, ◌≡◌, refl, ℤ, pos, negsuc, List, [], ◌∷◌, Option, none, some, arith}
use cs.Raft.Defs.{
  LogEntry, Persister, Raft, leader, candidate, follower, World, Gob, RequestVoteArgs,
  AppendEntriesArgs,
}
use cs.Raft.Persist.Durable.{GobLaws}

unfoldable pub encode_log : List (LogEntry ℕ) → List ℕ
encode_log [] = []
encode_log (e ∷ es) = e.term ∷ elim e.command [ none ↦ 0 | some c ↦ suc c ] ∷ encode_log es

unfoldable pub encode_int : ℤ → List ℕ → List ℕ
encode_int (pos n) rest = 0 ∷ n ∷ rest
encode_int (negsuc n) rest = 1 ∷ n ∷ rest

command_of : ℕ → Option ℕ
command_of zero = none
command_of (suc c) = some c

decode_log : List ℕ → List (LogEntry ℕ)
decode_log [] = []
decode_log (t ∷ []) = []
decode_log (t ∷ c ∷ rest) = record { term = t; command = command_of c } ∷ decode_log rest

int_of : ℕ → ℕ → ℤ
int_of zero n = pos n
int_of (suc k) n = negsuc n

unfoldable pub decode_bytes :
    List ℕ → Option (record { term : ℕ; voted_for : ℤ; log : List (LogEntry ℕ) })
unfolding int_of decode_log command_of
decode_bytes (t ∷ s ∷ n ∷ rest) =
    some (record { term = t; voted_for = int_of s n; log = decode_log rest })
decode_bytes _ = none

abbrev pub sample_gob : Gob ℕ
sample_gob = record { encode = λ t v log. t ∷ encode_int v (encode_log log); decode = decode_bytes }

command_back : (o : Option ℕ) → command_of (elim o [ none ↦ 0 | some c ↦ suc c ]) ≡ o
unfolding command_of
command_back none = refl
command_back (some c) = refl

decode_log-encode_log : (log : List (LogEntry ℕ)) → decode_log (encode_log log) ≡ log
unfolding decode_log encode_log
decode_log-encode_log [] = refl
decode_log-encode_log (e ∷ es) = ground (arith, decode_log-encode_log es, command_back e.command)

decode_encode :
    (t : ℕ) (v : ℤ) (log : List (LogEntry ℕ))
    → sample_gob.decode (sample_gob.encode t v log)
      ≡ some (record { term = t; voted_for = v; log = log })
unfolding decode_bytes encode_int int_of
decode_encode t (pos n) log = ground (arith, decode_log-encode_log log)
decode_encode t (negsuc n) log = ground (arith, decode_log-encode_log log)

pub sample_laws : GobLaws sample_gob
sample_laws = record { decode_encode = decode_encode; encode_nonempty = λ t v log e. cc }

abbrev pub sample_world : World
sample_world = record { now = 1000; int63n = λ n. 7 }

-- The least number each time.
abbrev pub low_world : World
low_world = record { now = 1000; int63n = λ n. 0 }

abbrev pub entry : ℕ → ℕ → LogEntry ℕ
entry t c = record { term = t; command = some c }

abbrev pub dummy : LogEntry ℕ
dummy = record { term = 0; command = none }

abbrev pub no_bytes : Persister
no_bytes = record { raftstate = []; snapshot = [] }

-- A follower of three servers, in term 2, that has voted for server 1.
abbrev pub voter : Raft ℕ
voter = record {
  peers = 3;
  persister = no_bytes;
  me = 0;
  state = follower;
  term = 2;
  voted_for = pos 1;
  election_timeout = 0;
  last_heartbeat = 0;
  vote_count = 0;
  log = dummy ∷ entry 1 10 ∷ entry 1 11 ∷ [];
  commit_index = 2;
  last_applied = 0;
  next_index = [];
  match_index = [];
}

-- A leader of three servers in term 3 with three entries, about to try server 0 with its last one.
abbrev pub office : Raft ℕ
office = record voter {
  me = 1;
  state = leader;
  term = 3;
  log = dummy ∷ entry 1 10 ∷ entry 2 20 ∷ entry 3 30 ∷ [];
  commit_index = 1;
  next_index = 3 ∷ 4 ∷ 4 ∷ [];
  match_index = 0 ∷ 3 ∷ 3 ∷ [];
}

abbrev pub runner : Raft ℕ
runner = record voter { me = 1; state = candidate; vote_count = 1 }

abbrev pub ask : ℕ → ℕ → RequestVoteArgs
ask term id = record {
  election_term = term;
  candidate_id = id;
  last_log_index = 9;
  last_log_term = 5;
}

-- An AppendEntries of term 2 that was overtaken: it carries only the first entry.
abbrev pub late : AppendEntriesArgs ℕ
late = record {
  term = 2;
  leader_id = 1;
  prev_log_index = 0;
  prev_log_term = pos 0;
  entries = entry 1 10 ∷ [];
  leader_commit = 9;
}
