-- ===== src/Raft/Persist/Durable.antt =====
-- What a restart recovers: Make on the persister of a server of src/raft/raft.go gives back its
-- term, its vote and its log.
use cs.Prelude.{ℕ, ◌<◌, ◌≡◌, ◌≢◌, refl, ◌∙◌, ℤ, List, [], ◌∷◌, some, arith, length}
use cs.Raft.Defs.{LogEntry, Persister, Raft, follower, World, Gob}
use cs.Raft.Persist.{recovered_log, persist, read_persist, fresh, make}

-- What must survive a crash.
pub record Hard (C : Type 0) : Type 0 where
  pub term : ℕ
  pub voted_for : ℤ
  pub log : List (LogEntry C)

abbrev pub hard : {C : Type 0} → Raft C → Hard C
hard rf = record { term = rf.term; voted_for = rf.voted_for; log = rf.log }

-- Documented behaviour of encoding/gob: what was encoded is decoded, and an encoding is not empty.
pub record GobLaws {C : Type 0} (g : Gob C) : Type 0 where
  pub decode_encode :
      (t : ℕ) (v : ℤ) (log : List (LogEntry C))
      → g.decode (g.encode t v log) ≡ some (record { term = t; voted_for = v; log = log })
  pub encode_nonempty : (t : ℕ) (v : ℤ) (log : List (LogEntry C)) → g.encode t v log ≢ []

-- A server that is made again from the persister has the same term, vote and log.
abbrev pub IsDurable : {C : Type 0} → Gob C → Raft C → Type 0
IsDurable g rf = (w : World) → hard (make g w rf.peers rf.me rf.persister) ≡ hard rf

module _ {C : Type 0} (g : Gob C) (laws : GobLaws g) where
  read_persist-encode :
      (bytes : List ℕ) (t : ℕ) (v : ℤ) (log : List (LogEntry C)) (rf : Raft C)
      → g.encode t v log ≡ bytes
      → hard (read_persist g bytes rf) ≡ record { term = t; voted_for = v; log = recovered_log log }
  unfolding read_persist
  read_persist-encode [] t v log rf e = absurd (laws.encode_nonempty t v log e)
  read_persist-encode (b ∷ bs) t v log rf e = ground (arith, laws.decode_encode t v log)

  recovered_log-nonempty : (log : List (LogEntry C)) → 0 < length log → recovered_log log ≡ log
  unfolding recovered_log
  recovered_log-nonempty [] h = elim h [ ]
  recovered_log-nonempty (e ∷ es) h = refl

  -- persist makes the state durable.
  pub persist-IsDurable : (rf : Raft C) → 0 < length rf.log → IsDurable g (persist g rf)
  unfolding persist make
  persist-IsDurable rf h w =
      read_persist-encode (g.encode rf.term rf.voted_for rf.log) rf.term rf.voted_for rf.log
        (fresh w rf.peers rf.me
          (record rf.persister { raftstate = g.encode rf.term rf.voted_for rf.log }))
        refl
      ∙ rw (recovered_log-nonempty rf.log h)

-- Two restarts from one persister recover the same.
read_persist-hard :
    {C : Type 0} (g : Gob C) (bytes : List ℕ) (a b : Raft C)
    → hard a ≡ hard b
    → hard (read_persist g bytes a) ≡ hard (read_persist g bytes b)
unfolding read_persist
read_persist-hard g [] a b e = e
read_persist-hard g (x ∷ xs) a b e = ground arith

read_persist-keeps :
    {C : Type 0} (g : Gob C) (bytes : List ℕ) (a : Raft C)
    → ((read_persist g bytes a).peers ≡ a.peers)
      × ((read_persist g bytes a).me ≡ a.me)
      × ((read_persist g bytes a).persister ≡ a.persister)
unfolding read_persist
read_persist-keeps g [] a = (refl, refl, refl)
read_persist-keeps g (x ∷ xs) a = ground arith

pub make-IsDurable :
    {C : Type 0} (g : Gob C) (w : World) (peers me : ℕ) (ps : Persister)
    → IsDurable g (make g w peers me ps)
unfolding make
make-IsDurable g w peers me ps v =
    let k = read_persist-keeps g ps.raftstate (fresh w peers me ps) in
    rw (k.0, k.1, k.2)
      (read_persist-hard g ps.raftstate (fresh v peers me ps) (fresh w peers me ps) refl)

-- A server that is made is a follower, whatever it recovers.
read_persist-state :
    {C : Type 0} (g : Gob C) (bytes : List ℕ) (a : Raft C)
    → (read_persist g bytes a).state ≡ a.state
unfolding read_persist
read_persist-state g [] a = refl
read_persist-state g (x ∷ xs) a = ground arith

pub make-follower :
    {C : Type 0} (g : Gob C) (w : World) (peers me : ℕ) (ps : Persister)
    → ((make g w peers me ps).peers ≡ peers)
      × ((make g w peers me ps).me ≡ me)
      × ((make g w peers me ps).state ≡ follower)
unfolding make
make-follower g w peers me ps =
    let (p, m, _) = read_persist-keeps g ps.raftstate (fresh w peers me ps) in
    (p, m, read_persist-state g ps.raftstate (fresh w peers me ps))
