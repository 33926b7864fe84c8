-- ===== src/Lib.antt =====
-- Verification library for the three Go systems of this repository: the Raft server (src/raft), the
-- MapReduce library (src/mapreduce) with its programs (src/main), and the gossip node
-- (project/gossip). They are independent; what the models share stands in Prelude.
--
-- Prelude. Go's values: natural numbers, `int` values that may be negative (Int), slices (Lists),
-- strings as lists of bytes (Texts), maps with string keys (Dicts), and results that may be a panic
-- (Faults: `none` is a panic), strconv's Itoa and Atoi (Decimal), and
-- predicates on the elements of a list (Every).
--
-- Raft (src/raft/raft.go, src/raft/persister.go). The record Raft of Raft/Defs is the struct Raft with
-- the persister in it. Each handler is a function from the state to the new state and its reply: a
-- stretch of code that runs under rf.mu.
--   Raft/Persist    Make, readPersist, persist, the timers, GetState, and the persister's accessors
--   Raft/Log        the accessors of the log, syncLocked, the search of AppendEntries
--   Raft/Vote       stepDownLocked, RequestVote, becomeLeaderLocked
--   Raft/Election   life, StartElection and the answers to its calls
--   Raft/Heartbeat  Heartbeat, StartHeartbeat and the answers to its calls
--   Raft/Append     AppendEntries
--   Raft/Commit     tryAdvanceCommitLocked
--   Raft/Replicate  replicateTo: a round before the call, a round after it; Loop has the whole loop
--   Raft/Client     Start and the applier
--   Raft/Server     the server under events in any order (a step relation on Raft)
--   Raft/Cluster    several servers, their vote requests, crashes and restarts (a step relation)
--   Raft/Replicas   the same with the messages of AppendEntries (a step relation); its Logs and Fair have
--                   the invariant: a book for each term, which is the log of the term's leader
--   Raft/Valid, Raft/Durable   the invariants of a server and their preservation by each handler
-- The children named Laws, Sync, Majority, Backtrack, Rounds, Progress, Converge, Runs and Votes hold
-- proofs, and so do those of Raft/Cluster and Raft/Replicas. In a cluster a call of RequestVote runs
-- its handler at most once, and all other messages may hold anything. In Raft/Replicas a message of
-- AppendEntries is one that a leader sent and an answer to it one that a server gave; both stay
-- deliverable for ever.
-- Elsewhere the answers may hold anything that fits the server (Fits in Raft/Server).
-- The network library, the gob encoder, the clock and the random numbers are parameters (World and
-- Gob in Raft/Defs). A call gives a reply or none, and the events of a server come in any order. The
-- loop of replicateTo runs on fuel, one unit for each round; as many rounds as the first next index
-- are enough. The loops over a log's indices are structural. A round of applier, up to its send on the
-- channel, is one event (apply_one); apply_all is its rounds with no other event between them. Of a round
-- of life only the choice is modelled (life_action). Kill, which is empty, and the printing
-- of say are left out.
--
-- Gossip (project/gossip/pkg/gossip). Gossip/Defs has the types of msg.go, config.go, store.go and
-- node.go; Gossip/Store the operations of store.go, the log file being the list of its records; and
-- Gossip/Node those of node.go, each handler with the messages that it sends. Gossip/Store/Runs has
-- the store under any sequence of operations. Gossip/Requests has the handlers of http.go, and
-- Gossip/Network several nodes with the packets between them, under events in any order: a packet that
-- was sent may arrive never, once or more often. Gossip/Transport has the transport of transport.go with
-- the loop that reads its socket, and Gossip/Daemon the command project/gossip/cmd/gossipd/main.go. The
-- clock, rand.Perm, the order of a map's keys, strings.TrimSpace, net and encoding/json are
-- parameters. The loops of Start, which are goroutines with tickers, and ServeHTTP are not modelled.
-- Gossip/Network hands over messages, not their bytes.
-- Children named Runs, Deliveries, Kept, Known, Receive, Picks, Tick, Exchange, Sound, Origin, Total,
-- Spread, Fresh, Delivery and Seeds hold proofs.
--
-- MapReduce (src/mapreduce). Tasks work on a file system (Files in MapReduce/Defs) that holds plain
-- texts and files of JSON records, the latter as lists of records; a disk does not fail.
--   MapReduce/Map     doMap (common_map.go)
--   MapReduce/Reduce  doReduce (common_reduce.go)
--   MapReduce/Worker  DoTask, Shutdown and the loop of RunWorker (worker.go), under events in any order
--   MapReduce/Master  merge and CleanupFiles (master_splitmerge.go), Sequential (master.go)
--   MapReduce/Schedule  schedule (schedule.go), Register, killWorkers and Distributed (master.go)
--   MapReduce/Names   the names of the files; MapReduce/Phase  tasks in any order, and as often
-- The job's two functions are parameters, and `none` is a panic or log.Fatal. A phase of schedule is a
-- sequence of events, in which each goroutine takes a worker, calls it, and is done or tries again; a
-- call may fail before or after its worker ran the task, and a task that runs is one step. Children
-- named Partition, Overwrite, Grouping, Sorting, Jobs, Partitions, Merging, Report, Maps, Reduces,
-- InOrder, Refines, Finishes, Distributed, Exits and Waits hold proofs. Not modelled are
-- master_rpc.go, the calls of net/rpc, and newMaster and Wait, which make and read the channels.
--
-- Programs (src/main). Programs/WordCount and Programs/InvertedIndex have mapF and reduceF of wc.go and
-- ii.go, Programs/Words the splitting into words, and Programs/Main the main functions. The runes of a
-- string and unicode.IsLetter are parameters.
--
-- The files named Samples hold concrete values and the theorems at them.
--
-- Not modelled at all: src/labrpc (a simulated network that raft.go calls), src/raft/config.go and the
-- tests, and the commands of src/main whose packages are not in the repository.
pub mod Prelude
pub mod Raft
pub mod Gossip
pub mod MapReduce
pub mod Programs
