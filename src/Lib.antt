-- ===== src/Lib.antt =====
-- Raftra: a key-value store replicated with the Raft consensus algorithm (github.com/shantanu-1607/raftra).
--
-- The program. A node (internal/raft) keeps a log of commands on a storage backend
-- (internal/storage), agrees with its peers on the order of the log by Raft, and applies the
-- committed commands to an in-memory dictionary (internal/kvstore). Messages go by gRPC
-- (proto/raft.proto), and clients come through gRPC or an HTTP gateway (internal/transport).
--
-- The modules, and the code that they model:
--   Common, GoMap         lists and tests over native numbers; Go maps as association lists
--   Kvstore               internal/kvstore: Command, KVStore.{Apply, Get, Size}; its dictionary view
--                         is in Kvstore/Spec.antt, its size in Kvstore/Size.antt
--   Proto                 proto/raft.proto: the messages of RaftService
--   Storage               internal/storage/persistence.go: StorageBackend as a record of operations
--                         (an instance argument of the node), IsLawful as what the node relies on;
--                         Storage/Memory.antt is memory_store.go and Storage/Memory/Laws.antt its laws
--   Storage/Bbolt         internal/storage/bbolt_store.go, over bbolt as Storage/Bbolt/Pairs.antt states
--                         it; Keys and Order are about the keys, Rows and Update about the buckets, and
--                         Refines, Writes, Reads and Open compare the store with the in-memory one
--   Metrics               internal/metrics/metrics.go: the gauges that the node sets
--   Raft/Node, Timer      internal/raft/state.go, config.go, raft.go: RaftNode, NewRaftNode, the timers
--   Raft/Term             election.go: checkTerm; Aborts is about the clients that wait
--   Raft/Election         election.go: startElection, campaignLocked, becomeLeader; each goroutine's
--                         answer is a method on_pre_vote_response or on_vote_response
--   Raft/Vote             election.go: HandleRequestVote, handlePreVoteLocked,
--                         candidateLogUpToDateLocked
--   Raft/Append           election.go: HandleAppendEntries
--   Raft/Send             replication.go: broadcastAppendEntriesLocked, sendAppendEntriesToPeerLocked
--   Raft/Commit, Apply    replication.go: checkAndUpdateCommitIndexLocked, applyCommittedEntriesLocked
--   Raft/Propose          replication.go: ProposeCommand in two halves, before and after its select,
--                         and the answers to AppendEntries; Waits and Single are about a leader with
--                         and without peers
--   Raft/Run              raft.go: the cases of the event loop, Stop, SetMetrics and the accessors
--   Raft/Steps            all of these as one step relation on a node
--   Raft/Kept, Advance    what the methods leave alone; how the term and the vote move
--   Raft/Durable          the term and the vote on stable storage, if it takes their writes
--   Raft/Records          the log in memory and the log on storage
--   Raft/Tenure           what a candidate or leader does to its log
--   Raft/Office           which methods may make a node lead, and which rounds of votes they open
--   Cluster               nodes, vote requests and answers between them, crashes: a move relation; Logs
--                         adds which AppendEntries requests a leader may send
--   Transport/RateLimiter, ClientIp   internal/transport/ratelimit.go
--   Transport/Limits      internal/transport/limits.go: enforceWriteLimits, readValue; Validate
--   Transport/Reads, Http internal/transport/http_server.go: the handlers, over Transport/Message
--   Transport/Grpc        internal/transport/handler.go, over the messages of Transport/KvService
--   GoText                functions of package strings that cmd calls
--   Server                cmd/raftra-server/main.go: the flags -peers and -http-peers
--   Cli                   cmd/raftra-cli: client.go, and of main.go the requests and the commands
--   Tests                 concrete nodes and runs, and the properties at such inputs
--
-- How state is modelled. A method that takes the lock `rn.mu` is one function on the record RaftNode,
-- since nobody sees the states in between. A goroutine that a method starts is an entry of the field
-- `spawned`, with what it captures, and its answer is a method of its own, so that anything may happen
-- in between. A send on a channel is an entry of `sent`; the channels of `pendingCommits` are numbers.
-- Time is a number of nanoseconds; a method reads the clock once, at `env.now`, and `rand.Int63n` is
-- the function `env.int63n`. A pointer to `Metrics` may be nil. Logging is left out.
--
-- Numbers. A uint64 is a native number, and the additions that may wrap say so by `u64`. A length is
-- below 2 ^ 63 in Go; where a theorem needs it, it says so.
--
-- Loops. The loop of applyCommittedEntriesLocked has CommitIndex - LastApplied rounds, that of
-- checkAndUpdateCommitIndexLocked one round for each index after the commit index; these counts are
-- the fuel, and the theorems show the state in which the loops end. All other loops run over a list.
--
-- What is a parameter. The storage backend is an instance of StorageBackend; gob is the instance
-- Codec. What the proofs about a node need of a backend is IsLawful: its writes may fail, its
-- reads do not. The library bbolt is an instance of Bbolt with its documented behaviour in
-- IsDocumented, and protobuf is the instance Marshal. A float64 is an instance of Float64, with
-- the IEEE facts that are used in IsIeee; the functions of package net that read and print
-- addresses are the instance Net.
--
-- Requests. A handler of the gateway takes several locks in turn. It is a function on one state of the
-- node up to the wait of ProposeCommand, and what follows the wait is a function of its own; a theorem
-- about two clients runs the first halves one after the other.
--
-- The network of Cluster/Logs. A step of a leader sends at its end, so the requests that travel are
-- taken to be those that `append_request` builds from the state of a leader between two steps, for any
-- next index that fits uint64 and to any other member.
--
-- Not modelled: the opening of the database file, the wiring of gRPC, HTTP and of the server's parts,
-- the server's other flags, the metrics of requests, the terminal of the
-- command-line client, the load generator.
pub mod Common
pub mod GoMap
pub mod GoText
pub mod Kvstore
pub mod Proto
pub mod Server
pub mod Storage
pub mod Metrics
pub mod Cli
pub mod Cluster
pub mod Raft
pub mod Tests
pub mod Transport
