-- ===== src/Lib.antt =====
-- A verification library for the distributed database of this repository, a Go program.
--
-- The parts. src/db_files/raft is the consensus protocol: each server keeps a log, a term and a vote,
-- and writes them to a persister. src/db_files/raft-db is a key-value store: it gives its clients'
-- requests to Raft as commands, and applies what Raft hands back. src/db_files/shard-controller keeps
-- the assignment of shards to groups in the same way. src/db_files/raft-db-sharded has a client that
-- asks the controller which group has a key; its server's handlers are empty.
-- src/test_files/models/kv.go is the specification that the tests check the key-value store against.
--
-- The files. Raft/Types has the records of raft.go and persister.go. Raft/Node has the persister and
-- the small steps on the server (persist, resetTerm, becomeFollower), Raft/Log the log's functions
-- (GetLogAtIndex, LogTail, Min, Max), Raft/Vote the RequestVote handler, Raft/Append that of
-- AppendEntries, Raft/Snapshots Snapshot, CondInstallSnapshot and InstallSnapshot, Raft/Election the
-- rounds of DoElection and its replies, Raft/Leader Replicate, Sync and Start, Raft/Boot Make,
-- readPersist and the rounds of DoApply. Raft/Step puts these together: a server's life is a list of
-- events, each the code that runs under one hold of the server's lock, so that a list is one
-- interleaving of the goroutines; a crash is an event too. Raft/Cluster has several servers: elections
-- between them as a step relation, with every other event of each server in between; Raft/Network
-- adds the messages of Replicate on their way to AppendEntries, and every entry that a Start has ever
-- made, which no server keeps but which tells where an entry of a log comes from. Raft/Replica is
-- the invariant of one server's log and indices. Start lets go of the lock in its broadcast, so it is
-- told in two parts: start_append before that, and the answer after what the other goroutines do in
-- the gap, an argument. RaftDb/Types and RaftDb/Server model common.go and server.go of raft-db,
-- with a request cut in two at its wait, and RaftDb/Clerk the loop of client.go;
-- ShardController/Types, Rebalance, Server and Clerk model the shard controller's common.go, server.go
-- and client.go in the same way. Sharded has a module for each of the three files of raft-db-sharded,
-- Models/Kv is kv.go. Harness has what src/db_files/raft/config.go checks of running servers and notes of
-- what they apply, next to the models of the servers that it checks, which links between them it
-- turns on and off, and how it brings about an agreement; Harness/Parts has the partitions of
-- src/db_files/raft-db/config.go. Tests runs the models on small inputs.
--
-- How the code is told. A handler takes the server's state and gives the next one with the reply. Go's
-- run-time panics, such as a subscript out of range, are the result `panic` of Prelude/Faults. Terms,
-- indices and sizes are natural numbers, as none is ever negative; the -1 of votedFor and of
-- maxraftstate is `none`. Go's 64-bit overflow is left out, since the numbers only count messages and
-- elections. Maps are association lists. Times are numbers of one clock, and a timeout that the
-- code draws at random is an argument. What encoding/gob does is a codec, an argument with
-- the law that decoding undoes encoding. The network of labrpc is given to the test harnesses in the
-- same way, by its operations on the ends of calls (Harness/Wires).
--
-- Leader Completeness, that the logs of later leaders have the committed entries, is not proved. The
-- theorems on the AppendEntries handler of Raft/Replica/Append that need it name it as a hypothesis,
-- HasCommitted.
--
-- Fuel. Only the loop of rebalance runs on fuel, 102 rounds for its ten shards: a round that takes
-- shards from group 0 takes all of them, and any other makes the sum of the squares of the groups'
-- numbers of shards, 100 at most, smaller by two. A loop that needed more would count as a fault.
--
-- A client's loop has no fuel: it goes over the list of the answers that its calls get. In the same
-- way checkOneLeader, `one` and `wait` go over what their rounds see, each server at the moment when
-- it is asked.
--
-- Not modelled: the log output, the network that carries messages (src/util_files/labrpc), the
-- serialisation itself (src/util_files/labgob), the condition variables that wake the loops, and the
-- tests with the rest of their harnesses (the config.go files: the making of the tests, of servers
-- and clerks, and the statistics) and their linearizability checker, a copy of the porcupine library
-- (src/test_files).
pub mod Prelude
pub mod Raft
pub mod RaftDb
pub mod ShardController
pub mod Sharded
pub mod Models
pub mod Harness
pub mod Tests
