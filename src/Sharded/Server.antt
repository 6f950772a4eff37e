-- ===== src/Sharded/Server.antt =====
-- server.go of raft-db-sharded: the handlers are empty, and leave the reply as it is.
use distributed_database.Prelude.{ℕ, Option, Go, ok, ◌>>=◌}
use distributed_database.Raft.Types.{Codec, Persister}
use distributed_database.Raft.Node
use distributed_database.Raft.Boot
use distributed_database.Sharded.Types.{
  PutAppendArgs, PutAppendReply, GetArgs, GetReply, Op, ShardKv,
}

unfoldable pub get : GetArgs → GetReply → ShardKv → ShardKv × GetReply
get args reply kv = (kv, reply)

unfoldable pub put_append : PutAppendArgs → PutAppendReply → ShardKv → ShardKv × PutAppendReply
put_append args reply kv = (kv, reply)

unfoldable pub kill : ShardKv → ShardKv
kill kv = record kv { rf = Node.kill kv.rf }

-- StartServer, with Raft's first timeout. What Raft sends on its apply channel nobody reads.
unfoldable pub start_server : Codec Op → ℕ → ℕ → Persister → Option ℕ → ℕ → ℕ → Go ShardKv
start_server codec servers me persister maxraftstate gid election_timeout = do
  rf ← Boot.make codec servers me persister election_timeout
  ok (record { me = me; rf = rf; gid = gid; maxraftstate = maxraftstate })
