-- ===== src/Tests/Restarts.antt =====
-- A key-value server that takes a snapshot and starts again, on a small input.
use distributed_database.Prelude.{◌≡◌, refl, [], ◌∷◌, some, none, true, ok, inl, arith}
use distributed_database.Raft.Types.{Raft, leader}
use distributed_database.Raft.Node.{saved}
use distributed_database.Raft.Replica.{IsReplica}
use distributed_database.RaftDb.Types.{Command, put_op, put_append, KvServer, Store}
use distributed_database.RaftDb.Server.{needs_snapshot, take_snapshot, start_kv_server}
use distributed_database.RaftDb.Server.Restart.{take_snapshot-restart}
use distributed_database.Tests.Wire.Stores.{
  raft_codec, raft_codec-IsCodec, store_codec, store_codec-IsStoreCodec,
}

abbrev one_write : Command
one_write = put_append (record {
  kind = put_op;
  key = 97 ∷ [];
  value = 98 ∷ [];
  args = record { client_id = 4; request_id = 1 };
})

-- One write is applied, and is in the store.
abbrev one_store : Store
one_store = record { kv = (97 ∷ [], 98 ∷ []) ∷ []; dedup = (4, one_write) ∷ [] }

abbrev unsaved : Raft Command
unsaved = record {
  peers = 1;
  me = 0;
  persister = record { raftstate = []; snapshot = [] };
  dead = 0;
  state = leader;
  term = 1;
  voted_for = some 0;
  log =
      record { term = 0; index = 0; command = none }
      ∷ record { term = 1; index = 1; command = some one_write }
      ∷ [];
  last_heartbeat = 0;
  election_timeout = 5;
  commit_index = 1;
  last_applied = 1;
  next_index = 2 ∷ [];
  match_index = 1 ∷ [];
}

abbrev applied_one : KvServer
applied_one = record {
  me = 0;
  rf = record unsaved {
    persister = record { raftstate = raft_codec.encode (saved unsaved); snapshot = [] };
  };
  dead = 0;
  maxraftstate = some 0;
  servers_len = 1;
  store = one_store;
  get_chans = [];
  done_chans = [];
  last_applied = 1;
}

applied_one-IsReplica : IsReplica 0 applied_one.rf
applied_one-IsReplica = record {
  is_log = record { nonempty = omega arith; counts = (refl, (refl, tt)) };
  base_applied = omega arith;
  applied_committed = omega arith;
  committed = omega arith;
}

needed : needs_snapshot applied_one ≡ true
unfolding needs_snapshot
needed = ground arith

take_snapshot-restart_example :
    (s' : KvServer) × (s'' : KvServer) × (take_snapshot raft_codec store_codec 1 applied_one
      ≡ ok s')
    × (start_kv_server raft_codec store_codec s'.rf.peers s'.rf.me s'.rf.persister s'.maxraftstate 9
        ≡ ok s'')
    × (s''.store ≡ one_store)
    × (saved s''.rf ≡ saved s'.rf)
    × (s''.rf.last_applied ≡ 1)
    × IsReplica 1 s''.rf
take_snapshot-restart_example =
    take_snapshot-restart raft_codec store_codec raft_codec-IsCodec store_codec-IsStoreCodec 0 1 9
      applied_one applied_one-IsReplica (inl refl) (omega arith) (omega arith) needed
