-- ===== src/Tests/Controllers.antt =====
-- A shard controller that takes a snapshot and starts again, on a small input.
use distributed_database.Prelude.{
  ◌≡◌, refl, [], ◌∷◌, some, none, true, ok, inl, arith, length, replicate,
}
use distributed_database.Raft.Types.{Raft, leader}
use distributed_database.Raft.Node.{saved}
use distributed_database.Raft.Replica.{IsReplica}
use distributed_database.ShardController.Types.{Command, move, Config, ShardCtrler, StoreCodec}
use distributed_database.ShardController.Server.{needs_snapshot, take_snapshot, start_server}
use distributed_database.ShardController.Server.Restart.{first_config, take_snapshot-forgotten}
use distributed_database.Tests.Wire.Configs.{controller_codec, controller_codec-IsCodec}

abbrev one_move : Command
one_move = move (record { shard = 0; gid = 6; args = record { client_id = 2; request_id = 1 } })

abbrev unwritten : Raft Command
unwritten = record {
  peers = 1;
  me = 0;
  persister = record { raftstate = []; snapshot = [] };
  dead = 0;
  state = leader;
  term = 1;
  voted_for = some 0;
  log =
      record { term = 0; index = 0; command = none }
      ∷ record { term = 1; index = 1; command = some one_move }
      ∷ [];
  last_heartbeat = 0;
  election_timeout = 5;
  commit_index = 1;
  last_applied = 1;
  next_index = 2 ∷ [];
  match_index = 1 ∷ [];
}

abbrev second_config : Config
second_config = record { num = 1; shards = 6 ∷ replicate 9 0; groups = [] }

-- How the store is written does not matter, since it is not read.
abbrev any_codec : StoreCodec
any_codec = record {
  encode = λ s. length s.configs ∷ [];
  decode_dedup = λ bytes. none;
  decode_configs = λ bytes. none;
}

-- Its limit is already reached.
abbrev moved_one : ShardCtrler
moved_one = record {
  me = 0;
  rf = record unwritten {
    persister = record { raftstate = controller_codec.encode (saved unwritten); snapshot = [] };
  };
  maxraftstate = some 0;
  store = record { configs = first_config ∷ second_config ∷ []; dedup = (2, some one_move) ∷ [] };
  done_chans = [];
  last_applied = 1;
  servers_len = 1;
}

moved_one-IsReplica : IsReplica 0 moved_one.rf
moved_one-IsReplica = record {
  is_log = record { nonempty = omega arith; counts = (refl, (refl, tt)) };
  base_applied = omega arith;
  applied_committed = omega arith;
  committed = omega arith;
}

reached : needs_snapshot moved_one ≡ true
unfolding needs_snapshot
reached = ground arith

take_snapshot-forgotten_example :
    (s' : ShardCtrler) × (s'' : ShardCtrler) × (take_snapshot controller_codec any_codec 1 moved_one
      ≡ ok s')
    × (s'.rf.persister.snapshot ≡ 2 ∷ [])
    × (start_server controller_codec any_codec s'.rf.peers s'.rf.me s'.rf.persister 9 ≡ ok s'')
    × (s''.configs ≡ first_config ∷ [])
    × (saved s''.rf ≡ saved s'.rf)
    × (s''.rf.last_applied ≡ 1)
take_snapshot-forgotten_example =
    take_snapshot-forgotten controller_codec any_codec controller_codec-IsCodec 0 1 9 moved_one
      moved_one-IsReplica (inl refl) (omega arith) (omega arith) reached
