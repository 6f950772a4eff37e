-- ===== src/ShardController/Types.antt =====
-- The data of the shard controller: common.go, and the records of server.go.
use distributed_database.Prelude.{ℕ, List, Option, Bool, Text}
use distributed_database.Raft.Types.{Raft}

abbrev pub n_shards : ℕ
n_shards = 10

-- `shards` has a group number for each shard; group 0 is no group.
pub record Config : Type 0 where
  pub num : ℕ
  pub shards : List ℕ
  pub groups : List (ℕ × List Text)

pub data Err : Type 0 where
  ok_err timeout : Err

pub record Args : Type 0 where
  pub client_id : ℕ
  pub request_id : ℕ

pub record JoinArgs : Type 0 where
  pub servers : List (ℕ × List Text)
  pub args : Args

pub record LeaveArgs : Type 0 where
  pub gids : List ℕ
  pub args : Args

pub record MoveArgs : Type 0 where
  pub shard : ℕ
  pub gid : ℕ
  pub args : Args

-- `none` is any negative number, which asks for the latest configuration.
pub record QueryArgs : Type 0 where
  pub num : Option ℕ

-- What the controller gives to Raft as a command.
pub data Command : Type 0 where
  join : JoinArgs → Command
  leave : LeaveArgs → Command
  move : MoveArgs → Command
  query : QueryArgs → Command

-- JoinReply, LeaveReply and MoveReply have these fields; QueryReply has a configuration too.
pub record Reply : Type 0 where
  pub wrong_leader : Bool
  pub err : Err

pub record QueryReply : Type 0 where
  pub wrong_leader : Bool
  pub err : Err
  pub config : Config

-- What `Command` returns: `num` is `none` for -1.
pub record Answer : Type 0 where
  pub num : Option ℕ
  pub wrong_leader : Bool
  pub err : Err

-- What a snapshot holds. A nil command may stand in `dedup`.
pub record Store : Type 0 where
  pub configs : List Config
  pub dedup : List (ℕ × Option Command)

-- A channel that a request waits on is known by a number.
pub record ShardCtrler : Type 0 where
  pub me : ℕ
  pub rf : Raft Command
  pub maxraftstate : Option ℕ
  pub store : Store
  pub open store use *
  pub done_chans : List (ℕ × ℕ)
  pub last_applied : ℕ
  pub servers_len : ℕ

-- A goroutine that sends on a channel, which may be nil: `none` is the -1 of all but a query.
pub record Notice : Type 0 where
  pub chan : Option ℕ
  pub num : Option ℕ

-- The snapshot's serialisation by encoding/gob.
pub record StoreCodec : Type 0 where
  pub encode : Store → List ℕ
  pub decode_dedup : List ℕ → Option (List (ℕ × Option Command))
  pub decode_configs : List ℕ → Option (List Config)
