-- ===== src/Sharded/Types.antt =====
-- common.go of raft-db-sharded, and the records of its client.go and server.go.
use distributed_database.Prelude.{ℕ, Option, Text}
use distributed_database.Raft.Types.{Raft}
use distributed_database.ShardController.Types.{Config}

-- The strings of type Err, and the empty string of a reply that nobody filled in.
pub data Err : Type 0 where
  ok_err no_key wrong_group wrong_leader unset : Err

pub record PutAppendArgs : Type 0 where
  pub key : Text
  pub value : Text
  pub op : Text

pub record PutAppendReply : Type 0 where
  pub err : Err

pub record GetArgs : Type 0 where
  pub key : Text

pub record GetReply : Type 0 where
  pub err : Err
  pub value : Text

-- The command type, which has no fields.
pub record Op : Type 0 where

pub record ShardKv : Type 0 where
  pub me : ℕ
  pub rf : Raft Op
  pub gid : ℕ
  pub maxraftstate : Option ℕ

-- What the client keeps of the controller's answers.
pub record Clerk : Type 0 where
  pub config : Config
