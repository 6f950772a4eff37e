-- ===== src/RaftDb/Types.antt =====
-- The messages and the server's state of raft-db: common.go and the records of server.go.
use distributed_database.Prelude.{ℕ, ◌≡◌, List, Option, some, Text}
use distributed_database.Raft.Types.{Raft}

-- `OK` and the other strings of type Err, and the empty string of a reply that nobody filled in.
pub data Err : Type 0 where
  ok_err no_key wrong_leader timeout unset : Err

pub record Args : Type 0 where
  pub client_id : ℕ
  pub request_id : ℕ

pub data PutOrAppend : Type 0 where
  put_op append_op : PutOrAppend

pub record PutAppendArgs : Type 0 where
  pub kind : PutOrAppend
  pub key : Text
  pub value : Text
  pub args : Args
  pub open args use *

pub record PutAppendReply : Type 0 where
  pub err : Err

pub record GetArgs : Type 0 where
  pub key : Text

pub record GetReply : Type 0 where
  pub err : Err
  pub value : Text

-- What the server gives to Raft as a command.
pub data Command : Type 0 where
  get : GetArgs → Command
  put_append : PutAppendArgs → Command

-- What a snapshot holds: the maps `kv` and `dedup`.
pub record Store : Type 0 where
  pub kv : List (Text × Text)
  pub dedup : List (ℕ × Command)

-- A channel that a request waits on is known by a number.
pub record KvServer : Type 0 where
  pub me : ℕ
  pub rf : Raft Command
  pub dead : ℕ
  -- `none` is -1: no snapshots
  pub maxraftstate : Option ℕ
  pub servers_len : ℕ
  pub store : Store
  pub open store use *
  pub get_chans : List (ℕ × ℕ)
  pub done_chans : List (ℕ × ℕ)
  pub last_applied : ℕ

-- A goroutine that sends on a channel; `none` is a nil channel, on which a send blocks for ever.
pub data Notice : Type 0 where
  got : Option ℕ → Text → Notice
  done : Option ℕ → Notice

-- The snapshot's serialisation by encoding/gob: each map is `none` where it fails to decode.
pub record StoreCodec : Type 0 where
  pub encode : Store → List ℕ
  pub decode_dedup : List ℕ → Option (List (ℕ × Command))
  pub decode_kv : List ℕ → Option (List (Text × Text))

-- What the server relies on: both maps of an encoded snapshot decode to themselves.
pub record IsStoreCodec (codec : StoreCodec) : Type 0 where
  pub decode_dedup-encode : (s : Store) → codec.decode_dedup (codec.encode s) ≡ some s.dedup
  pub decode_kv-encode : (s : Store) → codec.decode_kv (codec.encode s) ≡ some s.kv
