-- ===== src/Raft/Types.antt =====
-- The data of raft.go and persister.go: log entries, the server's state, messages and replies.
-- Terms and indices are numbers, since none is ever negative; `none` is the -1 of `votedFor`.
-- A command is an `interface{}`: a value of some type `C`, or nil. Times are numbers of one clock.
use distributed_database.Prelude.{ℕ, ◌≡◌, ◌<◌, Bool, List, Option, some, length}

pub data State : Type 0 where
  follower candidate leader : State

pub record LogEntry {ℓ} (C : Type ℓ) : Type ℓ where
  pub term : ℕ
  pub index : ℕ
  pub command : Option C

pub record ApplyMsg {ℓ} (C : Type ℓ) : Type ℓ where
  pub command_valid : Bool
  pub command : Option C
  pub command_index : ℕ
  pub snapshot_valid : Bool
  pub snapshot : List ℕ
  pub snapshot_term : ℕ
  pub snapshot_index : ℕ

-- Bytes are numbers; a nil slice is the empty one.
pub record Persister : Type 0 where
  pub raftstate : List ℕ
  pub snapshot : List ℕ

pub record Raft {ℓ} (C : Type ℓ) : Type ℓ where
  -- len(rf.peers), the only thing that the server asks of its peers but to send them messages.
  pub peers : ℕ
  pub me : ℕ
  pub persister : Persister
  pub dead : ℕ
  pub state : State
  pub term : ℕ
  pub voted_for : Option ℕ
  pub log : List (LogEntry C)
  pub last_heartbeat : ℕ
  pub election_timeout : ℕ
  pub commit_index : ℕ
  pub last_applied : ℕ
  pub next_index : List ℕ
  pub match_index : List ℕ

pub record AppendEntriesArgs {ℓ} (C : Type ℓ) : Type ℓ where
  pub term : ℕ
  pub leader_id : ℕ
  pub prev_log_index : ℕ
  pub prev_log_term : ℕ
  pub entries : List (LogEntry C)
  pub leader_commit : ℕ

pub record AppendEntriesReply : Type 0 where
  pub term : ℕ
  pub success : Bool
  pub conflicting_term : ℕ
  pub conflicting_index : ℕ

pub record RequestVoteArgs : Type 0 where
  pub term : ℕ
  pub candidate_id : ℕ
  pub last_log_index : ℕ
  pub last_log_term : ℕ

pub record RequestVoteReply : Type 0 where
  pub term : ℕ
  pub vote_granted : Bool

pub record InstallSnapshotArgs : Type 0 where
  pub term : ℕ
  pub leader_id : ℕ
  pub last_included_index : ℕ
  pub last_included_term : ℕ
  -- `Data` in the source
  pub snapshot_data : List ℕ

pub record InstallSnapshotReply : Type 0 where
  pub term : ℕ

-- What `serializeState` writes.
pub record Saved {ℓ} (C : Type ℓ) : Type ℓ where
  pub term : ℕ
  pub voted_for : Option ℕ
  pub log : List (LogEntry C)

-- The serialisation, which rests on Go's encoding/gob: `decode` is `none` where it reports an error.
pub record Codec {ℓ} (C : Type ℓ) : Type ℓ where
  pub encode : Saved C → List ℕ
  pub decode : List ℕ → Option (Saved C)

-- What the server relies on: a value that was encoded is not empty, and decodes to itself.
pub record IsCodec {ℓ} {C : Type ℓ} (codec : Codec C) : Type ℓ where
  pub decode-encode : (s : Saved C) → codec.decode (codec.encode s) ≡ some s
  pub encode_nonempty : (s : Saved C) → 0 < length (codec.encode s)
