-- ===== src/Tests/Examples.antt =====
-- A codec for numbered commands, and a few servers and messages.
use distributed_database.Prelude.{
  ℕ, zero, suc, ◌≡◌, refl, List, [], ◌∷◌, Option, some, none, arith, Go, ok, panic,
}
use distributed_database.Raft.Types.{
  follower, LogEntry, Raft, Saved, Codec, IsCodec, AppendEntriesArgs,
}
use distributed_database.Raft.Node.{make_persister}
use distributed_database.Raft.Boot.{fresh}

abbrev encode_option : Option ℕ → ℕ
encode_option none = 0
encode_option (some c) = suc c

abbrev decode_option : ℕ → Option ℕ
decode_option zero = none
decode_option (suc c) = some c

abbrev encode_log : List (LogEntry ℕ) → List ℕ
encode_log [] = []
encode_log (e ∷ es) = e.term ∷ e.index ∷ encode_option e.command ∷ encode_log es

abbrev decode_log : List ℕ → List (LogEntry ℕ)
decode_log (t ∷ i ∷ c ∷ rest) =
    record { term = t; index = i; command = decode_option c } ∷ decode_log rest
decode_log _ = []

abbrev decode_saved : List ℕ → Option (Saved ℕ)
decode_saved (t ∷ v ∷ log) =
    some (record { term = t; voted_for = decode_option v; log = decode_log log })
decode_saved _ = none

abbrev pub numbers : Codec ℕ
numbers = record {
  encode = λ s. s.term ∷ encode_option s.voted_for ∷ encode_log s.log;
  decode = decode_saved;
}

decode_option-encode_option : (c : Option ℕ) → decode_option (encode_option c) ≡ c
decode_option-encode_option none = refl
decode_option-encode_option (some c) = refl

decode_log-encode_log : (log : List (LogEntry ℕ)) → decode_log (encode_log log) ≡ log
decode_log-encode_log [] = refl
decode_log-encode_log (e ∷ es) =
    rw (decode_option-encode_option e.command, decode_log-encode_log es)

pub numbers-IsCodec : IsCodec numbers
numbers-IsCodec = record {
  decode-encode = λ s. rw (decode_option-encode_option s.voted_for, decode_log-encode_log s.log);
  encode_nonempty = λ s. omega arith;
}

-- What a computation returns, or the default where it faults.
abbrev pub returned {ℓ} : {A : Type ℓ} → A → Go A → A
returned a (ok b) = b
returned a panic = a

abbrev pub entry : ℕ → ℕ → ℕ → LogEntry ℕ
entry t i c = record { term = t; index = i; command = some c }

-- A server of three that has just been made.
abbrev pub blank : Raft ℕ
blank = record {
  peers = 3;
  me = 0;
  persister = record { raftstate = []; snapshot = [] };
  dead = 0;
  state = follower;
  term = 0;
  voted_for = none;
  log = record { term = 0; index = 0; command = none } ∷ [];
  last_heartbeat = 0;
  election_timeout = 5;
  commit_index = 0;
  last_applied = 0;
  next_index = 1 ∷ 1 ∷ 1 ∷ [];
  match_index = 0 ∷ 0 ∷ 0 ∷ [];
}

blank-fresh : fresh 3 0 make_persister 5 ≡ blank
unfolding fresh make_persister
blank-fresh = refl

-- One in term 1, with two entries behind the head, of which the first is committed and applied.
abbrev pub server : Raft ℕ
server = record blank {
  term = 1;
  log = record { term = 0; index = 0; command = none } ∷ entry 1 1 7 ∷ entry 1 2 8 ∷ [];
  commit_index = 1;
  last_applied = 1;
}

-- A message of the leader of term 2: it has the first entry again, which is committed, and
-- replaces the second.
abbrev pub message : AppendEntriesArgs ℕ
message = record {
  term = 2;
  leader_id = 1;
  prev_log_index = 0;
  prev_log_term = 0;
  entries = entry 1 1 7 ∷ entry 2 2 9 ∷ entry 2 3 10 ∷ [];
  leader_commit = 2;
}
