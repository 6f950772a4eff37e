-- ===== src/Tests/Logs.antt =====
-- The log of a server, on small inputs.
use distributed_database.Prelude.{
  ℕ, zero, suc, ◌+◌, ◌≤◌, ◌≡◌, refl, [], ◌∷◌, some, true, false, ok, arith, ◌⊎◌, length,
  lt_of_get_elem?,
}
use distributed_database.Raft.Types.{Raft, LogEntry, AppendEntriesReply}
use distributed_database.Raft.Log.{log_tail, get_log_at_index, log_index_to_subscript}
use distributed_database.Raft.Append.{append_entries, merge, conflict}
use distributed_database.Raft.Append.Merged.{merged, merge-merged}
use distributed_database.Raft.Append.Handler.{Outcome}
use distributed_database.Raft.Append.Agreement.{LogMatching}
use distributed_database.Raft.Boot.{apply_round}
use distributed_database.Raft.Snapshots.{snapshot, cond_install_snapshot}
use distributed_database.Raft.Replica.{IsReplica}
use distributed_database.Raft.Replica.Append.{
  IsCurrent, HasCommitted, append_entries-returns, append_entries-has_entries,
  append_entries-keeps_committed, append_entries-IsReplica,
}
use distributed_database.Raft.Replica.Apply.{apply_round-next}
use distributed_database.Raft.Replica.Snapshots.{
  snapshot-IsReplica, cond_install_snapshot-IsReplica,
}
use distributed_database.Tests.Examples.{numbers, returned, server, message, entry}

server-IsReplica : IsReplica 0 server
server-IsReplica = record {
  is_log = record { nonempty = omega arith; counts = (refl, (refl, (refl, tt))) };
  base_applied = omega arith;
  applied_committed = omega arith;
  committed = omega arith;
}

message-IsCurrent : IsCurrent numbers server message
message-IsCurrent = record { current = omega arith; counts = (refl, (refl, (refl, tt))) }

message-HasCommitted : HasCommitted numbers 0 server message
message-HasCommitted zero l e to from from' here there = absurd (omega arith)
message-HasCommitted (suc zero) l e to from from' here there = ground arith
message-HasCommitted (suc (suc i)) l e to from from' here there = absurd (omega arith)

server-LogMatching : LogMatching 0 1 server.log message.entries
server-LogMatching zero l e from from' here there same = absurd (omega arith)
server-LogMatching (suc zero) l e from from' here there same = ground arith
server-LogMatching (suc (suc zero)) l e from from' here there same = ground arith
server-LogMatching (suc (suc (suc i))) l e from from' here there same =
    absurd (omega (arith, lt_of_get_elem? server.log _ l here))

abbrev appended : Raft ℕ × AppendEntriesReply
unfolding append_entries
appended =
    returned
      (server, record { term = 0; success = false; conflicting_term = 0; conflicting_index = 0 })
      (append_entries numbers 10 server message)

appended_lem : append_entries numbers 10 server message ≡ ok appended
unfolding appended log_tail conflict
appended_lem = refl

succeeds : appended.1.success ≡ true
unfolding appended log_tail conflict
succeeds = refl

append_entries-returns_example :
    (r : Raft ℕ) × (reply : AppendEntriesReply) × (append_entries numbers 10 server message
      ≡ ok (r, reply))
    × Outcome 0 server.log 1 message r reply
append_entries-returns_example =
    append_entries-returns numbers 0 10 server message server-IsReplica message-IsCurrent
      message-HasCommitted

append_entries-has_entries_example : get_log_at_index appended.0.log 2 ≡ ok (some (entry 2 2 9))
append_entries-has_entries_example =
    append_entries-has_entries numbers 0 10 2 server message appended.0 appended.1 (entry 2 2 9)
      server-IsReplica message-IsCurrent message-HasCommitted server-LogMatching appended_lem
      succeeds (omega arith) (omega arith) refl

first_here : get_log_at_index server.log 1 ≡ ok (some (entry 1 1 7))
unfolding get_log_at_index log_index_to_subscript
first_here = refl

append_entries-keeps_committed_example : get_log_at_index appended.0.log 1 ≡ ok (some (entry 1 1 7))
append_entries-keeps_committed_example =
    append_entries-keeps_committed numbers 0 10 1 server message appended.0 appended.1 (entry 1 1 7)
      server-IsReplica message-IsCurrent message-HasCommitted appended_lem (omega arith)
      (omega arith) first_here

append_entries-IsReplica_example : IsReplica 0 appended.0
append_entries-IsReplica_example =
    append_entries-IsReplica numbers 0 10 server message appended.0 appended.1 server-IsReplica
      message-IsCurrent message-HasCommitted appended_lem

merge-merged_example : merge server.log message.entries ≡ ok (merged 0 1 server.log message.entries)
merge-merged_example =
    merge-merged 0 1 server.log message.entries server-IsReplica.is_log
      (record { nonempty = omega arith; counts = (refl, (refl, (refl, tt))) }) (omega arith)

-- The same server, before it has applied its committed entry.
abbrev behind : Raft ℕ
behind = record server { last_applied = 0 }

apply_round-next_example :
    (e : LogEntry ℕ) × (get_log_at_index behind.log 1 ≡ ok (some e))
    × (apply_round behind
        ≡ ok (
          record behind { last_applied = 1 },
          record {
            command_valid = true;
            command = e.command;
            command_index = 1;
            snapshot_valid = false;
            snapshot = [];
            snapshot_term = 0;
            snapshot_index = 0;
          }
              ∷ [],
        ))
    × IsReplica 0 (record behind { last_applied = 1 })
apply_round-next_example =
    apply_round-next 0 behind
      (record {
        is_log = server-IsReplica.is_log;
        base_applied = omega arith;
        applied_committed = omega arith;
        committed = omega arith;
      })
      (omega arith)

snapshot-IsReplica_example :
    (r : Raft ℕ) × (snapshot numbers 1 (5 ∷ []) server ≡ ok r)
    × IsReplica 1 r
    × (r.persister.snapshot ≡ 5 ∷ [])
    × (r.commit_index ≡ 1)
    × (get_log_at_index r.log 2 ≡ get_log_at_index server.log 2)
snapshot-IsReplica_example =
    snapshot-IsReplica numbers 0 1 2 (5 ∷ []) server server-IsReplica (omega arith) (omega arith)
      (omega arith)

cond_install_snapshot-IsReplica_example :
    (r : Raft ℕ) × (cond_install_snapshot numbers 2 8 (5 ∷ []) server ≡ ok (r, true))
    × IsReplica 8 r
    × (r.last_applied ≡ 8)
    × (r.persister.snapshot ≡ 5 ∷ [])
    × ((get_log_at_index r.log 9 ≡ get_log_at_index server.log 9) ⊎ (0 + length server.log ≤ 9))
cond_install_snapshot-IsReplica_example =
    cond_install_snapshot-IsReplica numbers 0 2 8 9 (5 ∷ []) server server-IsReplica (omega arith)
      (omega arith)
