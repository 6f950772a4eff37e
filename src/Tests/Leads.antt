-- ===== src/Tests/Leads.antt =====
-- A leader, on small inputs.
pub mod Agreed
use distributed_database.Prelude.{◌↔◌, ℕ, ◌≡◌, refl, [], ◌∷◌, some, true, ok, arith}
use distributed_database.Raft.Types.{Raft, leader, follower, AppendEntriesArgs, AppendEntriesReply}
use distributed_database.Raft.Log.{log_tail, get_log_at_index}
use distributed_database.Raft.Log.Contiguous.{Contiguous}
use distributed_database.Raft.Replica.{IsReplica}
use distributed_database.Raft.Replica.Start.{start-looked_up}
use distributed_database.Raft.Node.{saved, majority}
use distributed_database.Raft.Leader.{StartReply, start, count_matches}
use distributed_database.Raft.Leader.Commit.{Committable}
use distributed_database.Tests.Examples.{numbers, server, entry}

abbrev pub leading : Raft ℕ
leading = record server {
  state = leader;
  next_index = 3 ∷ 1 ∷ 1 ∷ [];
  match_index = 2 ∷ 0 ∷ 0 ∷ [];
}

abbrev sent : AppendEntriesArgs ℕ
sent = record {
  term = 1;
  leader_id = 0;
  prev_log_index = 0;
  prev_log_term = 0;
  entries = entry 1 1 7 ∷ entry 1 2 8 ∷ [];
  leader_commit = 1;
}

abbrev answer : AppendEntriesReply
answer = record { term = 1; success = true; conflicting_term = 0; conflicting_index = 0 }

-- Two of the three servers have both entries now, so that the second is committed.
abbrev synced : Raft ℕ
synced = record leading {
  next_index = 3 ∷ 3 ∷ 1 ∷ [];
  match_index = 2 ∷ 2 ∷ 0 ∷ [];
  commit_index = 2;
}

last_sent : log_tail sent.entries ≡ ok (entry 1 2 8)
unfolding log_tail
last_sent = refl

second-Committable : Committable synced 2
unfolding count_matches get_log_at_index majority
second-Committable = record {
  count = 2;
  entry = entry 1 2 8;
  counted = refl;
  enough = omega arith;
  at = refl;
  current = refl;
}

pub leading-IsReplica : IsReplica 0 leading
leading-IsReplica = record {
  is_log = record { nonempty = omega arith; counts = (refl, (refl, (refl, tt))) };
  base_applied = omega arith;
  applied_committed = omega arith;
  committed = omega arith;
}

-- The leader hears of term 2 while its Start is without the lock.
abbrev deposed : Raft ℕ → Raft ℕ
deposed rf = record rf { term = 2; state = follower }

start-looked_up_example :
    (r : Raft ℕ) × (i : ℕ) × (reply : StartReply) × (start numbers (some 9) deposed leading
      ≡ ok (deposed r, reply))
    × (get_log_at_index r.log i ≡ ok (some (record { term = 1; index = i; command = some 9 })))
    × (get_log_at_index r.log 1 ≡ get_log_at_index leading.log 1)
    × (r.persister.raftstate ≡ numbers.encode (saved r))
    × IsReplica 0 r
    × (reply.index ≡ some i)
    × (reply.term ≡ some 2)
    × ((reply.is_leader ≡ true) ↔ (follower ≡ leader))
start-looked_up_example =
    start-looked_up numbers 0 1 (some 9) deposed leading leading-IsReplica (omega arith) refl
      (omega arith)
