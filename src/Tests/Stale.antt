-- ===== src/Tests/Stale.antt =====
-- A snapshot on top of entries of an older term.
use distributed_database.Prelude.{ℕ, ◌≡◌, refl, [], ◌∷◌, none, true, Bool, ok, arith}
use distributed_database.Raft.Types.{Raft, RequestVoteArgs, RequestVoteReply}
use distributed_database.Raft.Log.{log_tail}
use distributed_database.Raft.Vote.{request_vote}
use distributed_database.Raft.Snapshots.{cond_install_snapshot, installed_log}
use distributed_database.Raft.Replica.{IsReplica}
use distributed_database.Raft.Replica.Stale.{install_votes_stale}
use distributed_database.Tests.Examples.{numbers, returned, blank, entry}

-- Two entries of term 1 that never were committed.
abbrev forsaken : Raft ℕ
forsaken = record blank {
  term = 5;
  log = record { term = 0; index = 0; command = none } ∷ entry 1 1 7 ∷ entry 1 2 8 ∷ [];
}

forsaken-IsReplica : IsReplica 0 forsaken
forsaken-IsReplica = record {
  is_log = record { nonempty = omega arith; counts = (refl, (refl, (refl, tt))) };
  base_applied = omega arith;
  applied_committed = omega arith;
  committed = omega arith;
}

-- The snapshot of an entry of term 5.
abbrev covered : Raft ℕ × Bool
unfolding cond_install_snapshot log_tail
covered = returned (forsaken, true) (cond_install_snapshot numbers 5 1 (9 ∷ []) forsaken)

covered_lem : cond_install_snapshot numbers 5 1 (9 ∷ []) forsaken ≡ ok covered
unfolding covered log_tail installed_log
covered_lem = refl

covered-term : covered.0.term ≡ 5
unfolding covered log_tail installed_log
covered-term = refl

forsaken-tail : log_tail forsaken.log ≡ ok (entry 1 2 8)
unfolding log_tail
forsaken-tail = refl

-- A candidate of term 6 whose log ends in term 3.
abbrev late_request : RequestVoteArgs
late_request = record { term = 6; candidate_id = 2; last_log_index = 1; last_log_term = 3 }

install_votes_stale_example :
    (log_tail covered.0.log ≡ ok (entry 1 2 8))
    × (y : Raft ℕ × RequestVoteReply) × (request_vote numbers 4 covered.0 late_request ≡ ok y)
    × (y.1.vote_granted ≡ true)
install_votes_stale_example =
    install_votes_stale numbers 0 5 1 4 (9 ∷ []) forsaken covered.0 covered.1 (entry 1 2 8)
      late_request forsaken-IsReplica (omega arith) (omega arith) forsaken-tail covered_lem
      (omega (arith, covered-term)) (omega arith) (omega arith)
