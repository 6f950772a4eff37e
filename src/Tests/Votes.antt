-- ===== src/Tests/Votes.antt =====
-- Votes and restarts, on small inputs.
use distributed_database.Prelude.{
  ℕ, ◌≤◌, ◌<◌, ◌≡◌, ◌≢◌, refl, List, [], ◌∷◌, some, none, true, false, ok, inl, inr, arith, ◌↔◌,
  ◌⊎◌,
}
use distributed_database.Raft.Types.{
  Raft, candidate, RequestVoteArgs, RequestVoteReply, AppendEntriesArgs, AppendEntriesReply,
}
use distributed_database.Raft.Log.{log_tail}
use distributed_database.Raft.Vote.{request_vote}
use distributed_database.Raft.Vote.Grants.{UpToDate, request_vote-granted}
use distributed_database.Raft.Append.{append_entries}
use distributed_database.Raft.Boot.{make, blank_entry}
use distributed_database.Raft.Step.{Event, asked_vote, restarted, run}
use distributed_database.Raft.Step.Careful.{IsDurable}
use distributed_database.Raft.Step.Safety.{one_vote_per_term, run-IsDurable}
use distributed_database.Raft.Step.Revote.{candidate_votes_again}
use distributed_database.Tests.Examples.{numbers, numbers-IsCodec, returned, blank, entry}

abbrev ask : ℕ → RequestVoteArgs
ask c = record { term = 1; candidate_id = c; last_log_index = 0; last_log_term = 0 }

abbrev no_reply : RequestVoteReply
no_reply = record { term = 0; vote_granted = false }

abbrev voted : Raft ℕ × RequestVoteReply
unfolding request_vote log_tail
voted = returned (blank, no_reply) (request_vote numbers 10 blank (ask 1))

-- Another candidate asks, the server crashes, and the other asks again.
abbrev between : List (Event ℕ)
between = asked_vote 11 (ask 2) ∷ restarted 6 ∷ asked_vote 12 (ask 2) ∷ []

abbrev later : Raft ℕ
unfolding run voted log_tail make
later = returned blank (run numbers voted.0 between)

abbrev voted_again : Raft ℕ × RequestVoteReply
unfolding request_vote log_tail later make
voted_again = returned (blank, no_reply) (request_vote numbers 13 later (ask 1))

voted_lem : request_vote numbers 10 blank (ask 1) ≡ ok voted
unfolding voted log_tail make
voted_lem = refl

run-between : run numbers voted.0 between ≡ ok later
unfolding later log_tail make
run-between = refl

voted_again_lem : request_vote numbers 13 later (ask 1) ≡ ok voted_again
unfolding voted_again log_tail make
voted_again_lem = refl

-- The other is refused.
other_refused :
    (returned (blank, no_reply) (request_vote numbers 13 later (ask 2))).1.vote_granted ≡ false
unfolding request_vote log_tail later make
other_refused = refl

follows : voted.0.state ≢ candidate
unfolding voted log_tail make
follows = λ e. cc

granted : voted.1.vote_granted ≡ true
unfolding voted log_tail make
granted = refl

granted_again : voted_again.1.vote_granted ≡ true
unfolding voted_again log_tail make
granted_again = refl

one_vote_per_term_example : (ask 1).candidate_id ≡ 1
unfolding blank_entry
one_vote_per_term_example =
    one_vote_per_term numbers numbers-IsCodec 10 13 blank later between (ask 1) (ask 1) voted
      voted_again (inr (refl, refl)) voted_lem granted follows run-between voted_again_lem
      granted_again refl

run-IsDurable_example : (voted.0.term ≤ later.term) × IsDurable numbers later
run-IsDurable_example =
    run-IsDurable numbers numbers-IsCodec voted.0 later between (unfold voted in (inl refl))
      run-between

tail_of_blank : log_tail blank.log ≡ ok (record { term = 0; index = 0; command = none })
unfolding log_tail
tail_of_blank = refl

request_vote-granted_example :
    (voted.1.term ≡ blank.term)
    × ((voted.1.vote_granted ≡ true) ↔ (
        UpToDate (entry 0 0 0) (ask 1)
        × ((blank.term < 1)
            ⊎ (((ask 1).term ≡ blank.term)
                × ((blank.voted_for ≡ none) ⊎ (blank.voted_for ≡ some 1))))))
request_vote-granted_example =
    request_vote-granted numbers 10 blank (ask 1) voted
      (record { term = 0; index = 0; command = none }) tail_of_blank voted_lem

abbrev remade : Raft ℕ
unfolding later make
remade = returned blank (make numbers later.peers later.me later.persister 9)

remade_lem : make numbers later.peers later.me later.persister 9 ≡ ok remade
unfolding remade log_tail
remade_lem = refl

later-IsDurable : IsDurable numbers later
unfolding later log_tail make
later-IsDurable = inl refl

-- A candidate of term 1, and the leader of that term.
abbrev standing : Raft ℕ
standing = record blank { state = candidate; term = 1; voted_for = some 0 }

abbrev heartbeat : AppendEntriesArgs ℕ
heartbeat = record {
  term = 1;
  leader_id = 1;
  prev_log_index = 0;
  prev_log_term = 0;
  entries = [];
  leader_commit = 0;
}

abbrev fallen : Raft ℕ × AppendEntriesReply
unfolding append_entries
fallen =
    returned
      (blank, record { term = 0; success = false; conflicting_term = 0; conflicting_index = 0 })
      (append_entries numbers 10 standing heartbeat)

abbrev second_vote : Raft ℕ × RequestVoteReply
unfolding request_vote fallen
second_vote = returned (blank, no_reply) (request_vote numbers 11 fallen.0 (ask 2))

fallen_lem : append_entries numbers 10 standing heartbeat ≡ ok fallen
unfolding fallen log_tail
fallen_lem = refl

second_vote_lem : request_vote numbers 11 fallen.0 (ask 2) ≡ ok second_vote
unfolding second_vote log_tail
second_vote_lem = refl

tail_of_fallen : log_tail fallen.0.log ≡ ok (record { term = 0; index = 0; command = none })
unfolding log_tail fallen
tail_of_fallen = refl

candidate_votes_again_example : (second_vote.1.vote_granted ≡ true) × (fallen.0.term ≡ 1)
candidate_votes_again_example =
    candidate_votes_again numbers 10 11 standing heartbeat (ask 2) fallen second_vote
      (record { term = 0; index = 0; command = none }) refl refl refl fallen_lem refl tail_of_fallen
      (inr (refl, omega arith)) second_vote_lem
