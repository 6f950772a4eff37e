-- ===== src/Tests/Elections.antt =====
-- An election among three servers.
pub mod Matching
pub mod Rounds
use distributed_database.Prelude.{
  ℕ, ◌≡◌, refl, [], ◌∷◌, Option, none, true, false, ok, inl, inr, arith, Has, Bool,
}
use distributed_database.Raft.Types.{Raft, leader, RequestVoteArgs, RequestVoteReply}
use distributed_database.Raft.Log.{log_tail}
use distributed_database.Raft.Vote.{request_vote}
use distributed_database.Raft.Election.{election_round, vote_reply}
use distributed_database.Raft.Boot.{blank_entry}
use distributed_database.Raft.Cluster.{
  Win, Cluster, timed, asked, heard, timer, ask, hear, Run, stop, more,
}
use distributed_database.Raft.Cluster.Election.{IsStart, one_election_per_term, one_leader_per_term}
use distributed_database.Tests.Examples.{numbers, numbers-IsCodec, returned, blank}

-- Three servers with empty disks.
abbrev server : ℕ → Raft ℕ
server i = record blank { me = i }

abbrev at_start : Cluster ℕ
at_start = record { servers = server; votes = []; wins = []; counted = λ i. [] }

at_start-IsStart : IsStart numbers numbers-IsCodec 3 at_start
unfolding blank_entry
at_start-IsStart = record {
  members = λ i. record { me = refl; peers = refl; own = λ stands. cc; durable = inr (refl, refl) };
  followers = λ i. refl;
  no_votes = refl;
  no_wins = refl;
}

-- Server 0 stands, server 1 votes for it, and it leads.
abbrev stood : Raft ℕ × Option RequestVoteArgs
unfolding election_round log_tail
stood = returned (blank, none) (election_round numbers 10 6 (server 0))

abbrev request : RequestVoteArgs
request = record { term = 1; candidate_id = 0; last_log_index = 0; last_log_term = 0 }

abbrev gave : Raft ℕ × RequestVoteReply
unfolding request_vote log_tail
gave =
    returned (blank, record { term = 0; vote_granted = false })
      (request_vote numbers 11 (server 1) request)

abbrev leads : Raft ℕ × ℕ × Bool
unfolding vote_reply log_tail stood
leads =
    returned (blank, 0, false)
      (vote_reply numbers stood.0 1 request (record { term = 0; vote_granted = true }))

abbrev cluster1 : Cluster ℕ
unfolding stood timed
cluster1 = timed 0 stood.0 stood.1 at_start

abbrev cluster2 : Cluster ℕ
unfolding gave asked cluster1
cluster2 = asked 1 gave.0 request gave.1 cluster1

abbrev cluster3 : Cluster ℕ
unfolding leads heard cluster2
cluster3 = heard 0 1 leads.0 leads.1 leads.2 cluster2

stood_lem : election_round numbers 10 6 (server 0) ≡ ok stood
unfolding stood log_tail
stood_lem = refl

gave_lem : request_vote numbers 11 (cluster1.servers 1) request ≡ ok gave
unfolding gave log_tail cluster1
gave_lem = refl

leads_lem :
    vote_reply numbers (cluster2.servers 0) 1 request (record { term = 0; vote_granted = true })
    ≡ ok leads
unfolding leads log_tail cluster2
leads_lem = refl

election : Run numbers 3 at_start cluster3
unfolding cluster3 cluster2 cluster1
election =
    more at_start cluster2 cluster3
      (more at_start cluster1 cluster2
        (more at_start at_start cluster1 (stop at_start)
          (timer at_start 0 10 6 stood.0 stood.1 (omega arith) stood_lem))
        (ask cluster1 1 11 request gave.0 gave.1 (omega arith) (λ e. omega (arith, e)) gave_lem))
      (hear cluster2 0 0 (record { voter = 1; request = request }) leads.0 leads.1 leads.2
        (omega arith) (inl refl) refl (λ h. elim h [ inl e ↦ omega (arith, e) | inr x ↦ x ])
        leads_lem)

abbrev first_win : Win
first_win = record { leader = 0; term = 1; voters = 1 ∷ 0 ∷ [] }

wins_lem : cluster3.wins ≡ first_win ∷ []
unfolding cluster3 log_tail
wins_lem = refl

first_win-Has : Has first_win cluster3.wins
unfolding cluster3 log_tail
first_win-Has = inl refl

one_election_per_term_example : first_win.leader ≡ first_win.leader
one_election_per_term_example =
    one_election_per_term numbers numbers-IsCodec 3 at_start cluster3 first_win first_win
      at_start-IsStart election first_win-Has first_win-Has refl

zero_leads : (cluster3.servers 0).state ≡ leader
unfolding cluster3 log_tail
zero_leads = refl

one_leader_per_term_example : first_win.leader ≡ 0
one_leader_per_term_example =
    one_leader_per_term numbers numbers-IsCodec 3 at_start cluster3 0 0 at_start-IsStart election
      zero_leads zero_leads refl
