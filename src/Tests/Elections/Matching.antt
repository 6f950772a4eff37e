-- ===== src/Tests/Elections/Matching.antt =====
-- A leader among three servers starts a command, and one of the others takes it in.
use distributed_database.Prelude.{
  Option, ℕ, ◌≡◌, refl, [], ◌∷◌, ◌⊎◌, none, some, true, ok, inl, inr, arith,
}
use distributed_database.Raft.Types.{Raft, AppendEntriesArgs, AppendEntriesReply}
use distributed_database.Raft.Log.{get_log_at_index, log_head, log_tail, log_index_to_subscript}
use distributed_database.Raft.Append.{append_entries, refusal}
use distributed_database.Raft.Leader.{append, start_append, replicate, collect}
use distributed_database.Raft.Boot.{blank_entry}
use distributed_database.Raft.Cluster.{Cluster, timer, ask, hear, handled}
use distributed_database.Raft.Network.{
  Network, begun, Passes, none_yet, and_then, elect, begin, send, deliver,
}
use distributed_database.Raft.Network.Matching.{IsBlank, log_matching}
use distributed_database.Raft.Network.Acknowledged.{success_matches}
use distributed_database.Tests.Examples.{numbers, numbers-IsCodec, returned, blank, entry}
use distributed_database.Tests.Elections.{
  at_start, at_start-IsStart, cluster1, cluster2, cluster3, stood, gave, leads, request, stood_lem,
  gave_lem, leads_lem,
}

abbrev over : Cluster ℕ → Network ℕ
over c = record { cluster = c; sent = []; born = [] }

over-IsBlank : IsBlank numbers numbers-IsCodec 3 (over at_start)
unfolding blank_entry
over-IsBlank = record { start = at_start-IsStart; logs = λ i. refl; no_sent = refl; no_born = refl }

abbrev begins : Raft ℕ × Option ℕ
unfolding start_append log_tail cluster3
begins = returned (blank, none) (start_append numbers (some 7) (cluster3.servers 0))

begins_lem : start_append numbers (some 7) (cluster3.servers 0) ≡ ok begins
unfolding begins log_tail cluster3
begins_lem = refl

abbrev net1 : Network ℕ
unfolding begins begun cluster3
net1 = begun 0 (some 7) begins.0 begins.1 (over cluster3)

abbrev message : AppendEntriesArgs ℕ
message = record {
  term = 1;
  leader_id = 0;
  prev_log_index = 0;
  prev_log_term = 0;
  entries = entry 1 1 7 ∷ [];
  leader_commit = 0;
}

message_lem : replicate 1 (net1.cluster.servers 0) ≡ ok (append message)
unfolding net1 replicate log_tail get_log_at_index log_index_to_subscript collect handled
message_lem = refl

abbrev net2 : Network ℕ
unfolding net1
net2 = record net1 { sent = message ∷ net1.sent }

abbrev takes : Raft ℕ × AppendEntriesReply
unfolding append_entries log_tail net2
takes = returned (blank, refusal 0 0 0) (append_entries numbers 12 (net2.cluster.servers 1) message)

takes_lem : append_entries numbers 12 (net2.cluster.servers 1) message ≡ ok takes
unfolding takes log_tail net2 handled
takes_lem = refl

abbrev net3 : Network ℕ
unfolding takes net2
net3 = record net2 { cluster = handled 1 takes.0 net2.cluster }

elected : Passes numbers 3 (over at_start) (over cluster3)
unfolding cluster3 cluster2 cluster1
elected =
    and_then (over at_start) (over cluster2) (over cluster3)
      (and_then (over at_start) (over cluster1) (over cluster2)
        (and_then (over at_start) (over at_start) (over cluster1) (none_yet (over at_start)) (
          elect (over at_start) cluster1
            (timer at_start 0 10 6 stood.0 stood.1 (omega arith) stood_lem) tt))
        (elect (over cluster1) cluster2
          (ask cluster1 1 11 request gave.0 gave.1 (omega arith) (λ e. omega (arith, e)) gave_lem)
          tt))
      (elect (over cluster2) cluster3
        (hear cluster2 0 0 (record { voter = 1; request = request }) leads.0 leads.1 leads.2
          (omega arith) (inl refl) refl (λ h. elim h [ inl e ↦ omega (arith, e) | inr x ↦ x ])
          leads_lem)
        tt)

leader_ready : Passes numbers 3 (over at_start) net1
unfolding net1
leader_ready =
    and_then (over at_start) (over cluster3) net1 elected
      (begin (over cluster3) 0 (some 7) begins.0 begins.1 (omega arith) begins_lem)

delivered : Passes numbers 3 net1 net3
unfolding net3 net2
delivered =
    and_then net1 net2 net3
      (and_then net1 net1 net2 (none_yet net1) (send net1 0 1 message (omega arith) message_lem))
      (deliver net2 1 12 message takes.0 takes.1 (omega arith) (inl refl) (λ e. omega (arith, e))
        takes_lem)

at_zero : get_log_at_index (net1.cluster.servers 0).log 1 ≡ ok (some (entry 1 1 7))
unfolding net1 get_log_at_index handled
at_zero = refl

at_one : get_log_at_index (net3.cluster.servers 1).log 1 ≡ ok (some (entry 1 1 7))
unfolding net3 get_log_at_index handled
at_one = refl

log_matching_example :
    ((entry 1 1 7).term ≡ (entry 1 1 7).term)
    × ((log_head (net1.cluster.servers 0).log ≡ ok (entry 1 1 7))
        ⊎ (log_head (net3.cluster.servers 1).log ≡ ok (entry 1 1 7))
        ⊎ (entry 1 1 7 ≡ entry 1 1 7))
log_matching_example =
    log_matching numbers numbers-IsCodec 3 (over at_start) net1 net3 0 1 1 1 (entry 1 1 7)
      (entry 1 1 7) (entry 1 1 7) (entry 1 1 7) over-IsBlank leader_ready delivered at_zero at_one
      refl (omega arith) at_zero at_one

taken_lem : takes.1.success ≡ true
unfolding takes log_tail net2 handled
taken_lem = refl

taken_one : get_log_at_index takes.0.log 1 ≡ ok (some (entry 1 1 7))
unfolding takes log_tail net2 get_log_at_index handled
taken_one = refl

success_matches_example :
    ((entry 1 1 7).term ≡ (entry 1 1 7).term)
    × ((log_head (net1.cluster.servers 0).log ≡ ok (entry 1 1 7))
        ⊎ (log_head takes.0.log ≡ ok (entry 1 1 7))
        ⊎ (entry 1 1 7 ≡ entry 1 1 7))
unfolding net2
success_matches_example =
    success_matches numbers numbers-IsCodec 3 (over at_start) net1 net2 0 1 1 12 0 1 message takes.0
      takes.1 (entry 1 1 7) (entry 1 1 7) (entry 1 1 7) over-IsBlank leader_ready (omega arith)
      message_lem (none_yet net2) (omega arith) (λ e. omega (arith, e)) takes_lem taken_lem refl
      (omega arith) at_zero taken_one
