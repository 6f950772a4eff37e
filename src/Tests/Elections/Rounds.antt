-- ===== src/Tests/Elections/Rounds.antt =====
-- A round of checkOneLeader on the three servers after their election.
use distributed_database.Prelude.{ℕ, ◌≡◌, ◌⊎◌, Bool, true, none, some, ok, refl}
use distributed_database.Raft.Types.{Raft}
use distributed_database.Raft.Log.{log_tail}
use distributed_database.Raft.Cluster.{stop}
use distributed_database.Harness.{passed, leader_round}
use distributed_database.Harness.Leaders.Found.{Nobody, IsFound, leader_round_finds}
use distributed_database.Tests.Examples.{numbers, numbers-IsCodec}
use distributed_database.Tests.Elections.{at_start, at_start-IsStart, cluster3, election}

abbrev all_connected : ℕ → Bool
all_connected i = true

abbrev asked_at : ℕ → Raft ℕ
asked_at i = cluster3.servers i

leader_round_finds_example :
    ((leader_round 3 all_connected asked_at ≡ ok (passed none)) × Nobody all_connected asked_at 3)
    ⊎ ((i : ℕ) × (leader_round 3 all_connected asked_at ≡ ok (passed (some i)))
        × IsFound all_connected asked_at 3 i)
leader_round_finds_example =
    leader_round_finds numbers numbers-IsCodec 3 at_start (λ i. cluster3) at_start-IsStart election
      (λ i. stop cluster3) all_connected

-- The round finds server 0.
leader_zero : leader_round 3 all_connected asked_at ≡ ok (passed (some 0))
unfolding leader_round cluster3 log_tail
leader_zero = refl
