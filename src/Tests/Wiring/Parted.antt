-- ===== src/Tests/Wiring/Parted.antt =====
-- Partitions of three servers.
use distributed_database.Prelude.{
  ℕ, zero, suc, ◌<◌, ◌≡◌, ◌≢◌, refl, Bool, true, false, ◌&&◌, ◌||◌, List, [], ◌∷◌, some, ok, arith,
}
use distributed_database.Raft.Types.{Raft, leader, follower}
use distributed_database.Raft.Node.{get_state}
use distributed_database.Harness.Wires.{among, links}
use distributed_database.Harness.Parts.{make_partition, partition, find_leader, deal, store_last}
use distributed_database.Harness.Parts.Divided.{partition-divides}
use distributed_database.Harness.Parts.Sides.{IsHalved}
use distributed_database.Harness.Parts.Minority.{leader_cut_off}
use distributed_database.Tests.Examples.{server}
use distributed_database.Tests.Wiring.{switches, name, rows3, rows3-IsWired}

-- Server 1 leads.
abbrev led : ℕ → Raft ℕ
led (suc zero) = record server { state = leader }
led _ = record server { state = follower }

led_first : (k : ℕ) → k < 1 → (led k).state ≢ leader
led_first zero h = λ e. cc
led_first (suc k) h = absurd (omega (arith, h))

partition-divides_example :
    (out : ℕ → Bool) × (partition switches rows3 (0 ∷ 2 ∷ []) (1 ∷ []) (λ x. true) ≡ ok out)
    × (links switches name out 0 1 ≡ false)
partition-divides_example =
    partition-divides switches rows3-IsWired (0 ∷ 2 ∷ []) (1 ∷ []) (λ x. true)
      (record { each = (omega arith, (omega arith, tt)); fits = omega arith })
      (record { each = (omega arith, tt); fits = omega arith }) (λ k. ground arith) 0 1
      (omega arith) (omega arith)

leader_cut_off_example :
    (p1 : List ℕ) × (p2 : List ℕ) × (out : ℕ → Bool) × (make_partition 3 (λ k. some (led k))
      ≡ ok (p1, p2))
    × (partition switches rows3 p1 p2 (λ x. false) ≡ ok out)
    × IsHalved 3 1 p1 p2
    × (links switches name out 0 2 ≡ ((among 0 p1 && among 2 p1) || (among 0 p2 && among 2 p2)))
leader_cut_off_example =
    leader_cut_off switches rows3-IsWired led 1 (λ x. false) refl (omega arith) (omega arith) refl
      led_first 0 2 (omega arith) (omega arith)

-- With three servers the leader is alone; with four, server 0 is on both sides.
halves3 : make_partition 3 (λ k. some (led k)) ≡ ok (0 ∷ 2 ∷ [], 1 ∷ [])
unfolding make_partition find_leader deal store_last get_state
halves3 = refl

halves4 : make_partition 4 (λ k. some (led k)) ≡ ok (0 ∷ 2 ∷ 3 ∷ [], 0 ∷ 1 ∷ [])
unfolding make_partition find_leader deal store_last get_state
halves4 = refl
