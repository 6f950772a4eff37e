-- ===== src/Harness/Agreement.antt =====
-- `one` of raft/config.go: a whole agreement. Time is told by what there is to see: the rounds that
-- begin in its ten seconds, and in each round the looks at the reports that its two seconds allow.
pub mod Counted
pub mod Reached
pub mod Found
use distributed_database.Prelude.{
  ℕ, zero, suc, ◌+◌, ◌%◌, Bool, true, false, ◌&&◌, List, [], ◌∷◌, Option, none, some, Go, ok, ◌>>=◌,
  ltb, leb, if◌then◌else◌, Eq,
}
use distributed_database.Raft.Types.{Raft, Codec}
use distributed_database.Raft.Leader.{start}
use distributed_database.Harness.{Judged, passed, failed}
use distributed_database.Harness.Applier.{n_committed}

-- What a round sees: which servers are connected, each server when it is asked, where a crashed one
-- is none, what becomes of it while its Start is without the lock, and all servers' reports at each
-- look.
pub record Round (C : Type 0) : Type 0 where
  pub connected : ℕ → Bool
  pub seen : ℕ → Option (Raft C)
  pub gap : ℕ → Raft C → Raft C
  pub polls : List (List (List (ℕ × Option C)))

module _ {C : Type 0} (codec : Codec C) where
  -- The loop over the servers, with `starts`: the server that took the command, after its Start,
  -- and the index that it answered.
  unfoldable pub try_servers : Option C → ℕ → Round C → ℕ → ℕ → Go (ℕ × Option (Raft C × Option ℕ))
  unfolding start
  try_servers cmd n r zero starts = ok (starts, none)
  try_servers cmd n r (suc m) starts =
      let s = (starts + 1) % n in
      let rest = try_servers cmd n r m s in
      if r.connected s
      then elim (r.seen s) [
        | none ↦ rest
        | some rf ↦ do
          (next, reply) ← start codec cmd (r.gap s) rf
          if reply.is_leader then ok (s, some (next, reply.index)) else rest
      ]
      else rest

-- What follows the wait: the index, another round or the end of the test.
unfoldable pub conclude : Bool → ℕ → Judged Bool → Go (Judged ℕ) → Go (Judged ℕ)
conclude retry index failed rest = ok failed
conclude retry index (passed true) rest = ok (passed index)
conclude retry index (passed false) rest = if retry then rest else ok failed

module _ {C : Type 0} ⦃e : Eq (Option C)⦄ where
  -- The loop that waits for agreement: whether it is reached before the two seconds are over.
  unfoldable pub poll : Option C → ℕ → ℕ → List (List (List (ℕ × Option C))) → Judged Bool
  unfolding n_committed
  poll cmd expected_servers index [] = passed false
  poll cmd expected_servers index (logs ∷ polls) =
      let rest = poll cmd expected_servers index polls in
      elim (n_committed index logs 0 none) [
        | failed ↦ failed
        | passed (nd, cmd1) ↦
            if ltb 0 nd && leb expected_servers nd && e.beq cmd1 cmd then passed true else rest
      ]

  unfoldable pub one : Codec C → Option C → ℕ → Bool → ℕ → ℕ → List (Round C) → Go (Judged ℕ)
  unfolding try_servers poll conclude
  one codec cmd expected_servers retry n starts [] = ok failed
  one codec cmd expected_servers retry n starts (r ∷ rounds) = do
    (s, found) ← try_servers codec cmd n r n starts
    let rest = one codec cmd expected_servers retry n s rounds
    elim found [
      | none ↦ rest
      | some (next, none) ↦ rest
      | some (next, some index) ↦
          conclude retry index (poll cmd expected_servers index r.polls) rest
    ]
