-- ===== src/Raft/Leader/Heartbeats.antt =====
-- Whom a leader sends its heartbeats to.
use distributed_database.Prelude.{
  ℕ, zero, suc, ◌+◌, ◌≤◌, ◌<◌, ◌≡◌, ◌≢◌, ◌↔◌, subst, ◌⊎◌, inl, inr, Has, Distinct, arith, ◌==◌,
  ==_iff, Bool-cases,
}
use distributed_database.Raft.Types.{Raft, leader}
use distributed_database.Raft.Election.{need_heartbeat}
use distributed_database.Raft.Leader.{other_peers, broadcast_heartbeat, heartbeat_round}

Has-other_peers : (me i n j : ℕ) → Has j (other_peers me i n) → (i ≤ j) × (j < i + n) × (j ≢ me)
unfolding other_peers
Has-other_peers me i zero j h = absurd h
Has-other_peers me i (suc n) j h = elim (Bool-cases (i == me)) [
  | inl same ↦ further (Has-other_peers me (i + 1) n j (rw same at h))
  | inr apart ↦
      first (λ e. ground (arith, e, apart)) (Has-other_peers me (i + 1) n j) (rw apart at h)
]
  where
    further : (i + 1 ≤ j) × (j < i + 1 + n) × (j ≢ me) → (i ≤ j) × (j < i + suc n) × (j ≢ me)
    further (from, to, ne) = (omega arith, omega arith, ne)

    first :
        i ≢ me
        → (Has j (other_peers me (i + 1) n) → (i + 1 ≤ j) × (j < i + 1 + n) × (j ≢ me))
        → (i ≡ j) ⊎ Has j (other_peers me (i + 1) n)
        → (i ≤ j) × (j < i + suc n) × (j ≢ me)
    first ne rest (inl here) = (omega arith, omega arith, subst (λ k. k ≢ me) here ne)
    first ne rest (inr later) = further (rest later)

other_peers-Has : (me i n j : ℕ) → i ≤ j → j < i + n → j ≢ me → Has j (other_peers me i n)
unfolding other_peers
other_peers-Has me i zero j from to ne = absurd (omega arith)
other_peers-Has me i (suc n) j from to ne = elim (Bool-cases (i == me)) [
  | inl same ↦
      let apart : i ≢ j = λ e. ne (ground (arith, e, same)) in
      rw same (other_peers-Has me (i + 1) n j (omega (arith, apart)) (omega arith) ne)
  | inr other ↦ rw other (elim (Bool-cases (i == j)) [
    | inl here ↦ inl ((==_iff i j).0 here)
    | inr later ↦
        let apart : i ≢ j = λ e. ground (arith, e, later) in
        inr (other_peers-Has me (i + 1) n j (omega (arith, apart)) (omega arith) ne)
  ])
]

other_peers-Distinct : (me i n : ℕ) → Distinct (other_peers me i n)
unfolding other_peers
other_peers-Distinct me i zero = tt
other_peers-Distinct me i (suc n) = elim (Bool-cases (i == me)) [
  | inl same ↦ rw same (other_peers-Distinct me (i + 1) n)
  | inr apart ↦
      rw apart (
        λ h. omega (arith, (Has-other_peers me (i + 1) n i h).0),
        other_peers-Distinct me (i + 1) n,
      )
]

module _ {ℓ} {C : Type ℓ} where
  -- A round of a leader's heartbeat loop starts one Replicate for each peer but the leader itself,
  -- and for no other.
  heartbeat_round-Has :
      (rf : Raft C) (j : ℕ)
      → rf.state ≡ leader
      → Distinct (heartbeat_round rf)
        × (Has j (heartbeat_round rf) ↔ ((j < rf.peers) × (j ≢ rf.me)))
  unfolding heartbeat_round broadcast_heartbeat need_heartbeat
  heartbeat_round-Has rf j up = rw up (
    other_peers-Distinct rf.me 0 rf.peers,
    (
      λ h. (let (from, to, ne) = Has-other_peers rf.me 0 rf.peers j h in (omega arith, ne)),
      λ h. other_peers-Has rf.me 0 rf.peers j (omega arith) (omega (arith, h.0)) h.1,
    ),
  )
