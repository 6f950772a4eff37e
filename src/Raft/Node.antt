-- ===== src/Raft/Node.antt =====
-- The small steps of raft.go and persister.go that the handlers are made of.
use distributed_database.Prelude.{
  ℕ, ◌+◌, ◌/◌, Bool, true, false, ◌&&◌, List, none, length, ltb, leb, ◌==◌, if◌then◌else◌,
}
use distributed_database.Raft.Types.{
  State, follower, candidate, leader, Persister, Raft, Saved, Codec,
}

unfoldable pub same_state : State → State → Bool
same_state follower follower = true
same_state candidate candidate = true
same_state leader leader = true
same_state _ _ = false

-- persister.go. The copies that `clone` makes are the values themselves.
unfoldable pub make_persister : Persister
make_persister = record { raftstate = List.[]; snapshot = List.[] }

unfoldable pub copy : Persister → Persister
copy ps = record { raftstate = ps.raftstate; snapshot = ps.snapshot }

unfoldable pub save_raft_state : Persister → List ℕ → Persister
save_raft_state ps state = record ps { raftstate = state }

unfoldable pub read_raft_state : Persister → List ℕ
read_raft_state ps = ps.raftstate

unfoldable pub raft_state_size : Persister → ℕ
raft_state_size ps = length ps.raftstate

unfoldable pub save_state_and_snapshot : Persister → List ℕ → List ℕ → Persister
save_state_and_snapshot ps state snapshot = record { raftstate = state; snapshot = snapshot }

unfoldable pub read_snapshot : Persister → List ℕ
read_snapshot ps = ps.snapshot

unfoldable pub snapshot_size : Persister → ℕ
snapshot_size ps = length ps.snapshot

module _ {ℓ} {C : Type ℓ} where
  unfoldable pub majority : Raft C → ℕ
  majority rf = rf.peers / 2 + 1

  unfoldable pub is_majority : Raft C → ℕ → Bool
  unfolding majority
  is_majority rf vote = leb (majority rf) vote

  unfoldable pub get_state : Raft C → ℕ × Bool
  unfolding same_state
  get_state rf = (rf.term, same_state rf.state leader)

  unfoldable pub get_state_size : Raft C → ℕ
  unfolding raft_state_size
  get_state_size rf = raft_state_size rf.persister

  unfoldable pub become_follower : Raft C → Raft C
  become_follower rf = record rf { state = follower }

  unfoldable pub become_candidate : Raft C → Raft C
  become_candidate rf = record rf { state = candidate }

  unfoldable pub become_leader : Raft C → Raft C
  become_leader rf = record rf { state = leader }

  unfoldable pub kill : Raft C → Raft C
  kill rf = record rf { dead = 1 }

  unfoldable pub killed : Raft C → Bool
  killed rf = rf.dead == 1

  abbrev pub saved : Raft C → Saved C
  saved rf = record { term = rf.term; voted_for = rf.voted_for; log = rf.log }

module _ {ℓ} {C : Type ℓ} (codec : Codec C) where
  unfoldable pub serialize_state : Raft C → List ℕ
  serialize_state rf = codec.encode (saved rf)

  unfoldable pub persist : Raft C → Raft C
  unfolding serialize_state save_raft_state
  persist rf = record rf { persister = save_raft_state rf.persister (serialize_state rf) }

  unfoldable pub reset_term : ℕ → Raft C → Raft C
  unfolding persist
  reset_term term rf = persist (record rf { term = term; voted_for = none })

  -- The branches that AppendEntries and InstallSnapshot share once a message's term is accepted.
  unfoldable pub adopt_term : ℕ → Raft C → Raft C
  unfolding reset_term become_follower same_state
  adopt_term term rf =
      if same_state rf.state candidate && leb rf.term term
      then reset_term term (become_follower rf)
      else if same_state rf.state follower && ltb rf.term term
      then reset_term term rf
      else if same_state rf.state leader && ltb rf.term term
      then reset_term term (become_follower rf)
      else rf
