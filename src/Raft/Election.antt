-- ===== src/Raft/Election.antt =====
-- Elections in raft.go: the election timer, the candidate's handling of replies, and Start.
use distributed_database.Prelude.{
  ℕ, ◌+◌, ◌-◌, ◌%◌, Bool, true, false, ◌||◌, List, ◌++◌, Option, none, some, Go, ok, panic, ◌>>=◌,
  replicate, set, length, ltb, leb, ◌==◌, if◌then◌else◌, not, drop,
}
use distributed_database.Raft.Types.{
  leader, candidate, LogEntry, Raft, RequestVoteArgs, RequestVoteReply, Codec,
}
use distributed_database.Raft.Log.{log_tail}
use distributed_database.Raft.Node.{
  same_state, is_majority, become_follower, become_candidate, become_leader, persist, reset_term,
}

-- xs[i] = v, and xs[i] += n: a subscript out of range faults.
abbrev pub write {ℓ} : {A : Type ℓ} → List A → ℕ → A → Go (List A)
write xs i v = if ltb i (length xs) then ok (set xs i v) else panic

-- for i := 0; i < len(rf.peers); i++ { xs[i] = v }
unfoldable pub fill : ℕ → ℕ → List ℕ → Go (List ℕ)
fill peers v xs = if leb peers (length xs) then ok (replicate peers v ++ drop peers xs) else panic

-- Nanoseconds.
abbrev pub election_timeout_max : ℕ
election_timeout_max = 600000000

abbrev pub election_timeout_min : ℕ
election_timeout_min = 500000000

-- NextElectionTimeout, with the random number that rand.Int63n reduces to its range.
unfoldable pub next_election_timeout : ℕ → ℕ
next_election_timeout random =
    random % (election_timeout_max - election_timeout_min) + election_timeout_min

module _ {ℓ} {C : Type ℓ} where
  unfoldable pub vote_request : Raft C → LogEntry C → RequestVoteArgs
  vote_request rf tail = record {
    term = rf.term;
    candidate_id = rf.me;
    last_log_index = tail.index;
    last_log_term = tail.term;
  }

  -- The lines that make a candidate with a majority the leader.
  unfoldable pub take_office : Raft C → Go (Raft C)
  unfolding log_tail fill become_leader
  take_office rf = do
    tail ← log_tail rf.log
    next_index ← fill rf.peers (tail.index + 1) rf.next_index
    zeroed ← fill rf.peers 0 rf.match_index
    match_index ← write zeroed rf.me tail.index
    ok (become_leader (record rf { next_index = next_index; match_index = match_index }))

  unfoldable pub count_vote : Raft C → ℕ → Go (Raft C × ℕ × Bool)
  unfolding is_majority take_office
  count_vote rf vote =
      if is_majority rf (vote + 1)
      then (do elected ← take_office rf; ok (elected, vote + 1, true))
      else ok (rf, vote + 1, false)

  unfoldable pub need_heartbeat : Raft C → Bool
  unfolding same_state
  need_heartbeat rf = same_state rf.state leader

module _ {ℓ} {C : Type ℓ} (codec : Codec C) where
  -- Becoming a candidate: rf.resetTerm(rf.term + 1) and the lines below it.
  unfoldable pub stand : ℕ → Raft C → Raft C
  unfolding reset_term become_candidate persist
  stand new_timeout rf =
      let next = reset_term codec (rf.term + 1) (record rf { election_timeout = new_timeout }) in
      persist codec (record (become_candidate next) { voted_for = some rf.me })

  -- One round of DoElection's loop after its sleep, at time `now`, with the next timeout drawn
  -- beforehand. The request, if there is one, goes to every other peer.
  unfoldable pub election_round : ℕ → ℕ → Raft C → Go (Raft C × Option RequestVoteArgs)
  unfolding same_state stand log_tail vote_request
  election_round now new_timeout rf =
      if same_state rf.state leader
      then ok (rf, none)
      else if leb rf.election_timeout (now - rf.last_heartbeat)
      then (do
        let standing = stand new_timeout rf
        tail ← log_tail standing.log
        ok (standing, some (vote_request standing tail)))
      else ok (rf, none)

  -- A reply to the request `args`: the server, the election's count of votes, and whether
  -- heartbeats go out to every other peer.
  unfoldable pub vote_reply :
      Raft C → ℕ → RequestVoteArgs → RequestVoteReply → Go (Raft C × ℕ × Bool)
  unfolding same_state become_follower reset_term count_vote
  vote_reply rf vote args reply =
      if not (same_state rf.state candidate) || not (rf.term == args.term)
      then ok (rf, vote, false)
      else if ltb rf.term reply.term
      then ok (reset_term codec reply.term (become_follower rf), vote, false)
      else if reply.vote_granted
      then count_vote rf vote
      else ok (rf, vote, false)
