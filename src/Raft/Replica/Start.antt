-- ===== src/Raft/Replica/Start.antt =====
-- Start on a leader, and the log.
use distributed_database.Prelude.{
  ℕ, ◌+◌, ◌-◌, ◌<◌, ◌≡◌, refl, ap, sym, ◌∙◌, [], ◌∷◌, ◌++◌, Option, some, true, ok, length,
  length-append, get_elem?, get_elem?-lt, get_elem?-append_left, get_elem?-append_right, arith,
  lt→ltb, set, List, Bool-cases, ltb, ltb→lt, ltb→ge, inl, inr, ◌↔◌,
}
use distributed_database.Raft.Types.{Raft, LogEntry, State, leader, Codec}
use distributed_database.Raft.Node.{saved, persist, same_state}
use distributed_database.Raft.Log.{get_log_at_index}
use distributed_database.Raft.Log.Contiguous.{
  IsLog, Contiguous-append, get_log_at_index-from, get_log_at_index-below, log_tail-index,
}
use distributed_database.Raft.Leader.{StartReply, start_append, start}
use distributed_database.Raft.Replica.{IsReplica}

module _ {ℓ} {C : Type ℓ} where
  append-IsLog :
      (n : ℕ) (log : List (LogEntry C)) (e : LogEntry C)
      → IsLog n log
      → e.index ≡ n + length log
      → IsLog n (log ++ e ∷ [])
  append-IsLog n log e l place = record {
    nonempty = omega (arith, length-append log (e ∷ []));
    counts = Contiguous-append n log (e ∷ []) l.counts (place, tt);
  }

  append-get :
      (n j : ℕ) (log : List (LogEntry C)) (e : LogEntry C)
      → IsLog n log
      → IsLog n (log ++ e ∷ [])
      → j < n + length log
      → get_log_at_index (log ++ e ∷ []) j ≡ get_log_at_index log j
  append-get n j log e l l' lt = elim (Bool-cases (ltb j n)) [
    | inl below ↦
        get_log_at_index-below n j (log ++ e ∷ []) l' (ltb→lt j n below)
        ∙ sym (get_log_at_index-below n j log l (ltb→lt j n below))
    | inr from ↦
        let le = ltb→ge j n from in
        get_log_at_index-from n j (log ++ e ∷ []) l' le
        ∙ ap ok (get_elem?-append_left log (e ∷ []) (j - n) (omega arith))
        ∙ sym (get_log_at_index-from n j log l le)
  ]

module _ {ℓ} {C : Type ℓ} (codec : Codec C) where
  -- The first part of Start on a leader does not fault: the log has the command behind its end, in
  -- the leader's term, and at every index `j` before what it had there; the new log is on the disk,
  -- and the invariant holds.
  pub start_append-looked_up :
      (n j : ℕ) (command : Option C) (rf : Raft C)
      → IsReplica n rf
      → j < n + length rf.log
      → rf.state ≡ leader
      → rf.me < length rf.match_index
      → (r : Raft C) × (i : ℕ) × (start_append codec command rf ≡ ok (r, some i))
        × (get_log_at_index r.log i
            ≡ ok (some (record { term = rf.term; index = i; command = command })))
        × (get_log_at_index r.log j ≡ get_log_at_index rf.log j)
        × (r.persister.raftstate ≡ codec.encode (saved r))
        × IsReplica n r
  unfolding start_append
  start_append-looked_up n j command rf v old up me =
      let (tail, is_tail, at, end) = log_tail-index n rf.log v.is_log in
      let e : LogEntry C = record { term = rf.term; index = tail.index + 1; command = command } in
      let log = rf.log ++ e ∷ [] in
      let l : IsLog n log = append-IsLog n rf.log e v.is_log end in
      let front : tail.index + 1 - n - length rf.log ≡ 0 = omega (arith, end) in
      let (mine, there) = get_elem?-lt rf.match_index rf.me me in
      let appended = persist codec (record rf { log = log }) in
      (
        record appended { match_index = set rf.match_index rf.me (mine + 1) },
        tail.index + 1,
        rw (up, is_tail, there, lt→ltb rf.me (length rf.match_index) me) refl,
        get_log_at_index-from n (tail.index + 1) log l (omega (arith, end))
            ∙ ap ok (
                get_elem?-append_right rf.log (e ∷ []) (tail.index + 1 - n) (omega (arith, end))
                ∙ ap (get_elem? (e ∷ [])) front),
        append-get n j rf.log e v.is_log l old,
        (unfold persist in refl),
        record {
          is_log = l;
          base_applied = v.base_applied;
          applied_committed = v.applied_committed;
          committed = omega (arith, v.committed, length-append rf.log (e ∷ []));
        },
      )

  same_state-leader_iff : (s : State) → (same_state s leader ≡ true) ↔ (s ≡ leader)
  unfolding same_state
  same_state-leader_iff s = (ground arith, ground arith)

  -- On a leader with the invariant Start does not fault, whatever the other goroutines make of the
  -- server while its broadcast has let go of the lock. By then the log has the command behind its
  -- end in the leader's term, every index before has what it had, the new log is on the disk, and
  -- the invariant holds. The answer is the command's index, with the term that the server has when
  -- the lock is taken again, and whether it leads then.
  pub start-looked_up :
      (n j : ℕ) (command : Option C) (gap : Raft C → Raft C) (rf : Raft C)
      → IsReplica n rf
      → j < n + length rf.log
      → rf.state ≡ leader
      → rf.me < length rf.match_index
      → (r : Raft C) × (i : ℕ) × (reply : StartReply) × (start codec command gap rf
          ≡ ok (gap r, reply))
        × (get_log_at_index r.log i
            ≡ ok (some (record { term = rf.term; index = i; command = command })))
        × (get_log_at_index r.log j ≡ get_log_at_index rf.log j)
        × (r.persister.raftstate ≡ codec.encode (saved r))
        × IsReplica n r
        × (reply.index ≡ some i)
        × (reply.term ≡ some (gap r).term)
        × ((reply.is_leader ≡ true) ↔ ((gap r).state ≡ leader))
  unfolding start
  start-looked_up n j command gap rf v old up me =
      let (r, i, ran, there, kept, disk, holds) =
        start_append-looked_up n j command rf v old up me in
      (
        r,
        i,
        record {
          index = some i;
          term = some (gap r).term;
          is_leader = same_state (gap r).state leader;
        },
        rw ran refl,
        there,
        kept,
        disk,
        holds,
        refl,
        refl,
        same_state-leader_iff (gap r).state,
      )
