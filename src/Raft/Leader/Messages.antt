-- ===== src/Raft/Leader/Messages.antt =====
-- What the leader sends: the entries that its log has behind the previous one.
use distributed_database.Prelude.{
  ℕ, zero, suc, ◌+◌, ◌-◌, ◌≤◌, ◌<◌, ◌≡◌, refl, ap, subst, ◌∙◌, List, [], ◌∷◌, some, false, ok,
  length, get_elem?, get_elem?-lt, drop, arith, leb,
}
use distributed_database.Raft.Types.{Raft, LogEntry, leader}
use distributed_database.Raft.Log.{get_log_at_index}
use distributed_database.Raft.Log.Contiguous.{
  Contiguous, IsLog, Contiguous-drop, get_log_at_index-from, log_tail-index, log_head-index,
  index-get_elem?,
}
use distributed_database.Raft.Leader.{append, collect, append_message, replicate}

module _ {ℓ} {C : Type ℓ} where
  pub drop-cons :
      (k : ℕ) (xs : List (LogEntry C)) (x : LogEntry C)
      → get_elem? xs k ≡ some x
      → drop k xs ≡ x ∷ drop (suc k) xs
  drop-cons k [] x h = cc
  drop-cons zero (y ∷ xs) x h = ground arith
  drop-cons (suc k) (y ∷ xs) x h = drop-cons k xs x h

  pub drop-all : (k : ℕ) (xs : List (LogEntry C)) → length xs ≤ k → drop k xs ≡ []
  drop-all zero [] h = refl
  drop-all (suc k) [] h = refl
  drop-all zero (x ∷ xs) h = absurd (omega arith)
  drop-all (suc k) (x ∷ xs) h = drop-all k xs (omega arith)

  -- The loop over the indices from `i` to the end collects the end of the log.
  collect-drop :
      (n i rounds : ℕ) (log : List (LogEntry C))
      → IsLog n log
      → n ≤ i
      → i + rounds ≡ n + length log
      → collect log i rounds ≡ ok (drop (i - n) log)
  unfolding collect
  collect-drop n i zero log hl from end = rw (drop-all (i - n) log (omega arith))
  collect-drop n i (suc rounds) log hl from end =
      let (e, at) = get_elem?-lt log (i - n) (omega arith) in
      let next : (i + 1) - n ≡ suc (i - n) = omega arith in
      rw (
        get_log_at_index-from n i log hl from,
        at,
        collect-drop n (i + 1) rounds log hl (omega arith) (omega arith),
        next,
        drop-cons (i - n) log e at,
      )

  pub append_message-lem :
      (n next : ℕ) (rf : Raft C) (prev : LogEntry C)
      → IsLog n rf.log
      → n < next
      → next ≤ n + length rf.log
      → get_log_at_index rf.log (next - 1) ≡ ok (some prev)
      → prev.index ≡ next - 1
      → append_message rf next
        ≡ ok (record {
          term = rf.term;
          leader_id = rf.me;
          prev_log_index = next - 1;
          prev_log_term = prev.term;
          entries = drop (next - n) rf.log;
          leader_commit = rf.commit_index;
        })
  unfolding append_message
  append_message-lem n next rf prev hl above close at place =
      let (tail, is_tail, _, end) = log_tail-index n rf.log hl in
      rw
        (
          is_tail,
          collect-drop n next (tail.index + 1 - next) rf.log hl (omega arith) (omega arith),
          at,
        )
        (ground arith)

  -- A leader that has not compacted the peer's next entry away sends it everything from there on: it
  -- does not fault, and the message has the leader's term and commit index, the entry before the
  -- next one as the previous one, and all entries of the log behind that.
  replicate-append :
      (n next peer : ℕ) (rf : Raft C)
      → IsLog n rf.log
      → rf.state ≡ leader
      → get_elem? rf.next_index peer ≡ some next
      → n < next
      → next ≤ n + length rf.log
      → (prev : LogEntry C) × (get_log_at_index rf.log (next - 1) ≡ ok (some prev))
        × (replicate peer rf
            ≡ ok (
                append (record {
                  term = rf.term;
                  leader_id = rf.me;
                  prev_log_index = next - 1;
                  prev_log_term = prev.term;
                  entries = drop (next - n) rf.log;
                  leader_commit = rf.commit_index;
                })))
        × Contiguous (suc (next - 1)) (drop (next - n) rf.log)
  unfolding replicate
  replicate-append n next peer rf hl leads at above close =
      let (prev, here) = get_elem?-lt rf.log (next - 1 - n) (omega arith) in
      let found : get_log_at_index rf.log (next - 1) ≡ ok (some prev) =
        get_log_at_index-from n (next - 1) rf.log hl (omega arith) ∙ ap ok here in
      let place : prev.index ≡ next - 1 =
        omega (arith, index-get_elem? n (next - 1 - n) rf.log prev hl.counts here) in
      let (first, is_first, base) = log_head-index n rf.log hl in
      let room : leb next first.index ≡ false = ground arith in
      let start : n + (next - n) ≡ suc (next - 1) = omega arith in
      (
        prev,
        found,
        rw (
          leads,
          at,
          is_first,
          room,
          append_message-lem n next rf prev hl above close found place,
        ),
        subst (λ k. Contiguous k (drop (next - n) rf.log)) start
            (Contiguous-drop (next - n) n rf.log hl.counts),
      )
