-- ===== src/Raft/Replica/Append.antt =====
-- AppendEntries and the invariant.
use distributed_database.Prelude.{
  ℕ, suc, ◌+◌, ◌-◌, ◌≤◌, ◌<◌, ◌≡◌, ap, subst, subst₂, ◌∙◌, List, some, inl, inr, true, ok, length,
  get_elem?, get_elem?-lt, lt_of_get_elem?, arith, Option, none, [], ◌∷◌, >>=-eq-ok, Bool-cases,
  ltb,
}
use distributed_database.Raft.Types.{LogEntry, Raft, AppendEntriesArgs, AppendEntriesReply, Codec}
use distributed_database.Raft.Log.{get_log_at_index}
use distributed_database.Raft.Log.Contiguous.{Contiguous, get_log_at_index-from}
use distributed_database.Raft.Node.{persist}
use distributed_database.Raft.Append.{
  append_entries, merge_entries, follow_commit, accept_entries, check_prev,
}
use distributed_database.Raft.Append.Merged.{merged, IsLog-merged}
use distributed_database.Raft.Append.Handler.{
  HasPrev, HasPrev-close, Outcome, append_entries-Outcome,
}
use distributed_database.Raft.Append.Agreement.{
  LogMatching, SameTermsTo, get_elem?-merged, get_elem?-merged_kept,
}
use distributed_database.Raft.Replica.{IsReplica}

module _ {ℓ} {C : Type ℓ} (codec : Codec C) where
  -- A message whose term is not old, and whose entries follow on its previous one.
  pub record IsCurrent (rf : Raft C) (args : AppendEntriesArgs C) : Type ℓ where
    pub current : rf.term ≤ args.term
    pub counts : Contiguous (suc args.prev_log_index) args.entries

  -- What Leader Completeness says of a leader's message, which is assumed here and not proved: where
  -- the message has entries that are committed here, it has them in the terms that they have here.
  abbrev pub HasCommitted : ℕ → Raft C → AppendEntriesArgs C → Type ℓ
  HasCommitted n rf args =
      SameTermsTo rf.commit_index n (suc args.prev_log_index) rf.log args.entries

  stays_committed :
      (n : ℕ) (rf : Raft C) (args : AppendEntriesArgs C)
      → IsReplica n rf
      → IsCurrent rf args
      → HasCommitted n rf args
      → HasPrev n rf.log args
      → rf.commit_index < n + length (merged n (suc args.prev_log_index) rf.log args.entries)
  stays_committed n rf args v f k prev =
      let (l, at) =
        get_elem?-lt rf.log (rf.commit_index - n)
          (omega (arith, v.base_applied, v.applied_committed, v.committed)) in
      omega (
        arith,
        v.base_applied,
        v.applied_committed,
        lt_of_get_elem? (merged n (suc args.prev_log_index) rf.log args.entries)
            (rf.commit_index - n) l
            (get_elem?-merged_kept n (suc args.prev_log_index) rf.commit_index rf.commit_index
              rf.log args.entries l (HasPrev-close n rf.log args v.is_log prev) k (omega arith)
              (omega (arith, v.base_applied, v.applied_committed)) at),
      )

  -- On a server with the invariant a message whose term is not old, whose entries follow on its
  -- previous one and which has the committed entries in the terms that they have here never faults:
  -- the handler returns, and its answer is either a refusal that leaves the log and the commit index
  -- alone, or a success after which the log is the old one with the message's entries merged in, and
  -- the commit index has not fallen. That a leader's message has those terms is assumed.
  pub append_entries-returns :
      (n now : ℕ) (rf : Raft C) (args : AppendEntriesArgs C)
      → IsReplica n rf
      → IsCurrent rf args
      → HasCommitted n rf args
      → (r : Raft C) × (reply : AppendEntriesReply) × (append_entries codec now rf args
          ≡ ok (r, reply))
        × Outcome n rf.log rf.commit_index args r reply
  append_entries-returns n now rf args v f k =
      append_entries-Outcome codec n now rf args v.is_log f.counts f.current
        (stays_committed n rf args v f k)

  what_append_entries_does :
      (n now : ℕ) (rf : Raft C) (args : AppendEntriesArgs C) (r : Raft C)
      (reply : AppendEntriesReply)
      → IsReplica n rf
      → IsCurrent rf args
      → HasCommitted n rf args
      → append_entries codec now rf args ≡ ok (r, reply)
      → Outcome n rf.log rf.commit_index args r reply
  what_append_entries_does n now rf args r reply v f k h =
      let (r', reply', runs, outcome) = append_entries-returns n now rf args v f k in
      let same : r' ≡ r = cc in
      let same' : reply' ≡ reply = cc in
      subst₂ (Outcome n rf.log rf.commit_index args) same same' outcome

  -- After a success, on a server with the invariant, the log has every entry from its base on of a
  -- message whose term is not old, whose entries follow on its previous one and which has the
  -- committed entries in the terms that they have here, which is assumed of a leader's message, if
  -- the log and the message have the Log Matching Property.
  pub append_entries-has_entries :
      (n now i : ℕ) (rf : Raft C) (args : AppendEntriesArgs C) (r : Raft C)
      (reply : AppendEntriesReply) (e : LogEntry C)
      → IsReplica n rf
      → IsCurrent rf args
      → HasCommitted n rf args
      → LogMatching n (suc args.prev_log_index) rf.log args.entries
      → append_entries codec now rf args ≡ ok (r, reply)
      → reply.success ≡ true
      → n ≤ i
      → suc args.prev_log_index ≤ i
      → get_elem? args.entries (i - suc args.prev_log_index) ≡ some e
      → get_log_at_index r.log i ≡ ok (some e)
  append_entries-has_entries n now i rf args r reply e v f k matching h success from from' at =
      elim (what_append_entries_does n now rf args r reply v f k h) [
        | inl (failed, _, _) ↦ cc
        | inr (_, prev, log, _, _) ↦
            let m = suc args.prev_log_index in
            let close = HasPrev-close n rf.log args v.is_log prev in
            rw
              (
                log,
                get_log_at_index-from n i (merged n m rf.log args.entries)
                    (IsLog-merged n m rf.log args.entries v.is_log f.counts close) from,
              )
              (ap ok (get_elem?-merged n m i rf.log args.entries e close matching from from' at))
      ]

  -- If a message's term is not old, its entries follow on its previous one, and where it has entries
  -- that are committed here it has them in the terms that they have here, then on a server with the
  -- invariant every committed entry from the log's base on stays where it is, whatever the answer,
  -- also if the message ends before it. That a leader's message has those terms is assumed.
  pub append_entries-keeps_committed :
      (n now i : ℕ) (rf : Raft C) (args : AppendEntriesArgs C) (r : Raft C)
      (reply : AppendEntriesReply) (l : LogEntry C)
      → IsReplica n rf
      → IsCurrent rf args
      → HasCommitted n rf args
      → append_entries codec now rf args ≡ ok (r, reply)
      → n ≤ i
      → i ≤ rf.commit_index
      → get_log_at_index rf.log i ≡ ok (some l)
      → get_log_at_index r.log i ≡ ok (some l)
  append_entries-keeps_committed n now i rf args r reply l v f k h from le at =
      elim (what_append_entries_does n now rf args r reply v f k h) [
        | inl (_, log, _) ↦ rw log at
        | inr (_, prev, log, _, _) ↦
            let m = suc args.prev_log_index in
            let close = HasPrev-close n rf.log args v.is_log prev in
            let place : get_elem? rf.log (i - n) ≡ some l =
              cc (get_log_at_index-from n i rf.log v.is_log from) in
            rw
              (
                log,
                get_log_at_index-from n i (merged n m rf.log args.entries)
                    (IsLog-merged n m rf.log args.entries v.is_log f.counts close) from,
              )
              (ap ok (
                get_elem?-merged_kept n m rf.commit_index i rf.log args.entries l close k le from
                  place))
      ]

  merge_entries-last_applied :
      (rf : Raft C) (es : List (LogEntry C)) (r : Raft C)
      → merge_entries codec rf es ≡ ok r
      → r.last_applied ≡ rf.last_applied
  unfolding merge_entries persist
  merge_entries-last_applied rf [] r h = ground arith
  merge_entries-last_applied rf (e ∷ es) r h = ground arith

  follow_commit-last_applied :
      (leader_commit : ℕ) (rf r : Raft C)
      → follow_commit leader_commit rf ≡ ok r
      → r.last_applied ≡ rf.last_applied
  unfolding follow_commit
  follow_commit-last_applied leader_commit rf r h = ground arith

  accept_entries-last_applied :
      (rf : Raft C) (args : AppendEntriesArgs C) (replied : ℕ) (o : Option AppendEntriesReply)
      (r : Raft C × AppendEntriesReply)
      → accept_entries codec rf args replied o ≡ ok r
      → r.0.last_applied ≡ rf.last_applied
  unfolding accept_entries
  accept_entries-last_applied rf args replied (some reply) r h = ground arith
  accept_entries-last_applied rf args replied none r h =
      let (merged, first, h') = >>=-eq-ok (merge_entries codec rf args.entries) _ h in
      let (committed, second, last) = >>=-eq-ok (follow_commit args.leader_commit merged) _ h' in
      let done : committed ≡ r.0 = cc in
      subst (λ (s : Raft C). s.last_applied ≡ rf.last_applied) done
        (follow_commit-last_applied args.leader_commit merged committed second
          ∙ merge_entries-last_applied rf args.entries merged first)

  append_entries-last_applied :
      (now : ℕ) (rf : Raft C) (args : AppendEntriesArgs C) (r : Raft C × AppendEntriesReply)
      → append_entries codec now rf args ≡ ok r
      → r.0.last_applied ≡ rf.last_applied
  unfolding append_entries
  append_entries-last_applied now rf args r h = elim (Bool-cases (ltb args.term rf.term)) [
    | inl stale ↦ ground arith
    | inr current ↦
        let (refused, _, last) = >>=-eq-ok (check_prev _ args rf.term) _ (rw current at h) in
        accept_entries-last_applied _ args rf.term refused r last ∙ (ground arith)
  ]

  -- If a message's term is not old, its entries follow on its previous one, and where it has entries
  -- that are committed here it has them in the terms that they have here, the handler keeps the
  -- invariant. That a leader's message has those terms is assumed.
  pub append_entries-IsReplica :
      (n now : ℕ) (rf : Raft C) (args : AppendEntriesArgs C) (r : Raft C)
      (reply : AppendEntriesReply)
      → IsReplica n rf
      → IsCurrent rf args
      → HasCommitted n rf args
      → append_entries codec now rf args ≡ ok (r, reply)
      → IsReplica n r
  append_entries-IsReplica n now rf args r reply v f k h =
      let applied = append_entries-last_applied now rf args (r, reply) h in
      elim (what_append_entries_does n now rf args r reply v f k h) [
        | inl (_, log, commit) ↦ record {
          is_log = rw log v.is_log;
          base_applied = omega (arith, v.base_applied);
          applied_committed = omega (arith, v.applied_committed);
          committed = omega (arith, v.committed, ap length log);
        }
        | inr (_, prev, log, rises, bound) ↦
            let close = HasPrev-close n rf.log args v.is_log prev in
            record {
              is_log = rw log (
                  IsLog-merged n (suc args.prev_log_index) rf.log args.entries v.is_log f.counts
                    close);
              base_applied = omega (arith, v.base_applied);
              applied_committed = omega (arith, v.applied_committed);
              committed = omega (arith, bound, stays_committed n rf args v f k prev, ap length log);
            }
      ]
