-- ===== src/Raft/Network/Accepted.antt =====
-- What a successful AppendEntries does to the receiver's log.
use distributed_database.Prelude.{
  ℕ, zero, suc, ◌+◌, ◌-◌, ◌≤◌, ◌<◌, ◌≡◌, refl, ap, sym, subst, ◌∙◌, inl, inr, List, [], ◌∷◌, Option,
  none, some, true, ok, length, get_elem?, get_elem?-drop, lt_of_get_elem?, drop, arith, Bool-cases,
  ltb, ◌==◌, >>=-eq-ok,
}
use distributed_database.Raft.Types.{Raft, LogEntry, AppendEntriesArgs, AppendEntriesReply, Codec}
use distributed_database.Raft.Log.Contiguous.{Contiguous, IsLog}
use distributed_database.Raft.Append.{append_entries, accept_entries, follow_commit, check_prev}
use distributed_database.Raft.Append.Graft.{graft}
use distributed_database.Raft.Append.Merged.{merged, drop-merged}
use distributed_database.Raft.Append.Handler.{
  HasPrev, HasPrev-close, check_prev-cases, merge_entries-ok, took_in, took_in-fields,
}
use distributed_database.Raft.Network.Deliver.{follow_commit-same}

module _ {C : Type 0} where
  -- Each of the message's entries finds its term in the graft.
  graft-term :
      (j : ℕ) (es ls : List (LogEntry C)) (e : LogEntry C)
      → get_elem? es j ≡ some e
      → (l : LogEntry C) × (get_elem? (graft es ls) j ≡ some l) × (l.term ≡ e.term)
  unfolding graft
  graft-term j [] ls e at = cc
  graft-term j (x ∷ es) [] e at = (e, at, refl)
  graft-term zero (x ∷ es) (l ∷ ls) e at = elim (Bool-cases (l.term == x.term)) [
    | inr differ ↦ rw differ (e, at, refl)
    | inl match ↦ rw match (l, refl, ground arith)
  ]
  graft-term (suc j) (x ∷ es) (l ∷ ls) e at = elim (Bool-cases (l.term == x.term)) [
    | inr differ ↦ rw differ (e, at, refl)
    | inl match ↦ rw match (graft-term j es ls e at)
  ]

  pub merged-term :
      (n m i : ℕ) (log es : List (LogEntry C)) (e : LogEntry C)
      → m ≤ n + length log
      → n ≤ i
      → m ≤ i
      → get_elem? es (i - m) ≡ some e
      → (l : LogEntry C) × (get_elem? (merged n m log es) (i - n) ≡ some l) × (l.term ≡ e.term)
  merged-term n m i log es e close from from' at =
      let j = (i - n) - (m - n) in
      let reach : n < m + length es = omega (arith, lt_of_get_elem? es (i - m) e at) in
      let place : i - n ≡ (m - n) + j = omega arith in
      let skipped : (n - m) + j ≡ i - m = omega arith in
      let at' : get_elem? (drop (n - m) es) j ≡ some e =
        get_elem?-drop (n - m) es j ∙ ap (get_elem? es) skipped ∙ at in
      let (l, here, same) = graft-term j (drop (n - m) es) (drop (m - n) log) e at' in
      (
        l,
        ap (get_elem? (merged n m log es)) place
            ∙ sym (get_elem?-drop (m - n) (merged n m log es) j)
            ∙ ap (λ xs. get_elem? xs j) (drop-merged n m log es close reach)
            ∙ here,
        same,
      )

module _ {C : Type 0} (codec : Codec C) where
  accept_entries-merged :
      (n : ℕ) (rf : Raft C) (args : AppendEntriesArgs C) (replied : ℕ)
      (refused : Option AppendEntriesReply) (r : Raft C) (reply : AppendEntriesReply)
      → IsLog n rf.log
      → Contiguous (suc args.prev_log_index) args.entries
      → check_prev rf.log args replied ≡ ok refused
      → accept_entries codec rf args replied refused ≡ ok (r, reply)
      → reply.success ≡ true
      → HasPrev n rf.log args × (r.log ≡ merged n (suc args.prev_log_index) rf.log args.entries)
  unfolding accept_entries
  accept_entries-merged n rf args replied (some wrong) r reply l counts check h success =
      elim (check_prev-cases n rf.log args replied l) [
        | inl (passes, _) ↦ cc
        | inr (no', refuses, failed, _) ↦ cc
      ]
  accept_entries-merged n rf args replied none r reply l counts check h success =
      elim (check_prev-cases n rf.log args replied l) [
        | inr (wrong, refuses, _, _) ↦ cc
        | inl (_, prev) ↦
            let (mid, runs, log, _) =
              merge_entries-ok codec n (suc args.prev_log_index) rf args.entries l counts
                (HasPrev-close n rf.log args l prev) in
            let (end, follows, done) =
              >>=-eq-ok (follow_commit args.leader_commit mid) _ (rw runs at h) in
            let same : end ≡ r = ground arith in
            (
              prev,
              sym (ap (λ (s : Raft C). s.log) same)
                  ∙ (follow_commit-same codec args.leader_commit mid end follows).0
                  ∙ log,
            )
      ]

  -- A success is no answer to an old message, and the message's entries are merged in.
  pub append_entries-merged :
      (n now : ℕ) (rf : Raft C) (args : AppendEntriesArgs C) (r : Raft C)
      (reply : AppendEntriesReply)
      → IsLog n rf.log
      → Contiguous (suc args.prev_log_index) args.entries
      → append_entries codec now rf args ≡ ok (r, reply)
      → reply.success ≡ true
      → HasPrev n rf.log args × (r.log ≡ merged n (suc args.prev_log_index) rf.log args.entries)
  unfolding append_entries took_in
  append_entries-merged n now rf args r reply l counts h success =
      elim (Bool-cases (ltb args.term rf.term)) [
        | inl stale ↦ absurd (ground arith)
        | inr current ↦
            let (refused, check, last) =
              >>=-eq-ok (check_prev (took_in codec now rf args).log args rf.term) _
                (rw current at h) in
            let same = (took_in-fields codec now rf args).0 in
            subst
              (λ log.
                HasPrev n log args × (r.log ≡ merged n (suc args.prev_log_index) log args.entries))
              same
              (accept_entries-merged n (took_in codec now rf args) args rf.term refused r reply
                (subst (IsLog n) (sym same) l) counts check last success)
      ]
