-- ===== src/Raft/Network/Deliver.antt =====
-- What AppendEntries does to the log of its receiver.
use distributed_database.Prelude.{
  ℕ, suc, ◌≤◌, ◌≡◌, ap, sym, subst, ◌∙◌, ◌⊎◌, inl, inr, List, [], ◌∷◌, Option, none, some, ok,
  arith, ltb, Bool-cases, ltb→ge, >>=-eq-ok,
}
use distributed_database.Raft.Types.{Raft, LogEntry, AppendEntriesArgs, AppendEntriesReply, Codec}
use distributed_database.Raft.Node.{adopt_term}
use distributed_database.Raft.Log.Contiguous.{Contiguous}
use distributed_database.Raft.Append.{
  append_entries, accept_entries, merge_entries, follow_commit, check_prev,
}
use distributed_database.Raft.Append.Handler.{
  HasPrev-close, check_prev-cases, merge_entries-ok, took_in, took_in-fields,
}
use distributed_database.Raft.Network.{Birth}
use distributed_database.Raft.Network.Chain.{Chain}
use distributed_database.Raft.Network.Grown.{IsGrown, merged-IsGrown}

module _ {C : Type 0} where
  -- A message whose entries count up from behind the previous one, and were made behind it.
  pub record IsMade (born : List (Birth C)) (args : AppendEntriesArgs C) : Type 0 where
    pub counts : Contiguous (suc args.prev_log_index) args.entries
    pub chain : Chain born args.prev_log_term args.entries
    pub blank : args.prev_log_index ≡ 0 → args.prev_log_term ≡ 0

module _ {C : Type 0} (codec : Codec C) where
  took_in-term :
      (now : ℕ) (rf : Raft C) (args : AppendEntriesArgs C)
      → rf.term ≤ args.term
      → (took_in codec now rf args).term ≡ args.term
  unfolding took_in adopt_term
  took_in-term now rf args le = ground arith

  merge_entries-term :
      (rf r : Raft C) (es : List (LogEntry C)) → merge_entries codec rf es ≡ ok r → r.term ≡ rf.term
  unfolding merge_entries
  merge_entries-term rf r [] h = ground arith
  merge_entries-term rf r (e ∷ es) h = ground arith

  pub follow_commit-same :
      (leader_commit : ℕ) (rf r : Raft C)
      → follow_commit leader_commit rf ≡ ok r
      → (r.log ≡ rf.log) × (r.term ≡ rf.term)
  unfolding follow_commit
  follow_commit-same leader_commit rf r h = (ground arith, ground arith)

  accept_entries-IsGrown :
      (born : List (Birth C)) (rf : Raft C) (args : AppendEntriesArgs C) (replied : ℕ)
      (refused : Option AppendEntriesReply) (r : Raft C) (reply : AppendEntriesReply)
      → IsGrown born rf.log
      → IsMade born args
      → check_prev rf.log args replied ≡ ok refused
      → accept_entries codec rf args replied refused ≡ ok (r, reply)
      → IsGrown born r.log × (r.term ≡ rf.term)
  unfolding accept_entries
  accept_entries-IsGrown born rf args replied (some wrong) r reply g made check h =
      let same : rf ≡ r = ground arith in
      (subst (λ (s : Raft C). IsGrown born s.log) same g, sym (ap (λ (s : Raft C). s.term) same))
  accept_entries-IsGrown born rf args replied none r reply g made check h =
      elim (check_prev-cases g.base rf.log args replied g.is_log) [
        | inr (wrong, refuses, _, _) ↦ cc
        | inl (_, prev) ↦
            let (mid, runs, log, _) =
              merge_entries-ok codec g.base (suc args.prev_log_index) rf args.entries g.is_log
                made.counts (HasPrev-close g.base rf.log args g.is_log prev) in
            let (end, follows, done) =
              >>=-eq-ok (follow_commit args.leader_commit mid) _ (rw runs at h) in
            let same : end ≡ r = ground arith in
            let (log', term') = follow_commit-same args.leader_commit mid end follows in
            (
              subst (IsGrown born) (sym log ∙ sym log' ∙ ap (λ (s : Raft C). s.log) same)
                  (merged-IsGrown born rf.log args g made.counts made.chain made.blank prev),
              sym (ap (λ (s : Raft C). s.term) same)
                  ∙ term'
                  ∙ merge_entries-term rf mid args.entries runs,
            )
      ]

  -- The log has only entries that were made; it stays, or the server is in the message's term.
  pub append_entries-IsGrown :
      (born : List (Birth C)) (now : ℕ) (rf : Raft C) (args : AppendEntriesArgs C) (r : Raft C)
      (reply : AppendEntriesReply)
      → IsGrown born rf.log
      → IsMade born args
      → append_entries codec now rf args ≡ ok (r, reply)
      → IsGrown born r.log × ((r.log ≡ rf.log) ⊎ (r.term ≡ args.term))
  unfolding append_entries took_in
  append_entries-IsGrown born now rf args r reply g made h =
      elim (Bool-cases (ltb args.term rf.term)) [
        | inl stale ↦
            let same : rf.log ≡ r.log = ground arith in
            (subst (IsGrown born) same g, inl (sym same))
        | inr current ↦
            let (refused, check, last) =
              >>=-eq-ok (check_prev (took_in codec now rf args).log args rf.term) _
                (rw current at h) in
            let g' : IsGrown born (took_in codec now rf args).log =
              subst (IsGrown born) (sym (took_in-fields codec now rf args).0) g in
            let (grown, term) =
              accept_entries-IsGrown born (took_in codec now rf args) args rf.term refused r reply
                g' made check last in
            (grown, inr (term ∙ took_in-term now rf args (ltb→ge args.term rf.term current)))
      ]
