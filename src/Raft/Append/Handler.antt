-- ===== src/Raft/Append/Handler.antt =====
-- The AppendEntries handler on a well-formed log: it returns, and its log is the merged one.
use distributed_database.Prelude.{
  ℕ, suc, ◌+◌, ◌-◌, ◌≤◌, ◌<◌, ◌≡◌, refl, ap, sym, subst, ◌∙◌, ◌⊎◌, inl, inr, List, [], ◌∷◌, ◌++◌,
  Option, some, none, true, false, ok, ◌>>=◌, arith, length, get_elem?, lt_of_get_elem?, take, drop,
  Bool-cases, ltb, leb, ltb→ge, ge→ltb, take-append-drop, ==_iff, ◌==◌,
}
use distributed_database.Raft.Types.{LogEntry, Raft, AppendEntriesArgs, AppendEntriesReply, Codec}
use distributed_database.Raft.Log.{min}
use distributed_database.Raft.Log.Contiguous.{
  Contiguous, IsLog, get_log_at_index-from, log_tail-index, log_head-index,
}
use distributed_database.Raft.Node.{adopt_term, persist}
use distributed_database.Raft.Append.{
  check_prev, conflict, merge_entries, follow_commit, accept_entries, append_entries, refusal,
  first_index_of_term,
}
use distributed_database.Raft.Append.Graft.{graft}
use distributed_database.Raft.Append.Merged.{merged, merge-merged, IsLog-merged}

abbrev pub acceptance : ℕ → AppendEntriesReply
acceptance replied = record {
  term = replied;
  success = true;
  conflicting_term = 0;
  conflicting_index = 0;
}

module _ {ℓ} {C : Type ℓ} where
  -- The message's previous entry: before all entries, covered by a snapshot, or in the log.
  abbrev pub HasPrev : ℕ → List (LogEntry C) → AppendEntriesArgs C → Type ℓ
  HasPrev n log args =
      (args.prev_log_index ≡ 0)
      ⊎ (args.prev_log_index < n)
      ⊎ ((n ≤ args.prev_log_index)
          × (e : LogEntry C) × (get_elem? log (args.prev_log_index - n) ≡ some e)
          × (e.term ≡ args.prev_log_term))

  pub HasPrev-close :
      (n : ℕ) (log : List (LogEntry C)) (args : AppendEntriesArgs C)
      → IsLog n log
      → HasPrev n log args
      → suc args.prev_log_index ≤ n + length log
  HasPrev-close n log args hl (inl zero) = omega (arith, hl.nonempty)
  HasPrev-close n log args hl (inr (inl below)) = omega arith
  HasPrev-close n log args hl (inr (inr (from, e, at, _))) =
      omega (arith, lt_of_get_elem? log _ e at)

  -- What an answer says: `r` is the server after it, `log` and `commit` were the server's before.
  abbrev pub Outcome :
      ℕ → List (LogEntry C) → ℕ → AppendEntriesArgs C → Raft C → AppendEntriesReply → Type ℓ
  Outcome n log commit args r reply =
      ((reply.success ≡ false) × (r.log ≡ log) × (r.commit_index ≡ commit))
      ⊎ ((reply.success ≡ true)
          × HasPrev n log args
          × (r.log ≡ merged n (suc args.prev_log_index) log args.entries)
          × (commit ≤ r.commit_index)
          × ((r.commit_index ≡ commit)
              ⊎ ((r.commit_index ≤ args.leader_commit) × (r.commit_index < n + length r.log))))

  conflict-cases :
      (n : ℕ) (log : List (LogEntry C)) (args : AppendEntriesArgs C) (replied : ℕ)
      (o : Option (LogEntry C))
      → IsLog n log
      → get_elem? log (args.prev_log_index - n) ≡ o
      → n ≤ args.prev_log_index
      → ((conflict log args replied o ≡ ok none) × HasPrev n log args)
        ⊎ ((reply : AppendEntriesReply) × (conflict log args replied o ≡ ok (some reply))
            × (reply.success ≡ false)
            × (reply.term ≡ replied))
  unfolding conflict
  conflict-cases n log args replied none hl at from =
      let (tail, is_tail, _, _) = log_tail-index n log hl in
      inr (refusal replied 0 tail.index, rw is_tail, refl, refl)
  conflict-cases n log args replied (some e) hl at from =
      elim (Bool-cases (e.term == args.prev_log_term)) [
        | inl same ↦ inl (rw same, inr (inr (from, e, at, (==_iff _ _).0 same)))
        | inr differ ↦
            inr (refusal replied e.term (first_index_of_term e.term log), rw differ, refl, refl)
      ]

  -- The consistency check passes just where the previous entry is there, and never faults.
  pub check_prev-cases :
      (n : ℕ) (log : List (LogEntry C)) (args : AppendEntriesArgs C) (replied : ℕ)
      → IsLog n log
      → ((check_prev log args replied ≡ ok none) × HasPrev n log args)
        ⊎ ((reply : AppendEntriesReply) × (check_prev log args replied ≡ ok (some reply))
            × (reply.success ≡ false)
            × (reply.term ≡ replied))
  unfolding check_prev
  check_prev-cases n log args replied hl =
      let (first, is_first, base) = log_head-index n log hl in
      elim (Bool-cases (ltb 0 args.prev_log_index)) [
        | inr start ↦ rw start (inl (refl, inl (omega (arith, ltb→ge _ _ start))))
        | inl later ↦
            rw (later, is_first)
              (elim (Bool-cases (leb first.index args.prev_log_index)) [
                | inr below ↦
                    let short : args.prev_log_index < n = ground arith in
                    rw below (inl (refl, inr (inl short)))
                | inl from ↦
                    let reach : n ≤ args.prev_log_index = ground arith in
                    rw (from, get_log_at_index-from n args.prev_log_index log hl reach)
                      (conflict-cases n log args replied _ hl refl reach)
              ])
      ]

  merged-nil : (n m : ℕ) (log : List (LogEntry C)) → merged n m log [] ≡ log
  unfolding merged graft
  merged-nil n m log = elim (Bool-cases (ltb n (m + 0))) [
    | inr short ↦ rw short
    | inl reach ↦ rw reach (drop-nil (n - m) (take-append-drop (m - n) log))
  ]
    where
      drop-nil :
          (k : ℕ)
          → take (m - n) log ++ drop (m - n) log ≡ log
          → take (m - n) log ++ graft (drop k []) (drop (m - n) log) ≡ log
      drop-nil ℕ.zero h = h
      drop-nil (suc k) h = h

  pub follow_commit-ok :
      (n leader_commit : ℕ) (rf : Raft C)
      → IsLog n rf.log
      → rf.commit_index < n + length rf.log
      → (r : Raft C) × (follow_commit leader_commit rf ≡ ok r)
        × (r.log ≡ rf.log)
        × (rf.commit_index ≤ r.commit_index)
        × ((r.commit_index ≡ rf.commit_index)
            ⊎ ((r.commit_index ≤ leader_commit) × (r.commit_index < n + length rf.log)))
  unfolding follow_commit
  follow_commit-ok n leader_commit rf hl known =
      let (tail, is_tail, _, end) = log_tail-index n rf.log hl in
      elim (Bool-cases (ltb rf.commit_index leader_commit)) [
        | inr done ↦ rw done (rf, refl, refl, omega arith, inl refl)
        | inl behind ↦
            rw (behind, is_tail)
              (
                record rf { commit_index = min leader_commit tail.index },
                refl,
                refl,
                ground arith,
                inr (ground arith),
              )
      ]

module _ {ℓ} {C : Type ℓ} (codec : Codec C) where
  pub merge_entries-ok :
      (n m : ℕ) (rf : Raft C) (es : List (LogEntry C))
      → IsLog n rf.log
      → Contiguous m es
      → m ≤ n + length rf.log
      → (r : Raft C) × (merge_entries codec rf es ≡ ok r)
        × (r.log ≡ merged n m rf.log es)
        × (r.commit_index ≡ rf.commit_index)
  unfolding merge_entries persist
  merge_entries-ok n m rf [] hl he close = (rf, refl, sym (merged-nil n m rf.log), refl)
  merge_entries-ok n m rf (e ∷ es) hl he close =
      let runs =
        merge-merged n m rf.log (e ∷ es) hl (record { nonempty = omega arith; counts = he })
          close in
      (persist codec (record rf { log = merged n m rf.log (e ∷ es) }), rw runs, refl, refl)

  pub accept_entries-ok :
      (n : ℕ) (rf : Raft C) (args : AppendEntriesArgs C) (replied : ℕ)
      → IsLog n rf.log
      → Contiguous (suc args.prev_log_index) args.entries
      → HasPrev n rf.log args
      → rf.commit_index < n + length (merged n (suc args.prev_log_index) rf.log args.entries)
      → (r : Raft C) × (accept_entries codec rf args replied none ≡ ok (r, acceptance replied))
        × (r.log ≡ merged n (suc args.prev_log_index) rf.log args.entries)
        × (rf.commit_index ≤ r.commit_index)
        × ((r.commit_index ≡ rf.commit_index)
            ⊎ ((r.commit_index ≤ args.leader_commit) × (r.commit_index < n + length r.log)))
  unfolding accept_entries
  accept_entries-ok n rf args replied hl he prev known =
      let close = HasPrev-close n rf.log args hl prev in
      let (mid, runs, log, commit) =
        merge_entries-ok n (suc args.prev_log_index) rf args.entries hl he close in
      let whole : IsLog n mid.log =
        rw log (IsLog-merged n (suc args.prev_log_index) rf.log args.entries hl he close) in
      let (r, follows, same, rises, bound) =
        follow_commit-ok n args.leader_commit mid whole (rw (log, commit) known) in
      (
        r,
        rw (runs, follows),
        same ∙ log,
        omega (arith, rises, commit),
        bounded mid.commit_index r.commit_index (length mid.log) (length r.log) rf.commit_index
            commit (ap length same) bound,
      )
    where
      bounded :
          (before after long long' start : ℕ)
          → before ≡ start
          → long' ≡ long
          → (after ≡ before) ⊎ ((after ≤ args.leader_commit) × (after < n + long))
          → (after ≡ start) ⊎ ((after ≤ args.leader_commit) × (after < n + long'))
      bounded before after long long' start e e' (inl same) = inl (omega arith)
      bounded before after long long' start e e' (inr b) = inr (omega arith)

  -- The handler behind its term check.
  checked-ok :
      (n : ℕ) (rf : Raft C) (args : AppendEntriesArgs C) (replied : ℕ)
      → IsLog n rf.log
      → Contiguous (suc args.prev_log_index) args.entries
      → (HasPrev n rf.log args
          → rf.commit_index < n + length (merged n (suc args.prev_log_index) rf.log args.entries))
      → (r : Raft C) × (reply : AppendEntriesReply) × ((check_prev rf.log args replied
            >>= accept_entries codec rf args replied)
          ≡ ok (r, reply))
        × Outcome n rf.log rf.commit_index args r reply
  checked-ok n rf args replied hl he known = elim (check_prev-cases n rf.log args replied hl) [
    | inl (passes, prev) ↦
        let (r, runs, log, rises, bound) =
          accept_entries-ok n rf args replied hl he prev (known prev) in
        (r, acceptance replied, rw (passes, runs), inr (refl, prev, log, rises, bound))
    | inr (reply, refuses, failed, _) ↦
        (rf, reply, unfold accept_entries in rw refuses, inl (failed, refl, refl))
  ]

  -- The server after the message's term and time are taken in.
  unfoldable pub took_in : ℕ → Raft C → AppendEntriesArgs C → Raft C
  took_in now rf args = adopt_term codec args.term (record rf { last_heartbeat = now })

  pub took_in-fields :
      (now : ℕ) (rf : Raft C) (args : AppendEntriesArgs C)
      → ((took_in now rf args).log ≡ rf.log)
        × ((took_in now rf args).commit_index ≡ rf.commit_index)
  unfolding adopt_term took_in
  took_in-fields now rf args = (ground arith, ground arith)

  -- The handler on a well-formed log, at a message of a term that is not old, whose entries follow
  -- on its previous one and leave the committed entries in place: it returns. Either it refuses,
  -- and the log and the commit index stay; or the previous entry is there, the log is the old one
  -- with the message's entries merged in, and the commit index has not fallen, and lies within the
  -- log and, if it moved, under the leader's.
  pub append_entries-Outcome :
      (n now : ℕ) (rf : Raft C) (args : AppendEntriesArgs C)
      → IsLog n rf.log
      → Contiguous (suc args.prev_log_index) args.entries
      → rf.term ≤ args.term
      → (HasPrev n rf.log args
          → rf.commit_index < n + length (merged n (suc args.prev_log_index) rf.log args.entries))
      → (r : Raft C) × (reply : AppendEntriesReply) × (append_entries codec now rf args
          ≡ ok (r, reply))
        × Outcome n rf.log rf.commit_index args r reply
  unfolding append_entries took_in
  append_entries-Outcome n now rf args hl he current known =
      let (log, commit) = took_in-fields now rf args in
      let (r, reply, runs, outcome) =
        checked-ok n (took_in now rf args) args rf.term (rw log hl) he (rw (log, commit) known) in
      (
        r,
        reply,
        rw (ge→ltb args.term rf.term current) runs,
        subst (λ c. Outcome n rf.log c args r reply) commit
            (subst (λ l. Outcome n l (took_in now rf args).commit_index args r reply) log outcome),
      )
