-- ===== src/Raft/Leader/Sync.antt =====
-- The leader's commit rule, for the whole handler of an AppendEntries reply.
use distributed_database.Prelude.{ℕ, ◌≤◌, ◌≡◌, refl, subst, List, [], ◌∷◌, true, ok, arith, panic}
use distributed_database.Raft.Types.{Raft, LogEntry, AppendEntriesArgs, AppendEntriesReply, Codec}
use distributed_database.Raft.Log.{log_tail}
use distributed_database.Raft.Node.{majority}
use distributed_database.Raft.Leader.{acknowledge, sync}
use distributed_database.Raft.Leader.Commit.{
  Committable, noted, acknowledge-advance, advance_commit_complete, advance_commit-else,
}

module _ {ℓ} {C : Type ℓ} where
  uncommit :
      (rf r : Raft C) (c i : ℕ)
      → r ≡ record rf { commit_index = c }
      → Committable r i
      → Committable rf i
  unfolding majority
  uncommit rf r c i same g =
      let g' : Committable (record rf { commit_index = c }) i =
        subst (λ s. Committable s i) same g in
      record {
        count = g'.count;
        entry = g'.entry;
        counted = g'.counted;
        enough = g'.enough;
        at = g'.at;
        current = g'.current;
      }

  log_tail-nil : log_tail {C = C} [] ≡ panic
  unfolding log_tail
  log_tail-nil = refl

module _ {ℓ} {C : Type ℓ} (codec : Codec C) where
  -- On a success in the leader's term, to a request that has entries, the handler moves the commit
  -- index far enough: it is at least every index, from the old one to the request's last, that can be
  -- committed.
  sync-commit_far :
      (peer j : ℕ) (args : AppendEntriesArgs C) (reply : AppendEntriesReply) (last : LogEntry C)
      (rf r : Raft C)
      → sync codec peer args reply rf ≡ ok r
      → rf.term ≡ args.term
      → reply.term ≤ rf.term
      → reply.success ≡ true
      → log_tail args.entries ≡ ok last
      → rf.commit_index ≤ j
      → j ≤ last.index
      → Committable r j
      → j ≤ r.commit_index
  sync-commit_far peer j args reply last rf r h same fresh success tail from to good =
      let runs =
        acknowledge-advance peer args last rf r tail (acknowledged args.entries refl tail) in
      let same_else = advance_commit-else last.index (noted rf peer last.index) r runs in
      advance_commit_complete last.index j (noted rf peer last.index) r runs from to
        (uncommit (noted rf peer last.index) r r.commit_index j same_else good)
    where
      acknowledged :
          (es : List (LogEntry C))
          → args.entries ≡ es
          → log_tail es ≡ ok last
          → acknowledge peer args rf ≡ ok r
      acknowledged [] e t = cc (log_tail-nil, t)
      acknowledged (e ∷ es) split t = unfold sync in ground arith
