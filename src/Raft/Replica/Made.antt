-- ===== src/Raft/Replica/Made.antt =====
-- A server that is made on the disk of an old one, and the invariant.
use distributed_database.Prelude.{ℕ, ◌≡◌, sym, ap, subst, inl, inr, [], ◌∷◌, ok, arith}
use distributed_database.Raft.Types.{Raft, Saved, Codec, IsCodec}
use distributed_database.Raft.Log.Contiguous.{IsLog, log_head-index}
use distributed_database.Raft.Node.{saved}
use distributed_database.Raft.Boot.{blank_entry, fresh, restore, read_persist, make}
use distributed_database.Raft.Boot.Recovery.{read_persist-written, make-saved}
use distributed_database.Raft.Step.Careful.{IsDurable}
use distributed_database.Raft.Replica.{IsReplica}

module _ {ℓ} {C : Type ℓ} (codec : Codec C) (law : IsCodec codec) where
  -- A server that is made on a disk starts to apply behind the base of the log that it finds there.
  pub make-base :
      (n : ℕ) (rf r : Raft C) (timeout : ℕ)
      → IsDurable codec rf
      → IsLog n rf.log
      → make codec rf.peers rf.me rf.persister timeout ≡ ok r
      → (r.last_applied ≡ n) × (r.commit_index ≡ n)
  unfolding make restore
  make-base n rf r timeout (inl w) l h =
      let (first, at, place) = log_head-index n rf.log l in
      ground (
        arith,
        at,
        place,
        read_persist-written codec law rf.persister.raftstate
            (fresh rf.peers rf.me rf.persister timeout) (saved rf) w,
      )
  make-base n rf r timeout (inr (w, b)) l h =
      let counts : IsLog n (blank_entry ∷ []) = subst (IsLog n) (ap (λ (s : Saved C). s.log) b) l in
      unfold read_persist fresh blank_entry in ground (arith, counts.counts.0)

  -- The invariant of the log and its indices holds of a server that is made on a disk.
  pub make-IsReplica :
      (n : ℕ) (rf r : Raft C) (timeout : ℕ)
      → IsDurable codec rf
      → IsLog n rf.log
      → make codec rf.peers rf.me rf.persister timeout ≡ ok r
      → IsReplica n r
  make-IsReplica n rf r timeout d l h =
      let (applied, committed) = make-base n rf r timeout d l h in
      let (same, _, _) = make-saved codec law rf r timeout d h in
      let is_log : IsLog n r.log = subst (IsLog n) (sym (ap (λ (s : Saved C). s.log) same)) l in
      record {
        is_log = is_log;
        base_applied = omega (arith, applied);
        applied_committed = omega (arith, applied, committed);
        committed = omega (arith, committed, is_log.nonempty);
      }
