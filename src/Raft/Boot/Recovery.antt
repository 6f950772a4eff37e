-- ===== src/Raft/Boot/Recovery.antt =====
-- What a new server reads back from the disk of the old one.
use distributed_database.Prelude.{
  ℕ, ◌<◌, ◌≡◌, ap, ◌∙◌, inl, inr, List, [], ◌∷◌, ok, length, arith, get_elem?-lt,
}
use distributed_database.Raft.Types.{Raft, Saved, Codec, IsCodec, follower}
use distributed_database.Raft.Node.{saved}
use distributed_database.Raft.Boot.{fresh, restore, restored, read_persist, make}
use distributed_database.Raft.Step.Careful.{IsDurable}

module _ {ℓ} {C : Type ℓ} (codec : Codec C) (law : IsCodec codec) where
  pub read_persist-written :
      (bytes : List ℕ) (rf : Raft C) (s : Saved C)
      → bytes ≡ codec.encode s
      → read_persist codec bytes rf ≡ restore rf s
  unfolding read_persist
  read_persist-written [] rf s e = absurd (omega (arith, ap length e, law.encode_nonempty s))
  read_persist-written (b ∷ bytes) rf s e = rw (e, law.decode-encode s)

  -- A server that is made on the disk of an old one whose state is there is a follower with the old
  -- one's term, vote, log and disk.
  pub make-saved :
      (rf r : Raft C) (timeout : ℕ)
      → IsDurable codec rf
      → make codec rf.peers rf.me rf.persister timeout ≡ ok r
      → (saved r ≡ saved rf) × (r.state ≡ follower) × (r.persister ≡ rf.persister)
  unfolding make restore
  make-saved rf r timeout (inl w) h = ground (
    arith,
    read_persist-written rf.persister.raftstate (fresh rf.peers rf.me rf.persister timeout)
        (saved rf) w,
  )
  make-saved rf r timeout (inr (w, b)) h = ground arith

  -- Making a server on the disk of one whose state is there and whose log is not empty does not
  -- fault.
  pub make-ok :
      (rf : Raft C) (timeout : ℕ)
      → IsDurable codec rf
      → 0 < length rf.log
      → (r : Raft C) × (make codec rf.peers rf.me rf.persister timeout ≡ ok r)
  unfolding make restore
  make-ok rf timeout (inl w) full =
      let (first, at) = get_elem?-lt rf.log 0 full in
      let start = fresh rf.peers rf.me rf.persister timeout in
      (
        restored start (saved rf) first.index,
        read_persist-written rf.persister.raftstate start (saved rf) w ∙ rw at,
      )
  make-ok rf timeout (inr (w, b)) full =
      (fresh rf.peers rf.me rf.persister timeout, unfold read_persist in rw w)

  pub make-IsDurable :
      (rf r : Raft C) (timeout : ℕ)
      → IsDurable codec rf
      → make codec rf.peers rf.me rf.persister timeout ≡ ok r
      → IsDurable codec r
  make-IsDurable rf r timeout d h =
      let (same, _, disk) = make-saved rf r timeout d h in ground arith
