-- ===== src/RaftDb/Server/Restart.antt =====
-- A snapshot, a crash and a new server on the same disk.
use distributed_database.Prelude.{
  ℕ, ◌+◌, ◌≤◌, ◌≡◌, refl, sym, ap, subst, ◌∙◌, List, [], Option, true, ok, arith,
}
use distributed_database.Raft.Types.{Raft, Codec, IsCodec, Persister}
use distributed_database.Raft.Node
use distributed_database.Raft.Node.{saved}
use distributed_database.Raft.Boot.{make}
use distributed_database.Raft.Boot.Recovery.{make-saved, make-ok}
use distributed_database.Raft.Step.Careful.{IsDurable}
use distributed_database.Raft.Step.Handlers.{snapshot-Quiet}
use distributed_database.Raft.Replica.{IsReplica}
use distributed_database.Raft.Replica.Snapshots.{snapshot-IsReplica}
use distributed_database.RaftDb.Types.{Command, Store, KvServer, StoreCodec, IsStoreCodec}
use distributed_database.RaftDb.Server.{
  needs_snapshot, read_snapshot, take_snapshot, start_kv_server,
}
use distributed_database.Raft.Replica.Made.{make-base, make-IsReplica}

read_snapshot-store :
    (codec : StoreCodec) (store : Store) (bytes : List ℕ) (s : KvServer)
    → IsStoreCodec codec
    → bytes ≡ codec.encode store
    → (read_snapshot codec bytes s).store ≡ store
unfolding read_snapshot
read_snapshot-store codec store bytes s law same =
    rw (same, law.decode_kv-encode store, law.decode_dedup-encode store) refl

module _ (raft_codec : Codec Command) (codec : StoreCodec) (raft_law : IsCodec raft_codec)
    (law : IsStoreCodec codec) where
  start_lem :
      (servers me timeout : ℕ) (ps : Persister) (limit : Option ℕ) (made : Raft Command)
      (store : Store)
      → make raft_codec servers me ps timeout ≡ ok made
      → ps.snapshot ≡ codec.encode store
      → (s : KvServer) × (start_kv_server raft_codec codec servers me ps limit timeout ≡ ok s)
        × (s.store ≡ store)
        × (s.rf ≡ made)
  unfolding start_kv_server read_snapshot Node.read_snapshot
  start_lem servers me timeout ps limit made store makes bytes =
      let blank : KvServer = record {
        me = me;
        rf = made;
        dead = 0;
        maxraftstate = limit;
        servers_len = servers;
        store = record { kv = []; dedup = [] };
        get_chans = [];
        done_chans = [];
        last_applied = 0;
      } in
      (
        read_snapshot codec ps.snapshot blank,
        rw makes refl,
        read_snapshot-store codec store ps.snapshot blank law bytes,
        refl,
      )

  -- A server whose Raft state has reached the limit takes its snapshot at an index that Raft has
  -- applied without a fault, and a new server on the same disk starts without one, as a follower,
  -- with the very same store and log; Raft goes on to apply behind the snapshot's index, and its
  -- invariant holds.
  pub take_snapshot-restart :
      (n index timeout : ℕ) (s : KvServer)
      → IsReplica n s.rf
      → IsDurable raft_codec s.rf
      → n ≤ index
      → index ≤ s.rf.last_applied
      → needs_snapshot s ≡ true
      → (s' : KvServer) × (s'' : KvServer) × (take_snapshot raft_codec codec index s ≡ ok s')
        × (start_kv_server raft_codec codec s'.rf.peers s'.rf.me s'.rf.persister s'.maxraftstate
              timeout
            ≡ ok s'')
        × (s''.store ≡ s.store)
        × (saved s''.rf ≡ saved s'.rf)
        × (s''.rf.last_applied ≡ index)
        × IsReplica index s''.rf
  unfolding take_snapshot
  take_snapshot-restart n index timeout s v d from applied needed =
      let (r, runs, v', bytes, committed, entries) =
        snapshot-IsReplica raft_codec n index (index + 1) (codec.encode s.store) s.rf v from applied
          (omega arith) in
      let d' : IsDurable raft_codec r =
        (snapshot-Quiet raft_codec index (codec.encode s.store) s.rf r runs).durable d in
      let (made, makes) = make-ok raft_codec raft_law r timeout d' v'.is_log.nonempty in
      let (same, _, _) = make-saved raft_codec raft_law r made timeout d' makes in
      let (start, _) = make-base raft_codec raft_law index r made timeout d' v'.is_log makes in
      let (s'', starts, store, rf) =
        start_lem r.peers r.me timeout r.persister s.maxraftstate made s.store makes bytes in
      (
        record s { rf = r },
        s'',
        rw (needed, runs) refl,
        starts,
        store,
        ap saved rf ∙ same,
        ap (λ (x : Raft Command). x.last_applied) rf ∙ start,
        subst (IsReplica index) (sym rf)
            (make-IsReplica raft_codec raft_law index r made timeout d' v'.is_log makes),
      )
