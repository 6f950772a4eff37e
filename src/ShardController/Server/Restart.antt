-- ===== src/ShardController/Server/Restart.antt =====
-- A snapshot, a crash and a new shard controller on the same disk.
use distributed_database.Prelude.{ℕ, ◌+◌, ◌≤◌, ◌≡◌, refl, [], ◌∷◌, true, some, ok, replicate, arith}
use distributed_database.Raft.Types.{Codec, IsCodec}
use distributed_database.Raft.Node.{saved}
use distributed_database.Raft.Boot.Recovery.{make-ok, make-saved}
use distributed_database.Raft.Step.Careful.{IsDurable}
use distributed_database.Raft.Step.Handlers.{snapshot-Quiet}
use distributed_database.Raft.Replica.{IsReplica}
use distributed_database.Raft.Replica.Snapshots.{snapshot-IsReplica}
use distributed_database.Raft.Replica.Made.{make-base}
use distributed_database.ShardController.Types.{n_shards, Config, Command, ShardCtrler, StoreCodec}
use distributed_database.ShardController.Server.{needs_snapshot, take_snapshot, start_server}

-- The configuration of a controller that starts for the first time.
abbrev pub first_config : Config
first_config = record { num = 0; shards = replicate n_shards 0; groups = [] }

module _ (raft_codec : Codec Command) (codec : StoreCodec) (law : IsCodec raft_codec) where
  -- A controller whose Raft state has reached the limit takes its snapshot at an index that Raft has
  -- applied without a fault, and a new server on the same disk starts without one: it has the first
  -- configuration only, whatever the old one had, while Raft has the log from the snapshot's index
  -- on and will apply nothing up to there again.
  pub take_snapshot-forgotten :
      (n index timeout : ℕ) (s : ShardCtrler)
      → IsReplica n s.rf
      → IsDurable raft_codec s.rf
      → n ≤ index
      → index ≤ s.rf.last_applied
      → needs_snapshot s ≡ true
      → (s' : ShardCtrler) × (s'' : ShardCtrler) × (take_snapshot raft_codec codec index s ≡ ok s')
        × (s'.rf.persister.snapshot ≡ codec.encode s.store)
        × (start_server raft_codec codec s'.rf.peers s'.rf.me s'.rf.persister timeout ≡ ok s'')
        × (s''.configs ≡ first_config ∷ [])
        × (saved s''.rf ≡ saved s'.rf)
        × (s''.rf.last_applied ≡ index)
  unfolding take_snapshot start_server
  take_snapshot-forgotten n index timeout s v d from applied needed =
      let (r, runs, v', bytes, committed, entries) =
        snapshot-IsReplica raft_codec n index (index + 1) (codec.encode s.store) s.rf v from applied
          (omega arith) in
      let d' : IsDurable raft_codec r =
        (snapshot-Quiet raft_codec index (codec.encode s.store) s.rf r runs).durable d in
      let (made, makes) = make-ok raft_codec law r timeout d' v'.is_log.nonempty in
      let (same, _, _) = make-saved raft_codec law r made timeout d' makes in
      let (start, _) = make-base raft_codec law index r made timeout d' v'.is_log makes in
      let s'' : ShardCtrler = record {
        me = r.me;
        rf = made;
        maxraftstate = some 1000;
        store = record { configs = first_config ∷ []; dedup = [] };
        done_chans = [];
        last_applied = 0;
        servers_len = r.peers;
      } in
      (record s { rf = r }, s'', rw (needed, runs) refl, bytes, rw makes refl, refl, same, start)
