-- ===== src/RaftDb/Server.antt =====
-- server.go of raft-db.
pub mod Once
pub mod Restart
use distributed_database.Prelude.{
  ℕ, Bool, true, false, List, [], ◌∷◌, ◌++◌, Option, none, some, Go, ok, panic, ◌>>=◌, ltb, leb,
  ◌==◌, if◌then◌else◌, lookup, insert, Text, nat_eq, text_eq,
}
use distributed_database.Raft.Types.{Raft, ApplyMsg, Codec, Persister}
use distributed_database.Raft.Node
use distributed_database.Raft.Snapshots
use distributed_database.Raft.Leader
use distributed_database.Raft.Boot
use distributed_database.RaftDb.Types.{
  Err, ok_err, wrong_leader, timeout, Args, PutOrAppend, put_op, append_op, PutAppendArgs,
  PutAppendReply, GetArgs, GetReply, Command, get, put_append, Store, KvServer, Notice, got, done,
  StoreCodec,
}

-- kv.kv[key], with the zero value "" for a missing key.
unfoldable pub read : Text → Store → Text
read key s = elim (lookup key s.kv) [ none ↦ [] | some v ↦ v ]

-- kv.kv[key] = value, or += value
unfoldable pub write_value : PutAppendArgs → List (Text × Text) → List (Text × Text)
write_value args kv = elim args.kind [
  | put_op ↦ insert args.key args.value kv
  | append_op ↦
      insert args.key (elim (lookup args.key kv) [ none ↦ args.value | some v ↦ v ++ args.value ])
        kv
]

-- Whether the client's last request is this one.
unfoldable pub is_duplicate : PutAppendArgs → Option Command → Bool
is_duplicate args none = false
is_duplicate args (some (get g)) = false
is_duplicate args (some (put_append dup)) = dup.request_id == args.request_id

-- The part of `apply` that the command decides: the store and `lastApplied`. A duplicate leaves
-- even the latter.
unfoldable pub apply_command : Option Command → ℕ → Store × ℕ → Store × ℕ
unfolding is_duplicate write_value
apply_command none index (s, last) = (s, last)
apply_command (some (get args)) index (s, last) = (s, index)
apply_command (some (put_append args)) index (s, last) =
    if is_duplicate args (lookup args.client_id s.dedup) then (s, last) else (
      record {
        kv = write_value args s.kv;
        dedup = insert args.client_id (put_append args) s.dedup;
      },
      index,
    )

unfoldable pub needs_snapshot : KvServer → Bool
needs_snapshot s = elim s.maxraftstate [
  | none ↦ false
  | some limit ↦ leb limit (Node.get_state_size s.rf)
]

unfoldable pub killed : KvServer → Bool
killed s = s.dead == 1

unfoldable pub kill : KvServer → KvServer
kill s = record s { dead = 1; rf = Node.kill s.rf }

-- The maps of a snapshot: each is empty where it does not decode.
unfoldable pub read_snapshot : StoreCodec → List ℕ → KvServer → KvServer
read_snapshot codec bytes s = record s {
  store = record {
    kv = elim (codec.decode_kv bytes) [ none ↦ [] | some kv ↦ kv ];
    dedup = elim (codec.decode_dedup bytes) [ none ↦ [] | some dedup ↦ dedup ];
  };
}

-- What goes out to the requests that wait, once a message is applied on the leader. A command of
-- another type keeps the server's lock for ever, which counts as a fault.
unfoldable pub notify : ApplyMsg Command → KvServer → Go (List Notice)
unfolding read
notify v s = elim v.command [
  | none ↦ panic
  | some (get args) ↦ ok (got (lookup v.command_index s.get_chans) (read args.key s.store) ∷ [])
  | some (put_append args) ↦ ok (done (lookup v.command_index s.done_chans) ∷ [])
]

module _ (raft_codec : Codec Command) (codec : StoreCodec) where
  unfoldable pub take_snapshot : ℕ → KvServer → Go KvServer
  take_snapshot index s =
      if needs_snapshot s
      then (do
        rf ← Snapshots.snapshot raft_codec index (codec.encode s.store) s.rf
        ok (record s { rf = rf }))
      else ok s

  unfoldable pub apply : ApplyMsg Command → KvServer → Go KvServer
  apply v s =
      if leb v.command_index s.last_applied
      then ok s
      else (let next = apply_command v.command v.command_index (s.store, s.last_applied) in
          take_snapshot v.command_index (record s { store = next.0; last_applied = next.1 }))

  -- A message with a snapshot.
  unfoldable pub install : ApplyMsg Command → KvServer → Go KvServer
  install v s = do
    (rf, installed) ←
        Snapshots.cond_install_snapshot raft_codec v.snapshot_term v.snapshot_index v.snapshot s.rf
    let s' = record s { rf = rf }
    if installed
        then ok (read_snapshot codec v.snapshot (record s' { last_applied = v.snapshot_index }))
        else ok s'

  -- One round of DoApply's loop. A server that is killed ends the loop and leaves the message.
  unfoldable pub apply_round : ApplyMsg Command → KvServer → Go (KvServer × List Notice)
  apply_round v s =
      if killed s
      then ok (s, [])
      else if v.command_valid
      then (do
        s' ← apply v s
        if (Node.get_state s'.rf).1
            then (do notices ← notify v s'; ok (s', notices))
            else ok (s', []))
      else (do s' ← install v s; ok (s', []))

  -- Get and PutAppend up to their wait: the reply if there is one at once. `chan` is the channel
  -- that they make, and `gap` what becomes of the Raft server while its Start is without the lock.
  unfoldable pub submit :
      Command → (Raft Command → Raft Command) → KvServer → Go (KvServer × Option ℕ)
  submit op gap s =
      if (Node.get_state s.rf).1
      then (do
        (rf, started) ← Leader.start raft_codec (some op) gap s.rf
        ok (record s { rf = rf }, if started.is_leader then started.index else none))
      else ok (s, none)

  unfoldable pub begin_get :
      GetArgs → ℕ → (Raft Command → Raft Command) → KvServer → Go (KvServer × Option GetReply)
  begin_get args chan gap s = do
    (s', index) ← submit (get args) gap s
    elim index [
      | none ↦ ok (s', some (record { err = wrong_leader; value = [] }))
      | some i ↦ ok (record s' { get_chans = insert i chan s'.get_chans }, none)
    ]

  unfoldable pub begin_put_append :
      PutAppendArgs
      → ℕ
      → (Raft Command → Raft Command)
      → KvServer
      → Go (KvServer × Option PutAppendReply)
  begin_put_append args chan gap s = do
    (s', index) ← submit (put_append args) gap s
    elim index [
      | none ↦ ok (s', some (record { err = wrong_leader }))
      | some i ↦ ok (record s' { done_chans = insert i chan s'.done_chans }, none)
    ]

  -- StartKVServer, with Raft's first timeout.
  unfoldable pub start_kv_server : ℕ → ℕ → Persister → Option ℕ → ℕ → Go KvServer
  start_kv_server servers me persister maxraftstate election_timeout = do
    rf ← Boot.make raft_codec servers me persister election_timeout
    ok (
        read_snapshot codec (Node.read_snapshot persister) (record {
          me = me;
          rf = rf;
          dead = 0;
          maxraftstate = maxraftstate;
          servers_len = servers;
          store = record { kv = []; dedup = [] };
          get_chans = [];
          done_chans = [];
          last_applied = 0;
        }))

-- The end of the wait: what came on the channel, or `none` if the time ran out.
unfoldable pub end_get : Option Text → GetReply
end_get none = record { err = timeout; value = [] }
end_get (some v) = record { err = ok_err; value = v }

unfoldable pub end_put_append : Bool → PutAppendReply
end_put_append false = record { err = timeout }
end_put_append true = record { err = ok_err }
