-- ===== src/ShardController/Server.antt =====
-- server.go of the shard controller, but for `rebalance`.
pub mod History
pub mod Groups
pub mod Fair
pub mod Asked
pub mod Sound
pub mod Restart
use distributed_database.Prelude.{
  ℕ, ◌+◌, Bool, true, false, not, ◌&&◌, List, [], ◌∷◌, ◌++◌, map, Option, none, some, Go, ok, panic,
  ◌>>=◌, deref, index, length, replicate, ltb, leb, ◌==◌, if◌then◌else◌, lookup, insert, remove,
  Text, nat_eq,
}
use distributed_database.Raft.Types.{Raft, ApplyMsg, Codec, Persister}
use distributed_database.Raft.Node
use distributed_database.Raft.Election.{write}
use distributed_database.Raft.Snapshots
use distributed_database.Raft.Leader
use distributed_database.Raft.Boot
use distributed_database.ShardController.Types.{
  n_shards, Config, Err, ok_err, timeout, Args, JoinArgs, LeaveArgs, MoveArgs, QueryArgs, Command,
  join, leave, move, query, Reply, QueryReply, Answer, Store, ShardCtrler, Notice, StoreCodec,
}
use distributed_database.ShardController.Rebalance.{rebalance}

-- ConfigsTail: there is none only if a snapshot without configurations was read.
unfoldable pub configs_tail : List Config → Go Config
configs_tail [] = panic
configs_tail (c ∷ cs) = index (c ∷ cs) (length cs)

-- The copy of the latest configuration that the next one starts as.
unfoldable pub conf : List Config → Go Config
conf configs = do
  tail ← configs_tail configs
  ok (record { num = tail.num + 1; shards = tail.shards; groups = tail.groups })

-- for k, v := range cmd.Servers { conf.Groups[k] = v }
unfoldable pub add_groups : List (ℕ × List Text) → List (ℕ × List Text) → List (ℕ × List Text)
add_groups [] groups = groups
add_groups ((gid, servers) ∷ more) groups = add_groups more (insert gid servers groups)

-- The loop over the groups that leave: their shards go to group 0.
unfoldable pub drop_groups : List ℕ → Config → Config
drop_groups [] c = c
drop_groups (k ∷ ks) c = drop_groups ks (record c {
  shards = map (λ gid. if gid == k then 0 else gid) c.shards;
  groups = remove k c.groups;
})

-- The configuration that a command makes; a query makes none. Fuel that runs out counts as a fault.
unfoldable pub next_config : Command → List Config → Go (Option Config)
next_config (join args) configs = do
  c ← conf configs
  balanced ← deref (rebalance (record c { groups = add_groups args.servers c.groups }))
  ok (some balanced)
next_config (leave args) configs = do
  c ← conf configs
  balanced ← deref (rebalance (drop_groups args.gids c))
  ok (some balanced)
next_config (move args) configs = do
  c ← conf configs
  shards ← write c.shards args.shard args.gid
  ok (some (record c { shards = shards }))
next_config (query args) configs = ok none

-- Whether the client's last request is this one, of this kind.
unfoldable pub is_duplicate : Command → Option (Option Command) → Bool
is_duplicate (join args) (some (some (join dup))) = dup.args.request_id == args.args.request_id
is_duplicate (leave args) (some (some (leave dup))) = dup.args.request_id == args.args.request_id
is_duplicate (move args) (some (some (move dup))) = dup.args.request_id == args.args.request_id
is_duplicate _ _ = false

-- The local variable `args` of `apply`: a query leaves it zero.
unfoldable pub client_of : Command → ℕ
client_of (join args) = args.args.client_id
client_of (leave args) = args.args.client_id
client_of (move args) = args.args.client_id
client_of (query args) = 0

-- What a command does to the store; `none` for a duplicate, at which `apply` returns.
unfoldable pub apply_command : Option Command → Store → Go (Option Store)
apply_command none s = ok (some (record s { dedup = insert 0 none s.dedup }))
apply_command (some c) s = if is_duplicate c (lookup (client_of c) s.dedup) then ok none else (do
  made ← next_config c s.configs
  ok (
      some (record {
        configs = elim made [ none ↦ s.configs | some next ↦ s.configs ++ next ∷ [] ];
        dedup = insert (client_of c) (some c) s.dedup;
      })))

unfoldable pub needs_snapshot : ShardCtrler → Bool
needs_snapshot s = elim s.maxraftstate [
  | none ↦ false
  | some limit ↦ leb limit (Node.get_state_size s.rf)
]

-- The maps of a snapshot: no configurations where they do not decode.
unfoldable pub read_snapshot : StoreCodec → List ℕ → ShardCtrler → ShardCtrler
read_snapshot codec bytes s = record s {
  store = record {
    configs = elim (codec.decode_configs bytes) [ none ↦ [] | some configs ↦ configs ];
    dedup = elim (codec.decode_dedup bytes) [ none ↦ [] | some dedup ↦ dedup ];
  };
}

-- The number that a query is answered with: the latest for a negative or a later one.
unfoldable pub query_num : Option ℕ → ℕ → ℕ
query_num none latest = latest
query_num (some num) latest = if ltb latest num then latest else num

-- What goes out to the request that waits, once its command is applied on the leader.
unfoldable pub notify : ApplyMsg Command → ShardCtrler → Go Notice
notify v s = do
  num ← elim v.command [
    | none ↦ ok none
    | some (join args) ↦ ok none
    | some (leave args) ↦ ok none
    | some (move args) ↦ ok none
    | some (query args) ↦ (do
      tail ← configs_tail s.configs
      ok (some (query_num args.num tail.num)))
  ]
  ok (record { chan = lookup v.command_index s.done_chans; num = num })

module _ (raft_codec : Codec Command) (codec : StoreCodec) where
  unfoldable pub take_snapshot : ℕ → ShardCtrler → Go ShardCtrler
  take_snapshot index s =
      if needs_snapshot s
      then (do
        rf ← Snapshots.snapshot raft_codec index (codec.encode s.store) s.rf
        ok (record s { rf = rf }))
      else ok s

  unfoldable pub apply : ApplyMsg Command → ShardCtrler → Go ShardCtrler
  apply v s = if leb v.command_index s.last_applied then ok s else (do
    changed ← apply_command v.command s.store
    elim changed [
      | none ↦ ok s
      | some store ↦
          take_snapshot v.command_index (record s { store = store; last_applied = v.command_index })
    ])

  -- A message with a snapshot.
  unfoldable pub install : ApplyMsg Command → ShardCtrler → Go ShardCtrler
  install v s = do
    (rf, installed) ←
        Snapshots.cond_install_snapshot raft_codec v.snapshot_term v.snapshot_index v.snapshot s.rf
    let s' = record s { rf = rf }
    if installed
        then ok (read_snapshot codec v.snapshot (record s' { last_applied = v.snapshot_index }))
        else ok s'

  -- One round of DoApply's loop.
  unfoldable pub apply_round : ApplyMsg Command → ShardCtrler → Go (ShardCtrler × Option Notice)
  apply_round v s =
      if v.command_valid
      then (do
        s' ← apply v s
        if (Node.get_state s'.rf).1
            then (do notice ← notify v s'; ok (s', some notice))
            else ok (s', none))
      else (do s' ← install v s; ok (s', none))

  -- `Command` up to its wait: the answer if there is one at once. `chan` is the channel it makes,
  -- and `gap` what becomes of the Raft server while its Start is without the lock.
  unfoldable pub begin_command :
      Command → ℕ → (Raft Command → Raft Command) → ShardCtrler → Go (ShardCtrler × Option Answer)
  begin_command command chan gap s =
      if (Node.get_state s.rf).1
      then (do
        (rf, started) ← Leader.start raft_codec (some command) gap s.rf
        let s' = record s { rf = rf }
        elim (if started.is_leader then started.index else none) [
          | none ↦ ok (s', some (record { num = none; wrong_leader = true; err = ok_err }))
          | some i ↦ ok (record s' { done_chans = insert i chan s'.done_chans }, none)
        ])
      else ok (s, some (record { num = none; wrong_leader = true; err = ok_err }))

  -- StartServer, with Raft's first timeout. The persister's snapshot is not read.
  unfoldable pub start_server : ℕ → ℕ → Persister → ℕ → Go ShardCtrler
  start_server servers me persister election_timeout = do
    rf ← Boot.make raft_codec servers me persister election_timeout
    ok (record {
      me = me;
      rf = rf;
      maxraftstate = some 1000;
      store = record {
        configs = record { num = 0; shards = replicate n_shards 0; groups = [] } ∷ [];
        dedup = [];
      };
      done_chans = [];
      last_applied = 0;
      servers_len = servers;
    })

unfoldable pub kill : ShardCtrler → ShardCtrler
kill s = record s { rf = Node.kill s.rf }

-- The end of the wait: what came on the channel, or `none` if the time ran out.
unfoldable pub end_command : Option (Option ℕ) → Answer
end_command none = record { num = none; wrong_leader = false; err = timeout }
end_command (some num) = record { num = num; wrong_leader = false; err = ok_err }

-- Join, Leave and Move.
unfoldable pub reply_to : Answer → Reply
reply_to a = record { wrong_leader = a.wrong_leader; err = a.err }

unfoldable pub is_ok : Err → Bool
is_ok ok_err = true
is_ok timeout = false

-- Query, with the server at the end of the wait. A configuration that is not filled in is the zero
-- one.
unfoldable pub reply_to_query : Answer → ShardCtrler → Go QueryReply
reply_to_query a s =
    if not a.wrong_leader && is_ok a.err
    then (do
      i ← deref a.num
      config ← index s.configs i
      ok (record { wrong_leader = a.wrong_leader; err = a.err; config = config }))
    else ok (record {
      wrong_leader = a.wrong_leader;
      err = a.err;
      config = record { num = 0; shards = replicate n_shards 0; groups = [] };
    })
