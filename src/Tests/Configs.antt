-- ===== src/Tests/Configs.antt =====
-- The shard controller, on small inputs.
use distributed_database.Prelude.{
  ℕ, zero, suc, ◌≡◌, refl, [], ◌∷◌, some, none, true, false, ok, arith, get_elem?, lookup, insert,
  nat_eq, replicate,
}
use distributed_database.Raft.Types.{Raft, follower, ApplyMsg}
use distributed_database.ShardController.Types.{
  n_shards, Config, ok_err, Command, move, query, Store, ShardCtrler, QueryArgs,
}
use distributed_database.ShardController.Rebalance.{
  rebalance, balance, shift, maxmin, scan, look, sort, tabulate,
}
use distributed_database.ShardController.Server.{
  configs_tail, conf, next_config, is_duplicate, client_of, apply_command, notify, end_command,
  reply_to_query,
}
use distributed_database.ShardController.Server.History.{IsHistory, query-answered}

abbrev first : Config
first = record { num = 0; shards = replicate n_shards 0; groups = [] }

abbrev second : Config
second = record { num = 1; shards = 0 ∷ 0 ∷ 0 ∷ 5 ∷ replicate 6 0; groups = [] }

abbrev initial : Store
initial = record { configs = first ∷ []; dedup = [] }

abbrev moving : Command
moving = move (record { shard = 3; gid = 5; args = record { client_id = 8; request_id = 2 } })

abbrev moved : Store
moved = record { configs = first ∷ second ∷ []; dedup = (8, some moving) ∷ [] }

initial-IsHistory : IsHistory initial.configs
initial-IsHistory = record { nonempty = omega arith; numbered = at }
  where
    at : (i : ℕ) (c : Config) → get_elem? (first ∷ []) i ≡ some c → c.num ≡ i
    at zero c h = ground arith
    at (suc i) c h = cc

apply-moving : apply_command (some moving) initial ≡ ok (some moved)
unfolding apply_command is_duplicate client_of next_config conf configs_tail lookup insert
apply-moving = refl

abbrev blank : Raft Command
blank = record {
  peers = 1;
  me = 0;
  persister = record { raftstate = []; snapshot = [] };
  dead = 0;
  state = follower;
  term = 0;
  voted_for = none;
  log = record { term = 0; index = 0; command = none } ∷ [];
  last_heartbeat = 0;
  election_timeout = 5;
  commit_index = 0;
  last_applied = 0;
  next_index = 1 ∷ [];
  match_index = 0 ∷ [];
}

abbrev controller : ShardCtrler
controller = record {
  me = 0;
  rf = blank;
  maxraftstate = none;
  store = initial;
  done_chans = (1, 4) ∷ [];
  last_applied = 0;
  servers_len = 1;
}

abbrev latest : QueryArgs
latest = record { num = none }

abbrev asks : ApplyMsg Command
asks = record {
  command_valid = true;
  command = some (query latest);
  command_index = 1;
  snapshot_valid = false;
  snapshot = [];
  snapshot_term = 0;
  snapshot_index = 0;
}

query-answered_example :
    (config : Config) × (notify asks controller
      ≡ ok (record { chan = lookup 1 controller.done_chans; num = some config.num }))
    × (reply_to_query (end_command (some (some config.num))) (record controller { store = moved })
        ≡ ok (record { wrong_leader = false; err = ok_err; config = config }))
    × (get_elem? (first ∷ []) 0 ≡ some config)
query-answered_example =
    query-answered asks controller (record controller { store = moved }) latest (second ∷ [])
      initial-IsHistory refl refl

abbrev joined : Config
joined = record { num = 1; shards = replicate n_shards 0; groups = (7, []) ∷ (5, []) ∷ [] }

-- Two groups get five shards each.
rebalance-two :
    rebalance joined ≡ some (record joined { shards = 7 ∷ 7 ∷ 7 ∷ 7 ∷ 7 ∷ 5 ∷ 5 ∷ 5 ∷ 5 ∷ 5 ∷ [] })
unfolding rebalance balance shift maxmin scan look sort tabulate
rebalance-two = refl
