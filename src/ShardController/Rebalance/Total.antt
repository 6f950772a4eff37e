-- ===== src/ShardController/Rebalance/Total.antt =====
-- `rebalance` returns, and what it returns is balanced.
use distributed_database.Prelude.{ℕ, ◌+◌, ◌≤◌, ◌≡◌, ◌∙◌, some, Has, Distinct, length}
use distributed_database.ShardController.Types.{n_shards, Config}
use distributed_database.ShardController.Rebalance.{keys, rebalance}
use distributed_database.ShardController.Rebalance.Tables.{count}
use distributed_database.ShardController.Rebalance.Balanced.{rebalance_lem}

-- For ten shards and at least one group, none of them numbered 0 and none twice, the loop ends and
-- leaves no shard in group 0; the number of the configuration, its groups and the number of its
-- shards stay the same.
pub rebalance-ends :
    (conf : Config) (k : ℕ)
    → Distinct (keys conf.groups)
    → ¬ Has 0 (keys conf.groups)
    → Has k (keys conf.groups)
    → length conf.shards ≡ n_shards
    → (c : Config) × (rebalance conf ≡ some c)
      × (c.num ≡ conf.num)
      × (c.groups ≡ conf.groups)
      × (length c.shards ≡ n_shards)
      × (count 0 c.shards ≡ 0)
rebalance-ends conf k d no_zero has ten =
    let (c, runs, r) = rebalance_lem conf d no_zero k has ten in
    (c, runs, r.num, r.groups, r.same_length ∙ ten, r.none_left)

-- For ten shards and groups that are not numbered 0 and do not repeat, the loop ends with the
-- numbers of shards of any two of the groups at most one apart.
pub rebalance-even :
    (conf : Config) (g h : ℕ)
    → Distinct (keys conf.groups)
    → ¬ Has 0 (keys conf.groups)
    → Has g (keys conf.groups)
    → Has h (keys conf.groups)
    → length conf.shards ≡ n_shards
    → (c : Config) × (rebalance conf ≡ some c) × (count g c.shards ≤ count h c.shards + 1)
rebalance-even conf g h d no_zero hg hh ten =
    let (c, runs, r) = rebalance_lem conf d no_zero g hg ten in (c, runs, r.even g h hg hh)
