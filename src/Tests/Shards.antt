-- ===== src/Tests/Shards.antt =====
-- The assignment of shards to groups, on small inputs.
use mathlib.Core.List.{Permᴰ}
use mathlib.Core.Option
use distributed_database.Prelude.{
  ℕ, ◌+◌, ◌≤◌, ◌≡◌, ◌⊎◌, inl, inr, refl, [], ◌∷◌, List, Option, some, none, ok, arith, length, Has,
  Distinct, replicate, Text,
}
use distributed_database.ShardController.Types.{n_shards, Config, Command, join, Store}
use distributed_database.ShardController.Rebalance.{keys, rebalance}
use distributed_database.ShardController.Rebalance.Tables.{count}
use distributed_database.ShardController.Rebalance.Total.{rebalance-ends, rebalance-even}
use distributed_database.ShardController.Rebalance.Order.{rebalance-perm}
use distributed_database.ShardController.Server.{next_config, apply_command}
use distributed_database.ShardController.Server.Asked.{IsMade, IsRepetition, IsApplied}
use distributed_database.ShardController.Server.Fair.{IsSound}
use distributed_database.ShardController.Server.Sound.{next_config-IsMade, apply_command-IsSound}

abbrev two_groups : Config
two_groups = record { num = 1; shards = replicate n_shards 0; groups = (7, []) ∷ (5, []) ∷ [] }

two_groups-Distinct : Distinct (keys two_groups.groups)
two_groups-Distinct = (λ h. elim h [ inl e ↦ omega (arith, e) | inr later ↦ later ], (λ h. h, tt))

two_groups-no_zero : ¬ Has 0 (keys two_groups.groups)
two_groups-no_zero (inl e) = omega (arith, e)
two_groups-no_zero (inr (inl e)) = omega (arith, e)
two_groups-no_zero (inr (inr later)) = later

rebalance-ends_example :
    (c : Config) × (rebalance two_groups ≡ some c)
    × (c.num ≡ two_groups.num)
    × (c.groups ≡ two_groups.groups)
    × (length c.shards ≡ n_shards)
    × (count 0 c.shards ≡ 0)
rebalance-ends_example =
    rebalance-ends two_groups 7 two_groups-Distinct two_groups-no_zero (inl refl) refl

rebalance-even_example :
    (c : Config) × (rebalance two_groups ≡ some c) × (count 7 c.shards ≤ count 5 c.shards + 1)
rebalance-even_example =
    rebalance-even two_groups 7 5 two_groups-Distinct two_groups-no_zero (inl refl) (inr (inl refl))
      refl

abbrev swapped_groups : List (ℕ × List Text)
swapped_groups = (5, []) ∷ (7, []) ∷ []

rebalance-perm_example :
    rebalance (record two_groups { groups = swapped_groups })
    ≡ Option.map (λ (c : Config). record c { groups = swapped_groups }) (rebalance two_groups)
rebalance-perm_example = rebalance-perm two_groups swapped_groups (Permᴰ.swap refl refl)

abbrev joining : Command
joining = join (record { servers = (9, []) ∷ []; args = record { client_id = 3; request_id = 1 } })

abbrev two_store : Store
two_store = record { configs = two_groups ∷ []; dedup = [] }

two_groups-IsSound : IsSound two_groups
two_groups-IsSound = record {
  ten = refl;
  distinct = two_groups-Distinct;
  no_zero = two_groups-no_zero;
}

joining-proper : (¬ Has {A = ℕ} 0 (9 ∷ [])) × Distinct {A = ℕ} (9 ∷ [])
joining-proper = (λ h. elim h [ inl e ↦ omega (arith, e) | inr later ↦ later ], (λ h. h, tt))

next_config-IsMade_example :
    (made : Option Config) × (next_config joining (two_groups ∷ []) ≡ ok made)
    × IsMade joining (two_groups ∷ []) made
next_config-IsMade_example =
    next_config-IsMade joining (two_groups ∷ []) (omega arith) (two_groups-IsSound, tt)
      joining-proper

apply_command-IsSound_example :
    (IsRepetition joining two_store × (apply_command (some joining) two_store ≡ ok none))
    ⊎ ((¬ IsRepetition joining two_store)
        × ((s' : Store) × (apply_command (some joining) two_store ≡ ok (some s'))
            × IsApplied joining two_store s'))
apply_command-IsSound_example =
    apply_command-IsSound joining two_store (omega arith) (two_groups-IsSound, tt) joining-proper
