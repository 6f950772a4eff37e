-- ===== src/ShardController/Rebalance/Order.antt =====
-- The order in which Go's `range` goes over the map of groups.
use mathlib.Core.List.{Permᴰ}
use mathlib.Core.Option
use distributed_database.Prelude.{
  ℕ, ◌≡◌, refl, ap, sym, ◌∙◌, List, [], ◌∷◌, Option, none, some, arith, Text,
}
use distributed_database.ShardController.Types.{Config}
use distributed_database.ShardController.Rebalance.{
  keys, sort_insert, sort, tabulate, Balance, balance, rounds, rebalance,
}

sort_insert_swap :
    (x y : ℕ) (zs : List ℕ) → sort_insert x (sort_insert y zs) ≡ sort_insert y (sort_insert x zs)
unfolding sort_insert
sort_insert_swap x y [] = ground arith
sort_insert_swap x y (z ∷ zs) = ground (arith, sort_insert_swap x y zs)

-- Sorting forgets the order.
sort_forgets : {xs ys : List ℕ} → Permᴰ xs ys → sort xs ≡ sort ys
unfolding sort
sort_forgets Permᴰ.nil = refl
sort_forgets (Permᴰ.cons {b} {l₁} e p) =
    ap (λ x. sort_insert x (sort l₁)) e ∙ ap (sort_insert b) (sort_forgets p)
sort_forgets (Permᴰ.swap {a} {b} {a'} {l = l} e f) =
    sort_insert_swap a b (sort l)
    ∙ ap (λ x. sort_insert x (sort_insert a (sort l))) f
    ∙ ap (λ x. sort_insert a' (sort_insert x (sort l))) e
sort_forgets (Permᴰ.trans p q) = sort_forgets p ∙ sort_forgets q

-- `rebalance` gives the same shards in whatever order the map of groups is gone over.
pub rebalance-perm :
    (conf : Config) (groups : List (ℕ × List Text))
    → Permᴰ (keys conf.groups) (keys groups)
    → rebalance (record conf { groups = groups })
      ≡ Option.map (λ (c : Config). record c { groups = groups }) (rebalance conf)
unfolding rebalance
rebalance-perm conf groups p =
    ap (λ gs. outcome (balance rounds gs start)) (sym (sort_forgets p))
    ∙ by_outcome (balance rounds (sort (keys conf.groups)) start)
  where
    start : Balance
    start = record { table = tabulate 0 conf.shards (λ g. []); shards = conf.shards }

    outcome : Option Balance → Option Config
    outcome none = none
    outcome (some b) = some (record { num = conf.num; shards = b.shards; groups = groups })

    by_outcome :
        (out : Option Balance)
        → outcome out
          ≡ Option.map
              (λ (c : Config). record c { groups = groups })
              (elim out [ none ↦ none | some b ↦ some (record conf { shards = b.shards }) ])
    by_outcome none = refl
    by_outcome (some b) = refl
