-- ===== src/ShardController/Rebalance.antt =====
-- `rebalance` and `maxmin` of the shard controller's server.go.
pub mod Extremal
pub mod Tables
pub mod Moves
pub mod Sums
pub mod Rounds
pub mod Sorted
pub mod Balanced
pub mod Total
pub mod Order
use distributed_database.Prelude.{
  ℕ, zero, suc, ◌+◌, ◌-◌, ◌*◌, ◌/◌, Bool, true, List, [], ◌∷◌, ◌++◌, Option, none, some, length,
  take, drop, set, ltb, leb, ◌==◌, if◌then◌else◌,
}
use distributed_database.ShardController.Types.{Config}

-- The map `ct` from groups to their shards; a missing group has none.
abbrev pub Table : Type 0
Table = ℕ → List ℕ

-- ct[g] = xs
unfoldable pub update : Table → ℕ → List ℕ → Table
update ct g xs h = if h == g then xs else ct h

abbrev pub keys {ℓ} : {V : Type ℓ} → List (ℕ × V) → List ℕ
keys [] = []
keys ((k, v) ∷ m) = k ∷ keys m

-- sort.Ints, which is Go's: the numbers in rising order.
unfoldable pub sort_insert : ℕ → List ℕ → List ℕ
sort_insert x [] = x ∷ []
sort_insert x (y ∷ ys) = if leb x y then x ∷ y ∷ ys else y ∷ sort_insert x ys

unfoldable pub sort : List ℕ → List ℕ
unfolding sort_insert
sort [] = []
sort (x ∷ xs) = sort_insert x (sort xs)

-- for i, gid := range conf.Shards { ct[gid] = append(ct[gid], i) }
unfoldable pub tabulate : ℕ → List ℕ → Table → Table
unfolding update
tabulate i [] ct = ct
tabulate i (gid ∷ shards) ct = tabulate (i + 1) shards (update ct gid (ct gid ++ i ∷ []))

-- The loop of `maxmin`; `none` is the initial minimum, math.MaxInt.
pub record Extremes : Type 0 where
  pub most : ℕ
  pub most_group : ℕ
  pub least : Option ℕ
  pub least_group : ℕ

-- One round of it.
unfoldable pub look : Table → ℕ → Extremes → Extremes
look ct g x =
    let l = length (ct g) in
    let larger = ltb x.most l in
    let smaller : Bool = elim x.least [ none ↦ true | some m ↦ ltb l m ] in
    record {
      most = if larger then l else x.most;
      most_group = if larger then g else x.most_group;
      least = if smaller then some l else x.least;
      least_group = if smaller then g else x.least_group;
    }

unfoldable pub scan : Table → List ℕ → Extremes → Extremes
scan ct [] x = x
scan ct (g ∷ gs) x = scan ct gs (look ct g x)

-- The four results of `maxmin`.
pub record Move : Type 0 where
  pub max : ℕ
  pub max_group : ℕ
  pub min : ℕ
  pub min_group : ℕ

-- With no groups the minimum is math.MaxInt and the difference that the loop tests is not positive:
-- a minimum of the maximum stands for it.
unfoldable pub maxmin : Table → List ℕ → Move
unfolding scan
maxmin ct gs =
    let x = scan ct gs (record { most = 0; most_group = 0; least = none; least_group = 0 }) in
    if ltb 0 (length (ct 0))
    then (elim x.least [
      | none ↦ record { max = 0; max_group = 0; min = 0; min_group = 0 }
      | some m ↦ record {
        max = length (ct 0) * 2;
        max_group = 0;
        min = 0;
        min_group = x.least_group;
      }
    ])
    else (elim x.least [
      | none ↦ record {
        max = x.most;
        max_group = x.most_group;
        min = x.most;
        min_group = x.least_group;
      }
      | some m ↦ record {
        max = x.most;
        max_group = x.most_group;
        min = m;
        min_group = x.least_group;
      }
    ])

-- for _, t := range ts { conf.Shards[t] = gid }
unfoldable pub assign : ℕ → List ℕ → List ℕ → List ℕ
assign gid [] shards = shards
assign gid (t ∷ ts) shards = assign gid ts (set shards t gid)

pub record Balance : Type 0 where
  pub table : Table
  pub shards : List ℕ

-- One round of the loop.
unfoldable pub shift : Move → Balance → Balance
unfolding update assign
shift m b =
    let c = (m.max - m.min) / 2 in
    let ts = take c (b.table m.max_group) in
    let ct = update b.table m.max_group (drop c (b.table m.max_group)) in
    record {
      table = update ct m.min_group (ct m.min_group ++ ts);
      shards = assign m.min_group ts b.shards;
    }

-- The loop, on fuel: `none` means that the fuel ran out.
unfoldable pub balance : ℕ → List ℕ → Balance → Option Balance
balance zero gs b = none
balance (suc fuel) gs b =
    let m = maxmin b.table gs in
    let rest = balance fuel gs (shift m b) in if ltb 1 (m.max - m.min) then rest else some b

-- The fuel for ten shards: a round that takes shards from group 0 takes all of them, and any other
-- makes the sum of the squares of the groups' numbers of shards, 100 at most, smaller by two.
abbrev pub rounds : ℕ
rounds = 102

unfoldable pub rebalance : Config → Option Config
rebalance conf =
    let start : Balance = record {
      table = tabulate 0 conf.shards (λ g. []);
      shards = conf.shards;
    } in
    elim (balance rounds (sort (keys conf.groups)) start) [
      | none ↦ none
      | some b ↦ some (record conf { shards = b.shards })
    ]
