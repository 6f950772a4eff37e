-- ===== src/ShardController/Server/Fair.antt =====
-- Sound configurations of the controller, and what `rebalance` and `conf` make of them.
use distributed_database.Prelude.{
  ℕ, ◌+◌, ◌≤◌, ◌<◌, ◌≡◌, ◌≢◌, ◌-◌, refl, sym, subst, ◌∙◌, inl, List, [], ◌∷◌, map, some, ok, length,
  get_elem?, get_elem?-lt, zero, suc, All, arith, ◌==◌, if◌then◌else◌, Text, nat_eq, Has, Distinct,
}
use distributed_database.ShardController.Types.{n_shards, Config}
use distributed_database.ShardController.Rebalance.{keys, rebalance}
use distributed_database.ShardController.Rebalance.Tables.{count}
use distributed_database.ShardController.Rebalance.Balanced.{rebalance_lem, rebalance_none}
use distributed_database.ShardController.Server.{configs_tail, conf, drop_groups}
use distributed_database.ShardController.Server.Groups.{Has-remove, remove-Distinct}

-- A configuration has ten shards, and its groups are numbered, from 1 on, once each.
pub record IsSound (c : Config) : Type 0 where
  pub ten : length c.shards ≡ n_shards
  pub distinct : Distinct (keys c.groups)
  pub no_zero : ¬ Has 0 (keys c.groups)

length-map_lem : (f : ℕ → ℕ) (xs : List ℕ) → length (map f xs) ≡ length xs
length-map_lem f [] = refl
length-map_lem f (x ∷ xs) = omega (arith, length-map_lem f xs)

pub drop_groups-IsSound : (ks : List ℕ) (c : Config) → IsSound c → IsSound (drop_groups ks c)
unfolding drop_groups
drop_groups-IsSound [] c s = s
drop_groups-IsSound (k ∷ ks) c s = drop_groups-IsSound ks _ (record {
  ten = length-map_lem (λ gid. if gid == k then 0 else gid) c.shards ∙ s.ten;
  distinct = remove-Distinct k c.groups s.distinct;
  no_zero = λ h. s.no_zero (Has-remove 0 k c.groups h);
})

-- What `rebalance` makes of a sound configuration: no group has two shards more than another, and
-- group 0 has none if there is a group.
pub record IsFair (old new : Config) : Type 0 where
  pub sound : IsSound new
  pub num : new.num ≡ old.num
  pub groups : new.groups ≡ old.groups
  pub none_left : (k : ℕ) → Has k (keys old.groups) → count 0 new.shards ≡ 0
  pub even :
      (g h : ℕ)
      → Has g (keys old.groups)
      → Has h (keys old.groups)
      → count g new.shards ≤ count h new.shards + 1
  pub others : (h : ℕ) → h ≢ 0 → ¬ Has h (keys old.groups) → count h new.shards ≡ count h old.shards

pub rebalance-IsFair : (c : Config) → IsSound c → (b : Config) × (rebalance c ≡ some b) × IsFair c b
rebalance-IsFair c s = by_groups c.groups refl
  where
    by_groups :
        (m : List (ℕ × List Text))
        → c.groups ≡ m
        → (b : Config) × (rebalance c ≡ some b) × IsFair c b
    by_groups [] e =
        let out : (k : ℕ) → ¬ Has k (keys c.groups) =
          λ k. subst (λ n. ¬ Has k (keys n)) (sym e) (λ h. h) in
        (
          c,
          rebalance_none c e,
          record {
            sound = s;
            num = refl;
            groups = refl;
            none_left = λ k h. absurd (out k h);
            even = λ g h hg hh. absurd (out g hg);
            others = λ h nonzero missing. refl;
          },
        )
    by_groups ((k, v) ∷ m) e =
        let has : Has k (keys c.groups) = subst (λ n. Has k (keys n)) (sym e) (inl refl) in
        let (b, runs, r) = rebalance_lem c s.distinct s.no_zero k has s.ten in
        (
          b,
          runs,
          record {
            sound = record {
              ten = r.same_length ∙ s.ten;
              distinct = subst (λ n. Distinct (keys n)) (sym r.groups) s.distinct;
              no_zero = subst (λ n. ¬ Has 0 (keys n)) (sym r.groups) s.no_zero;
            };
            num = r.num;
            groups = r.groups;
            none_left = λ k h. r.none_left;
            even = r.even;
            others = r.others;
          },
        )

-- The latest configuration, and its copy with the next number.
pub conf-ok :
    (configs : List Config)
    → 0 < length configs
    → All IsSound configs
    → (tail : Config) × (get_elem? configs (length configs - 1) ≡ some tail)
      × (conf configs
          ≡ ok (record { num = tail.num + 1; shards = tail.shards; groups = tail.groups }))
      × IsSound tail
unfolding conf configs_tail
conf-ok [] nonempty all = absurd (omega arith)
conf-ok (d ∷ ds) nonempty all =
    let (tail, at) = get_elem?-lt (d ∷ ds) (length ds) (omega arith) in
    let behind : length ds ≡ suc (length ds) - 1 = omega arith in
    let last = subst (λ i. get_elem? (d ∷ ds) i ≡ some tail) behind at in
    (tail, last, rw at refl, at_place (d ∷ ds) (length ds) tail all at)
  where
    at_place :
        (cs : List Config) (i : ℕ) (c : Config)
        → All IsSound cs
        → get_elem? cs i ≡ some c
        → IsSound c
    at_place [] i c all at = cc
    at_place (b ∷ bs) zero c (s, all) at = subst IsSound (ground arith) s
    at_place (b ∷ bs) (suc i) c (s, all) at = at_place bs i c all at
