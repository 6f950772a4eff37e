-- ===== src/ShardController/Rebalance/Balanced.antt =====
-- `rebalance` as a whole: the groups in order, the table of their shards and the loop.
use distributed_database.Prelude.{
  ℕ, ◌+◌, ◌-◌, ◌*◌, ◌/◌, ◌≤◌, ◌<◌, ◌≡◌, ◌≢◌, refl, ap, sym, subst, ◌∙◌, inl, inr, true, false, List,
  [], ◌∷◌, some, Has, Distinct, length, arith, ltb, lt→ltb, ge→ltb, Bool-cases, Text,
}
use distributed_database.ShardController.Types.{n_shards, Config}
use distributed_database.ShardController.Rebalance.{
  keys, Table, maxmin, tabulate, sort, Balance, shift, balance, rounds, rebalance,
}
use distributed_database.ShardController.Rebalance.Extremal.{maxmin-zero, maxmin-nil}
use distributed_database.ShardController.Rebalance.Tables.{count, IsTable, tabulate-IsTable}
use distributed_database.ShardController.Rebalance.Moves.{
  shift-length_from, shift-length_other, shift-IsTable, shift-length,
}
use distributed_database.ShardController.Rebalance.Sums.{
  sum, sum_same, sum_count-le, sum_squares-le,
}
use distributed_database.ShardController.Rebalance.Rounds.{squares, IsEnd, balance-ends}
use distributed_database.ShardController.Rebalance.Sorted.{Has-sort, sort-Has, sort-Distinct}

square-le : (n : ℕ) → n ≤ n_shards → n * n ≤ 100
square-le n h = grind (arith, h)

-- A table for ten shards has at most a hundred.
squares-le :
    (gs shards : List ℕ) (ct : Table)
    → Distinct gs
    → IsTable shards ct
    → length shards ≡ n_shards
    → squares gs ct ≤ 100
squares-le gs shards ct d t ten =
    let same = sum_same (λ g. count g shards) (λ g. length (ct g)) gs (λ g h. t.sizes g) in
    let few : sum (λ g. length (ct g)) gs ≤ n_shards =
      omega (arith, same, sum_count-le shards gs d, ten) in
    omega (arith, sum_squares-le (λ g. length (ct g)) gs, square-le _ few)

module _ (g : ℕ) (gs : List ℕ) (d : Distinct (g ∷ gs)) (no_zero : ¬ Has 0 (g ∷ gs)) where
  -- The round that empties group 0.
  record IsFirst (b b' : Balance) : Type 0 where
    table : IsTable b'.shards b'.table
    none_left : length (b'.table 0) ≡ 0
    same_length : length b'.shards ≡ length b.shards
    others : (h : ℕ) → h ≢ 0 → ¬ Has h (g ∷ gs) → length (b'.table h) ≡ length (b.table h)

  give_away :
      (b : Balance)
      → IsTable b.shards b.table
      → 0 < length (b.table 0)
      → IsFirst b (shift (maxmin b.table (g ∷ gs)) b)
  give_away b t full =
      let m = maxmin b.table (g ∷ gs) in
      let (size, from, least, to) = maxmin-zero b.table g gs full in
      let apart : m.max_group ≢ m.min_group =
        λ e. no_zero (subst (λ h. Has h (g ∷ gs)) (sym e ∙ from) to) in
      let same : length (b.table m.max_group) ≡ length (b.table 0) =
        ap (λ h. length (b.table h)) from in
      let enough : (m.max - m.min) / 2 ≤ length (b.table m.max_group) =
        omega (arith, size, least, same) in
      record {
        table = shift-IsTable m b t apart enough;
        none_left =
            ap (λ h. length ((shift m b).table h)) (sym from)
            ∙ omega (arith, size, least, same, shift-length_from m b apart enough);
        same_length = shift-length m b;
        others = λ h nonzero out.
            shift-length_other m b apart enough h (λ e. nonzero (e ∙ from))
              (λ e. out (subst (λ k. Has k (g ∷ gs)) (sym e) to));
      }

  balance_lem :
      (b : Balance)
      → IsTable b.shards b.table
      → length b.shards ≡ n_shards
      → (e : Balance) × (balance rounds (g ∷ gs) b ≡ some e) × IsEnd (g ∷ gs) b e
  unfolding balance
  balance_lem b t ten = elim (Bool-cases (ltb 0 (length (b.table 0)))) [
    | inr none_there ↦
        balance-ends g gs d no_zero rounds b t (ground arith)
          (omega (arith, squares-le (g ∷ gs) b.shards b.table d t ten))
    | inl some_there ↦
        let full : 0 < length (b.table 0) = ground arith in
        let m = maxmin b.table (g ∷ gs) in
        let (size, from, least, to) = maxmin-zero b.table g gs full in
        let f = give_away b t full in
        let (e, runs, end) = balance-ends g gs d no_zero 101 (shift m b) f.table f.none_left (
          omega (
            arith,
            squares-le (g ∷ gs) (shift m b).shards (shift m b).table d f.table
                (f.same_length ∙ ten),
          )) in
        let far : ltb 1 (m.max - m.min) ≡ true =
          lt→ltb 1 (m.max - m.min) (omega (arith, size, least, full)) in
        (
          e,
          rw far runs,
          record {
            table = end.table;
            none_left = end.none_left;
            even = end.even;
            same_length = end.same_length ∙ f.same_length;
            others = λ h nonzero out. end.others h nonzero out ∙ f.others h nonzero out;
          },
        )
  ]

balance_any :
    (k : ℕ) (gs : List ℕ) (b : Balance)
    → Distinct gs
    → ¬ Has 0 gs
    → Has k gs
    → IsTable b.shards b.table
    → length b.shards ≡ n_shards
    → (e : Balance) × (balance rounds gs b ≡ some e) × IsEnd gs b e
balance_any k [] b d no_zero has t ten = absurd has
balance_any k (g ∷ gs) b d no_zero has t ten = balance_lem g gs d no_zero b t ten

-- What `rebalance` does to the shards of a configuration, counted.
pub record IsRebalanced (old new : Config) : Type 0 where
  pub num : new.num ≡ old.num
  pub groups : new.groups ≡ old.groups
  pub same_length : length new.shards ≡ length old.shards
  pub none_left : count 0 new.shards ≡ 0
  pub even :
      (g h : ℕ)
      → Has g (keys old.groups)
      → Has h (keys old.groups)
      → count g new.shards ≤ count h new.shards + 1
  pub others : (h : ℕ) → h ≢ 0 → ¬ Has h (keys old.groups) → count h new.shards ≡ count h old.shards

module _ (conf : Config) (d : Distinct (keys conf.groups)) (no_zero : ¬ Has 0 (keys conf.groups))
    (k : ℕ) (has : Has k (keys conf.groups)) (ten : length conf.shards ≡ n_shards) where
  pub rebalance_lem : (c : Config) × (rebalance conf ≡ some c) × IsRebalanced conf c
  unfolding rebalance
  rebalance_lem =
      let gs = sort (keys conf.groups) in
      let start : Balance = record {
        table = tabulate 0 conf.shards (λ g. []);
        shards = conf.shards;
      } in
      let t = tabulate-IsTable conf.shards in
      let (e, runs, end) =
        balance_any k gs start (sort-Distinct (keys conf.groups) d)
          (λ h. no_zero (Has-sort 0 (keys conf.groups) h)) (sort-Has k (keys conf.groups) has) t
          ten in
      (
        record conf { shards = e.shards },
        rw (rebalance, runs) refl,
        record {
          num = refl;
          groups = refl;
          same_length = end.same_length;
          none_left = sym (end.table.sizes 0) ∙ end.none_left;
          even = λ g h hg hh. omega (
            arith,
            end.even g h (sort-Has g (keys conf.groups) hg) (sort-Has h (keys conf.groups) hh),
            end.table.sizes g,
            end.table.sizes h,
          );
          others = λ h nonzero out.
              sym (end.table.sizes h)
              ∙ end.others h nonzero (λ has. out (Has-sort h (keys conf.groups) has))
              ∙ t.sizes h;
        },
      )

balance_none : (b : Balance) → balance rounds [] b ≡ some b
unfolding balance
balance_none b =
    let close : ltb 1 ((maxmin b.table []).max - (maxmin b.table []).min) ≡ false =
      ge→ltb 1 _ (maxmin-nil b.table) in
    rw close refl

sort_none : (m : List (ℕ × List Text)) → m ≡ [] → sort (keys m) ≡ []
unfolding sort
sort_none m empty = ap (λ n. sort (keys n)) empty

-- With no groups `rebalance` changes nothing.
pub rebalance_none : (conf : Config) → conf.groups ≡ [] → rebalance conf ≡ some conf
unfolding rebalance
rebalance_none conf empty =
    let start : Balance = record {
      table = tabulate 0 conf.shards (λ g. []);
      shards = conf.shards;
    } in
    rw (rebalance, sort_none conf.groups empty, balance_none start) refl
