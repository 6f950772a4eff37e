-- ===== src/ShardController/Rebalance/Rounds.antt =====
-- The loop of `rebalance`: it ends, and when it does the groups are balanced.
use distributed_database.Prelude.{
  ℕ, zero, suc, ◌+◌, ◌-◌, ◌*◌, ◌/◌, ◌≤◌, ◌<◌, ◌≡◌, ◌≢◌, refl, ap, sym, subst, ◌∙◌, inl, inr, List,
  ◌∷◌, some, Has, Distinct, length, arith, ltb, ltb→lt, ltb→ge, Bool-cases,
}
use distributed_database.ShardController.Rebalance.{Table, Move, maxmin, Balance, shift, balance}
use distributed_database.ShardController.Rebalance.Extremal.{maxmin-groups}
use distributed_database.ShardController.Rebalance.Tables.{IsTable}
use distributed_database.ShardController.Rebalance.Moves.{
  shift-length_from, shift-length_to, shift-length_other, shift-IsTable, shift-length,
}
use distributed_database.ShardController.Rebalance.Sums.{sum, sum_two, squares_lem, one-le-mul}

-- The numbers of shards of any two groups differ by one at most.
abbrev pub IsEven : List ℕ → Table → Type 0
IsEven gs ct = (g h : ℕ) → Has g gs → Has h gs → length (ct g) ≤ length (ct h) + 1

abbrev pub squares : List ℕ → Table → ℕ
squares gs ct = sum (λ g. length (ct g) * length (ct g)) gs

-- What the loop comes to from `b`: all shards of group 0 are given away, the groups are even, and
-- the groups that are not in the list keep what they have.
pub record IsEnd (gs : List ℕ) (b e : Balance) : Type 0 where
  pub table : IsTable e.shards e.table
  pub none_left : length (e.table 0) ≡ 0
  pub even : IsEven gs e.table
  pub same_length : length e.shards ≡ length b.shards
  pub others : (h : ℕ) → h ≢ 0 → ¬ Has h gs → length (e.table h) ≡ length (b.table h)

-- A round between two groups that are more than one apart makes the sum of the squares smaller.
shift-squares :
    (m : Move) (b : Balance) (gs : List ℕ)
    → Distinct gs
    → Has m.max_group gs
    → Has m.min_group gs
    → length (b.table m.max_group) ≡ m.max
    → length (b.table m.min_group) ≡ m.min
    → 1 < m.max - m.min
    → squares gs (shift m b).table < squares gs b.table
shift-squares m b gs d from to size size' far =
    let apart : m.max_group ≢ m.min_group =
      λ e. omega (arith, ap (λ h. length (b.table h)) e, size, size') in
    let c = (m.max - m.min) / 2 in
    let rest = m.max - m.min - c in
    let enough : c ≤ length (b.table m.max_group) = omega arith in
    let largest : length (b.table m.max_group) ≡ m.min + c + rest = omega arith in
    let largest' : length ((shift m b).table m.max_group) ≡ m.min + rest =
      omega (arith, shift-length_from m b apart enough) in
    let smallest' : length ((shift m b).table m.min_group) ≡ m.min + c =
      omega (arith, shift-length_to m b apart enough) in
    let sums =
      sum_two (λ g. length (b.table g) * length (b.table g))
        (λ g. length ((shift m b).table g) * length ((shift m b).table g)) m.max_group m.min_group
        gs d from to apart (λ g f t. ap (λ n. n * n) (shift-length_other m b apart enough g f t)) in
    omega (
      arith,
      sums,
      squares_lem m.min c rest,
      one-le-mul c rest (omega arith) (omega arith),
      ap (λ n. n * n) largest,
      ap (λ n. n * n) largest',
      ap (λ n. n * n) size',
      ap (λ n. n * n) smallest',
    )

module _ (g : ℕ) (gs : List ℕ) (d : Distinct (g ∷ gs)) (no_zero : ¬ Has 0 (g ∷ gs)) where
  -- A round between two groups that are in the list.
  record IsRound (b b' : Balance) : Type 0 where
    table : IsTable b'.shards b'.table
    none_left : length (b'.table 0) ≡ 0
    smaller : squares (g ∷ gs) b'.table < squares (g ∷ gs) b.table
    same_length : length b'.shards ≡ length b.shards
    others : (h : ℕ) → ¬ Has h (g ∷ gs) → length (b'.table h) ≡ length (b.table h)

  -- A group that is not in the list is neither of the two of a round.
  outside : (h k : ℕ) → ¬ Has h (g ∷ gs) → Has k (g ∷ gs) → h ≢ k
  outside h k out has e = out (subst (λ i. Has i (g ∷ gs)) (sym e) has)

  round_lem :
      (b : Balance)
      → IsTable b.shards b.table
      → length (b.table 0) ≡ 0
      → 1 < (maxmin b.table (g ∷ gs)).max - (maxmin b.table (g ∷ gs)).min
      → IsRound b (shift (maxmin b.table (g ∷ gs)) b)
  round_lem b t empty far =
      let m = maxmin b.table (g ∷ gs) in
      let x = maxmin-groups b.table g gs empty in
      let (from, size) = x.from_largest (omega arith) in
      let (to, size') = x.to_smallest in
      let apart : m.max_group ≢ m.min_group =
        λ e. omega (arith, ap (λ h. length (b.table h)) e, size, size') in
      let enough : (m.max - m.min) / 2 ≤ length (b.table m.max_group) = omega arith in
      let others : (h : ℕ) → ¬ Has h (g ∷ gs) → length ((shift m b).table h) ≡ length (b.table h) =
        λ h out.
          shift-length_other m b apart enough h (outside h _ out from) (outside h _ out to) in
      record {
        table = shift-IsTable m b t apart enough;
        none_left = others 0 no_zero ∙ empty;
        smaller = shift-squares m b (g ∷ gs) d from to size size' far;
        same_length = shift-length m b;
        others = others;
      }

  -- With more fuel than the sum of the squares the loop ends.
  pub balance-ends :
      (fuel : ℕ) (b : Balance)
      → IsTable b.shards b.table
      → length (b.table 0) ≡ 0
      → squares (g ∷ gs) b.table < fuel
      → (e : Balance) × (balance fuel (g ∷ gs) b ≡ some e) × IsEnd (g ∷ gs) b e
  unfolding balance
  balance-ends zero b t empty enough = absurd (omega arith)
  balance-ends (suc fuel) b t empty enough =
      let m = maxmin b.table (g ∷ gs) in
      elim (Bool-cases (ltb 1 (m.max - m.min))) [
        | inr close ↦
            let x = maxmin-groups b.table g gs empty in
            (
              b,
              rw close,
              record {
                table = t;
                none_left = empty;
                even = λ h k hh hk.
                    omega (arith, x.largest h hh, x.smallest k hk, ltb→ge 1 (m.max - m.min) close);
                same_length = refl;
                others = λ h nonzero out. refl;
              },
            )
        | inl far ↦
            let r = round_lem b t empty (ltb→lt 1 (m.max - m.min) far) in
            let (e, runs, end) =
              balance-ends fuel (shift m b) r.table r.none_left (omega (arith, r.smaller)) in
            (
              e,
              rw far runs,
              record {
                table = end.table;
                none_left = end.none_left;
                even = end.even;
                same_length = end.same_length ∙ r.same_length;
                others = λ h nonzero out. end.others h nonzero out ∙ r.others h out;
              },
            )
      ]
