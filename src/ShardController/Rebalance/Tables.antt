-- ===== src/ShardController/Rebalance/Tables.antt =====
-- The table of groups agrees with the list of shards, at first and after each round.
use mathlib.Core.List.{append_assoc, append-nil}
use distributed_database.Prelude.{
  ℕ, suc, ◌+◌, ◌-◌, ◌≤◌, ◌≡◌, ◌≢◌, refl, ap, sym, subst, ◌∙◌, ◌⊎◌, inl, inr, List, [], ◌∷◌, ◌++◌,
  some, Has, Distinct, length, get_elem?, arith, ◌==◌, if◌then◌else◌, Bool-cases, ==_iff, ==_refl,
  ne→==,
}
use distributed_database.ShardController.Rebalance.{Table, update, tabulate}

abbrev pub count : ℕ → List ℕ → ℕ
count g [] = 0
count g (x ∷ xs) = (if x == g then 1 else 0) + count g xs

-- The table has for each group the places of its shards, each once.
pub record IsTable (shards : List ℕ) (ct : Table) : Type 0 where
  pub sound : (g i : ℕ) → Has i (ct g) → get_elem? shards i ≡ some g
  pub distinct : (g : ℕ) → Distinct (ct g)
  pub sizes : (g : ℕ) → length (ct g) ≡ count g shards

-- The places of a group's shards, from place `i` on.
abbrev positions : ℕ → ℕ → List ℕ → List ℕ
positions i g [] = []
positions i g (x ∷ xs) = let rest = positions (i + 1) g xs in if x == g then i ∷ rest else rest

pub update_self : (ct : Table) (g : ℕ) (xs : List ℕ) → update ct g xs g ≡ xs
unfolding update
update_self ct g xs = rw (==_refl g)

pub update-ne : (ct : Table) (g h : ℕ) (xs : List ℕ) → h ≢ g → update ct g xs h ≡ ct h
unfolding update
update-ne ct g h xs ne = rw (ne→== h g ne)

tabulate-positions :
    (i g : ℕ) (xs : List ℕ) (ct : Table) → tabulate i xs ct g ≡ ct g ++ positions i g xs
unfolding tabulate
tabulate-positions i g [] ct = sym (append-nil (ct g))
tabulate-positions i g (x ∷ xs) ct =
    tabulate-positions (i + 1) g xs (update ct x (ct x ++ i ∷ [])) ∙ elim (Bool-cases (x == g)) [
      | inl same ↦
          let here : x ≡ g = (==_iff x g).0 same in
          rw same (
            ap (λ zs. zs ++ positions (i + 1) g xs)
              (subst (λ y. update ct x (ct x ++ i ∷ []) y ≡ ct y ++ i ∷ []) here
                (update_self ct x (ct x ++ i ∷ [])))
            ∙ append_assoc (ct g) (i ∷ []) (positions (i + 1) g xs))
      | inr other ↦ rw other (
          ap (λ zs. zs ++ positions (i + 1) g xs)
            (update-ne ct x g (ct x ++ i ∷ []) (λ e. ground (arith, e, other))))
    ]

positions_sound :
    (i g j : ℕ) (xs : List ℕ) → Has j (positions i g xs) → (i ≤ j) × (get_elem? xs (j - i) ≡ some g)
positions_sound i g j [] h = absurd h
positions_sound i g j (x ∷ xs) h = elim (Bool-cases (x == g)) [
  | inl same ↦ at_front ((==_iff x g).0 same) (positions_sound (i + 1) g j xs) (rw same at h)
  | inr other ↦ behind (positions_sound (i + 1) g j xs (rw other at h))
]
  where
    behind :
        (i + 1 ≤ j) × (get_elem? xs (j - (i + 1)) ≡ some g)
        → (i ≤ j) × (get_elem? (x ∷ xs) (j - i) ≡ some g)
    behind (le, at) = let k : j - i ≡ suc (j - (i + 1)) = omega arith in (omega arith, rw k at)

    at_front :
        x ≡ g
        → (Has j (positions (i + 1) g xs) → (i + 1 ≤ j) × (get_elem? xs (j - (i + 1)) ≡ some g))
        → (i ≡ j) ⊎ Has j (positions (i + 1) g xs)
        → (i ≤ j) × (get_elem? (x ∷ xs) (j - i) ≡ some g)
    at_front here rest (inl place) =
        let k : j - i ≡ 0 = omega arith in (omega arith, rw k (ap some here))
    at_front here rest (inr later) = behind (rest later)

positions-Distinct : (i g : ℕ) (xs : List ℕ) → Distinct (positions i g xs)
positions-Distinct i g [] = tt
positions-Distinct i g (x ∷ xs) = elim (Bool-cases (x == g)) [
  | inl same ↦
      rw same
        (λ h. omega (arith, (positions_sound (i + 1) g i xs h).0), positions-Distinct (i + 1) g xs)
  | inr other ↦ rw other (positions-Distinct (i + 1) g xs)
]

length-positions : (i g : ℕ) (xs : List ℕ) → length (positions i g xs) ≡ count g xs
length-positions i g [] = refl
length-positions i g (x ∷ xs) = ground (arith, length-positions (i + 1) g xs)

pub tabulate-IsTable : (shards : List ℕ) → IsTable shards (tabulate 0 shards (λ g. []))
tabulate-IsTable shards = record {
  sound = λ g i h.
      (let (le, at) =
          positions_sound 0 g i shards
            (subst (Has i) (tabulate-positions 0 g shards (λ g. [])) h) in
        let k : i - 0 ≡ i = omega arith in rw (← k) at);
  distinct = λ g.
      subst Distinct (sym (tabulate-positions 0 g shards (λ g. [])))
        (positions-Distinct 0 g shards);
  sizes = λ g. ap length (tabulate-positions 0 g shards (λ g. [])) ∙ length-positions 0 g shards;
}
