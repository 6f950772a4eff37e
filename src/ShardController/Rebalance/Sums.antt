-- ===== src/ShardController/Rebalance/Sums.antt =====
-- Sums over the groups.
use distributed_database.Prelude.{
  ℕ, ◌+◌, ◌*◌, ◌≤◌, ◌<◌, ◌≡◌, ◌≢◌, refl, ap, sym, subst, ◌∙◌, inl, inr, List, [], ◌∷◌, Has,
  Distinct, length, arith, ◌==◌, if◌then◌else◌, Bool-cases, ==_iff,
}
use distributed_database.ShardController.Rebalance.Tables.{count}

abbrev pub sum : (ℕ → ℕ) → List ℕ → ℕ
sum w [] = 0
sum w (g ∷ gs) = w g + sum w gs

pub sum_same :
    (w w' : ℕ → ℕ) (gs : List ℕ) → ((g : ℕ) → Has g gs → w' g ≡ w g) → sum w' gs ≡ sum w gs
sum_same w w' [] h = refl
sum_same w w' (g ∷ gs) h =
    omega (arith, h g (inl refl), sum_same w w' gs (λ k later. h k (inr later)))

-- A sum in which one group changes.
sum_one :
    (w w' : ℕ → ℕ) (b : ℕ) (gs : List ℕ)
    → Distinct gs
    → Has b gs
    → ((g : ℕ) → Has g gs → g ≢ b → w' g ≡ w g)
    → sum w' gs + w b ≡ sum w gs + w' b
sum_one w w' b [] d h same = absurd h
sum_one w w' b (g ∷ gs) d (inl here) same =
    let rest : sum w' gs ≡ sum w gs =
      sum_same w w' gs
        (λ k later. same k (inr later) (λ e. d.0 (subst (λ i. Has i gs) (e ∙ sym here) later))) in
    omega (arith, rest, ap w here, ap w' here)
sum_one w w' b (g ∷ gs) d (inr later) same =
    let this : w' g ≡ w g = same g (inl refl) (λ e. d.0 (subst (λ i. Has i gs) (sym e) later)) in
    omega (arith, this, sum_one w w' b gs d.1 later (λ k h. same k (inr h)))

-- A sum in which two groups change.
pub sum_two :
    (w w' : ℕ → ℕ) (a b : ℕ) (gs : List ℕ)
    → Distinct gs
    → Has a gs
    → Has b gs
    → a ≢ b
    → ((g : ℕ) → g ≢ a → g ≢ b → w' g ≡ w g)
    → sum w' gs + w a + w b ≡ sum w gs + w' a + w' b
sum_two w w' a b [] d ha hb apart same = absurd ha
sum_two w w' a b (g ∷ gs) d (inl here) (inl there) apart same = absurd (apart (sym here ∙ there))
sum_two w w' a b (g ∷ gs) d (inl here) (inr later) apart same =
    let rest =
      sum_one w w' b gs d.1 later
        (λ k h other. same k (λ e. d.0 (subst (λ i. Has i gs) (e ∙ sym here) h)) other) in
    omega (arith, rest, ap w here, ap w' here)
sum_two w w' a b (g ∷ gs) d (inr later) (inl there) apart same =
    let rest =
      sum_one w w' a gs d.1 later
        (λ k h other. same k other (λ e. d.0 (subst (λ i. Has i gs) (e ∙ sym there) h))) in
    omega (arith, rest, ap w there, ap w' there)
sum_two w w' a b (g ∷ gs) d (inr ha) (inr hb) apart same =
    let this : w' g ≡ w g =
      same g (λ e. d.0 (subst (λ i. Has i gs) (sym e) ha))
        (λ e. d.0 (subst (λ i. Has i gs) (sym e) hb)) in
    omega (arith, this, sum_two w w' a b gs d.1 ha hb apart same)

-- Each shard counts for one group at most.
sum_indicator-le : (x : ℕ) (gs : List ℕ) → Distinct gs → sum (λ g. if x == g then 1 else 0) gs ≤ 1
sum_indicator-le x [] d = omega arith
sum_indicator-le x (g ∷ gs) d = elim (Bool-cases (x == g)) [
  | inl here ↦
      let same : x ≡ g = (==_iff x g).0 here in
      rw here (omega (arith, none x gs (λ h. d.0 (subst (λ i. Has i gs) same h))))
  | inr other ↦ rw other (omega (arith, sum_indicator-le x gs d.1))
]
  where
    none : (x : ℕ) (gs : List ℕ) → ¬ Has x gs → sum (λ g. if x == g then 1 else 0) gs ≡ 0
    none x [] h = refl
    none x (g ∷ gs) h = elim (Bool-cases (x == g)) [
      | inl here ↦ absurd (h (inl (sym ((==_iff x g).0 here))))
      | inr other ↦ rw other (omega (arith, none x gs (λ later. h (inr later))))
    ]

sum_add : (v w : ℕ → ℕ) (gs : List ℕ) → sum (λ g. v g + w g) gs ≡ sum v gs + sum w gs
sum_add v w [] = refl
sum_add v w (g ∷ gs) = omega (arith, sum_add v w gs)

pub sum_count-le : (xs gs : List ℕ) → Distinct gs → sum (λ g. count g xs) gs ≤ length xs
sum_count-le [] gs d = zero_sum gs
  where
    zero_sum : (gs : List ℕ) → sum (λ g. 0) gs ≤ 0
    zero_sum [] = omega arith
    zero_sum (g ∷ gs) = omega (arith, zero_sum gs)
sum_count-le (x ∷ xs) gs d = omega (
  arith,
  sum_add (λ g. if x == g then 1 else 0) (λ g. count g xs) gs,
  sum_indicator-le x gs d,
  sum_count-le xs gs d,
)

pub sum_squares-le : (w : ℕ → ℕ) (gs : List ℕ) → sum (λ g. w g * w g) gs ≤ sum w gs * sum w gs
sum_squares-le w [] = omega arith
sum_squares-le w (g ∷ gs) = grind (arith, sum_squares-le w gs)

-- Taking `c` from a group that has at least two more than another makes the squares smaller.
pub squares_lem :
    (x c d : ℕ)
    → (x + d) * (x + d) + (x + c) * (x + c) + 2 * (c * d) ≡ (x + c + d) * (x + c + d) + x * x
squares_lem x c d = grind arith

pub one-le-mul : (c d : ℕ) → 0 < c → 0 < d → 1 ≤ c * d
one-le-mul c d hc hd = grind arith
