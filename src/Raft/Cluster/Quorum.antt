-- ===== src/Raft/Cluster/Quorum.antt =====
-- Two majorities have a server in common.
use distributed_database.Prelude.{
  ℕ, zero, suc, ◌+◌, ◌/◌, ◌≤◌, ◌<◌, ◌≡◌, ◌≢◌, refl, subst, ◌∙◌, ◌⊎◌, inl, inr, List, [], ◌∷◌, ◌++◌,
  Has, Distinct, Distinct-append, Has-append_cases, length, length-append, arith, ◌==◌, ==_iff,
  if◌then◌else◌, Bool-cases,
}

-- The list without a number.
abbrev without : ℕ → List ℕ → List ℕ
without k [] = []
without k (x ∷ xs) = let rest = without k xs in if x == k then rest else x ∷ rest

Has-without : (j k : ℕ) (xs : List ℕ) → Has j (without k xs) → Has j xs × (j ≢ k)
Has-without j k [] h = absurd h
Has-without j k (x ∷ xs) h = elim (Bool-cases (x == k)) [
  | inl same ↦ let (has, ne) = Has-without j k xs (rw same at h) in (inr has, ne)
  | inr apart ↦ kept (λ e. ground (arith, e, apart)) (Has-without j k xs) (rw apart at h)
]
  where
    kept :
        x ≢ k
        → (Has j (without k xs) → Has j xs × (j ≢ k))
        → (x ≡ j) ⊎ Has j (without k xs)
        → ((x ≡ j) ⊎ Has j xs) × (j ≢ k)
    kept ne rest (inl here) = (inl here, λ e. ne (here ∙ e))
    kept ne rest (inr later) = let (has, ne') = rest later in (inr has, ne')

without-Distinct : (k : ℕ) (xs : List ℕ) → Distinct xs → Distinct (without k xs)
without-Distinct k [] d = tt
without-Distinct k (x ∷ xs) d = elim (Bool-cases (x == k)) [
  | inl same ↦ rw same (without-Distinct k xs d.1)
  | inr apart ↦ rw apart (λ h. d.0 (Has-without x k xs h).0, without-Distinct k xs d.1)
]

without_absent : (k : ℕ) (xs : List ℕ) → ¬ Has k xs → length (without k xs) ≡ length xs
without_absent k [] out = refl
without_absent k (x ∷ xs) out = elim (Bool-cases (x == k)) [
  | inl same ↦ absurd (out (inl ((==_iff x k).0 same)))
  | inr apart ↦ rw apart (omega (arith, without_absent k xs (λ h. out (inr h))))
]

length-without : (k : ℕ) (xs : List ℕ) → Distinct xs → length xs ≤ length (without k xs) + 1
length-without k [] d = omega arith
length-without k (x ∷ xs) d = elim (Bool-cases (x == k)) [
  | inl same ↦
      let out : ¬ Has k xs = subst (λ j. ¬ Has j xs) ((==_iff x k).0 same) d.0 in
      rw same (omega (arith, without_absent k xs out))
  | inr apart ↦ rw apart (omega (arith, length-without k xs d.1))
]

-- Of the numbers below `n` there are `n`.
length-below : (n : ℕ) (xs : List ℕ) → Distinct xs → ((j : ℕ) → Has j xs → j < n) → length xs ≤ n
length-below zero [] d below = omega arith
length-below zero (x ∷ xs) d below = absurd (omega (arith, below x (inl refl)))
length-below (suc n) xs d below =
    let rest : length (without n xs) ≤ n =
      length-below n (without n xs) (without-Distinct n xs d)
        (λ j h. (let (has, ne) = Has-without j n xs h in omega (arith, below j has, ne))) in
    omega (arith, rest, length-without n xs d)

Has-cases : (k : ℕ) (xs : List ℕ) → Has k xs ⊎ (¬ Has k xs)
Has-cases k [] = inr (λ h. h)
Has-cases k (x ∷ xs) = elim (Bool-cases (x == k)) [
  | inl same ↦ inl (inl ((==_iff x k).0 same))
  | inr apart ↦ elim (Has-cases k xs) [
    | inl later ↦ inl (inr later)
    | inr out ↦ inr (λ h. elim h [ inl e ↦ ground (arith, e, apart) | inr later ↦ out later ])
  ]
]

common-cases :
    (xs ys : List ℕ) → ((j : ℕ) × Has j xs × Has j ys) ⊎ ((j : ℕ) → Has j xs → ¬ Has j ys)
common-cases [] ys = inr (λ j h. absurd h)
common-cases (x ∷ xs) ys = elim (Has-cases x ys) [
  | inl both ↦ inl (x, inl refl, both)
  | inr out ↦ elim (common-cases xs ys) [
    | inl (j, hx, hy) ↦ inl (j, inr hx, hy)
    | inr none ↦
        inr
          (λ j h. elim h [ inl here ↦ subst (λ i. ¬ Has i ys) here out | inr later ↦ none j later ])
  ]
]

pub quorums_meet :
    (n : ℕ) (xs ys : List ℕ)
    → Distinct xs
    → Distinct ys
    → ((j : ℕ) → Has j xs → j < n)
    → ((j : ℕ) → Has j ys → j < n)
    → n / 2 + 1 ≤ length xs
    → n / 2 + 1 ≤ length ys
    → (j : ℕ) × Has j xs × Has j ys
quorums_meet n xs ys dx dy bx by big big' = elim (common-cases xs ys) [
  | inl found ↦ found
  | inr apart ↦
      let few = length-below n (xs ++ ys) (Distinct-append xs ys dx dy apart) (λ j h.
        elim (Has-append_cases j xs ys h) [ inl left ↦ bx j left | inr right ↦ by j right ]) in
      absurd (omega (arith, few, length-append xs ys))
]
