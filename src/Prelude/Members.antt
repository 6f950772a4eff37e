-- ===== src/Prelude/Members.antt =====
-- Which elements a list has.
use Prim.Native.Nat.{ℕ, zero, suc}
use mathlib.Core.Path.{◌≡◌, refl, sym, subst}
use mathlib.Core.Logic.{◌⊎◌, inl, inr}
use mathlib.Core.List.{List, [], ◌∷◌, ◌++◌}
use distributed_database.Prelude.Lists.{take, drop}

module _ {A : Type 0} where
  -- The element stands in the list.
  abbrev pub Has : A → List A → Type 0
  Has a [] = ⊥
  Has a (x ∷ xs) = (x ≡ a) ⊎ Has a xs

  -- No element stands in the list twice.
  abbrev pub Distinct : List A → Type 0
  Distinct [] = Unit
  Distinct (x ∷ xs) = ¬ Has x xs × Distinct xs

  pub Has-append_left : (a : A) (xs ys : List A) → Has a xs → Has a (xs ++ ys)
  Has-append_left a [] ys h = absurd h
  Has-append_left a (x ∷ xs) ys (inl here) = inl here
  Has-append_left a (x ∷ xs) ys (inr later) = inr (Has-append_left a xs ys later)

  pub Has-append_right : (a : A) (xs ys : List A) → Has a ys → Has a (xs ++ ys)
  Has-append_right a [] ys h = h
  Has-append_right a (x ∷ xs) ys h = inr (Has-append_right a xs ys h)

  pub Has-append_cases : (a : A) (xs ys : List A) → Has a (xs ++ ys) → Has a xs ⊎ Has a ys
  Has-append_cases a [] ys h = inr h
  Has-append_cases a (x ∷ xs) ys (inl here) = inl (inl here)
  Has-append_cases a (x ∷ xs) ys (inr later) = elim (Has-append_cases a xs ys later) [
    | inl left ↦ inl (inr left)
    | inr right ↦ inr right
  ]

  pub Distinct-append :
      (xs ys : List A)
      → Distinct xs
      → Distinct ys
      → ((a : A) → Has a xs → ¬ Has a ys)
      → Distinct (xs ++ ys)
  Distinct-append [] ys dx dy apart = dy
  Distinct-append (x ∷ xs) ys dx dy apart = (
    λ h. elim (Has-append_cases x xs ys h) [
      | inl left ↦ dx.0 left
      | inr right ↦ apart x (inl refl) right
    ],
    Distinct-append xs ys dx.1 dy (λ a h. apart a (inr h)),
  )

  pub Has-take : (a : A) (n : ℕ) (xs : List A) → Has a (take n xs) → Has a xs
  Has-take a zero xs h = absurd h
  Has-take a (suc n) [] h = absurd h
  Has-take a (suc n) (x ∷ xs) (inl here) = inl here
  Has-take a (suc n) (x ∷ xs) (inr later) = inr (Has-take a n xs later)

  pub Has-drop : (a : A) (n : ℕ) (xs : List A) → Has a (drop n xs) → Has a xs
  Has-drop a zero xs h = h
  Has-drop a (suc n) [] h = absurd h
  Has-drop a (suc n) (x ∷ xs) h = inr (Has-drop a n xs h)

  -- The two halves of a list without repetitions are such lists, with no common element.
  pub Distinct-halves :
      (n : ℕ) (xs : List A)
      → Distinct xs
      → Distinct (take n xs)
        × Distinct (drop n xs)
        × ((a : A) → Has a (take n xs) → ¬ Has a (drop n xs))
  Distinct-halves zero xs d = (tt, d, λ a h. absurd h)
  Distinct-halves (suc n) [] d = (tt, tt, λ a h. absurd h)
  Distinct-halves (suc n) (x ∷ xs) d =
      let (front, back, apart) = Distinct-halves n xs d.1 in
      ((λ h. d.0 (Has-take x n xs h), front), back, λ a h later. apart_cons a apart h later)
    where
      apart_cons :
          (a : A)
          → ((b : A) → Has b (take n xs) → ¬ Has b (drop n xs))
          → Has a (x ∷ take n xs)
          → Has a (drop n xs)
          → ⊥
      apart_cons a apart (inl here) later =
          d.0 (Has-drop x n xs (subst (λ b. Has b (drop n xs)) (sym here) later))
      apart_cons a apart (inr front) later = apart a front later
