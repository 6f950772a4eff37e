-- ===== src/ShardController/Rebalance/Sorted.antt =====
-- Sorting keeps the numbers of a list.
use distributed_database.Prelude.{
  ℕ, ◌≡◌, sym, ◌⊎◌, inl, inr, List, [], ◌∷◌, Has, Distinct, leb, Bool-cases,
}
use distributed_database.ShardController.Rebalance.{sort, sort_insert}

Has-sort_insert : (g x : ℕ) (ys : List ℕ) → Has g (sort_insert x ys) → (x ≡ g) ⊎ Has g ys
unfolding sort_insert
Has-sort_insert g x [] h = h
Has-sort_insert g x (y ∷ ys) h = elim (Bool-cases (leb x y)) [
  | inl front ↦ (rw front at h)
  | inr behind ↦ later (Has-sort_insert g x ys) (rw behind at h)
]
  where
    later :
        (Has g (sort_insert x ys) → (x ≡ g) ⊎ Has g ys)
        → (y ≡ g) ⊎ Has g (sort_insert x ys)
        → (x ≡ g) ⊎ ((y ≡ g) ⊎ Has g ys)
    later rest (inl here) = inr (inl here)
    later rest (inr inner) = elim (rest inner) [ inl this ↦ inl this | inr old ↦ inr (inr old) ]

sort_insert-Has : (g x : ℕ) (ys : List ℕ) → (x ≡ g) ⊎ Has g ys → Has g (sort_insert x ys)
unfolding sort_insert
sort_insert-Has g x [] h = h
sort_insert-Has g x (y ∷ ys) h = elim (Bool-cases (leb x y)) [
  | inl front ↦ rw front h
  | inr behind ↦ rw behind (later (sort_insert-Has g x ys) h)
]
  where
    later :
        ((x ≡ g) ⊎ Has g ys → Has g (sort_insert x ys))
        → (x ≡ g) ⊎ ((y ≡ g) ⊎ Has g ys)
        → (y ≡ g) ⊎ Has g (sort_insert x ys)
    later rest (inl this) = inr (rest (inl this))
    later rest (inr (inl here)) = inl here
    later rest (inr (inr old)) = inr (rest (inr old))

pub Has-sort : (g : ℕ) (xs : List ℕ) → Has g (sort xs) → Has g xs
unfolding sort
Has-sort g [] h = h
Has-sort g (x ∷ xs) h = elim (Has-sort_insert g x (sort xs) h) [
  | inl here ↦ inl here
  | inr later ↦ inr (Has-sort g xs later)
]

pub sort-Has : (g : ℕ) (xs : List ℕ) → Has g xs → Has g (sort xs)
unfolding sort
sort-Has g [] h = h
sort-Has g (x ∷ xs) (inl here) = sort_insert-Has g x (sort xs) (inl here)
sort-Has g (x ∷ xs) (inr later) = sort_insert-Has g x (sort xs) (inr (sort-Has g xs later))

sort_insert-Distinct :
    (x : ℕ) (ys : List ℕ) → ¬ Has x ys → Distinct ys → Distinct (sort_insert x ys)
unfolding sort_insert
sort_insert-Distinct x [] new d = (new, tt)
sort_insert-Distinct x (y ∷ ys) new d = elim (Bool-cases (leb x y)) [
  | inl front ↦ rw front (new, d)
  | inr behind ↦ rw behind (
    λ h. elim (Has-sort_insert y x ys h) [ inl same ↦ new (inl (sym same)) | inr old ↦ d.0 old ],
    sort_insert-Distinct x ys (λ h. new (inr h)) d.1,
  )
]

pub sort-Distinct : (xs : List ℕ) → Distinct xs → Distinct (sort xs)
unfolding sort
sort-Distinct [] d = tt
sort-Distinct (x ∷ xs) d =
    sort_insert-Distinct x (sort xs) (λ h. d.0 (Has-sort x xs h)) (sort-Distinct xs d.1)
