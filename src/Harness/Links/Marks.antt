-- ===== src/Harness/Links/Marks.antt =====
-- Lists of the servers of raft/config.go: which are connected, and which stand in a list.
use distributed_database.Prelude.{
  ℕ, zero, suc, ◌+◌, ◌≤◌, ◌<◌, ◌≡◌, refl, ap, subst, ◌∙◌, Bool, true, false, ◌&&◌, ◌||◌, List, [],
  ◌∷◌, some, length, get_elem?, set, All, arith, ltb, ◌==◌, ==_iff, if◌then◌else◌, Bool-cases, inl,
  inr, ◌⊎◌, leb,
}
use distributed_database.Harness.Wires.{among}

-- Whether a server is marked as connected.
abbrev pub is_up : List Bool → ℕ → Bool
is_up [] i = false
is_up (v ∷ connected) zero = v
is_up (v ∷ connected) (suc i) = is_up connected i

-- The connected servers from `j` on, and all servers from `j` on.
abbrev pub up_from : List Bool → ℕ → ℕ → List ℕ
up_from connected j zero = []
up_from connected j (suc m) =
    let rest = up_from connected (j + 1) m in if is_up connected j then j ∷ rest else rest

abbrev pub from : ℕ → ℕ → List ℕ
from j zero = []
from j (suc m) = j ∷ from (j + 1) m

pub among-up_from :
    (connected : List Bool) (a j m : ℕ)
    → among a (up_from connected j m) ≡ (leb j a && ltb a (j + m) && is_up connected a)
among-up_from connected a j zero = ground arith
among-up_from connected a j (suc m) = elim (Bool-cases (is_up connected j)) [
  | inl up ↦
      rw (up, among-up_from connected a (j + 1) m)
        (here j a m (is_up connected a) (λ e. subst (λ k. is_up connected k ≡ true) e up))
  | inr down ↦
      rw (down, among-up_from connected a (j + 1) m)
        (past j a m (is_up connected a) (λ e. subst (λ k. is_up connected k ≡ false) e down))
]
  where
    here :
        (j' a' m' : ℕ) (u : Bool)
        → (j' ≡ a' → u ≡ true)
        → (j' == a' || leb (j' + 1) a' && ltb a' (j' + 1 + m') && u)
          ≡ (leb j' a' && ltb a' (j' + suc m') && u)
    here j' a' m' u on = elim (Bool-cases (j' == a')) [
      | inl same ↦ ground (arith, on ((==_iff j' a').0 same))
      | inr differ ↦ ground (arith, differ)
    ]

    past :
        (j' a' m' : ℕ) (u : Bool)
        → (j' ≡ a' → u ≡ false)
        → (leb (j' + 1) a' && ltb a' (j' + 1 + m') && u) ≡ (leb j' a' && ltb a' (j' + suc m') && u)
    past j' a' m' u off = elim (Bool-cases (j' == a')) [
      | inl same ↦ ground (arith, off ((==_iff j' a').0 same))
      | inr differ ↦ ground (arith, differ)
    ]

pub among-from : (a j m : ℕ) → among a (from j m) ≡ (leb j a && ltb a (j + m))
among-from a j zero = ground arith
among-from a j (suc m) = ground (arith, among-from a (j + 1) m)

pub All-up_from :
    (n : ℕ) (connected : List Bool) (j m : ℕ) → j + m ≤ n → All (λ t. t < n) (up_from connected j m)
All-up_from n connected j zero fits = tt
All-up_from n connected j (suc m) fits = elim (Bool-cases (is_up connected j)) [
  | inl up ↦ rw up (omega (arith, fits), All-up_from n connected (j + 1) m (omega (arith, fits)))
  | inr down ↦ rw down (All-up_from n connected (j + 1) m (omega (arith, fits)))
]

pub All-from : (n j m : ℕ) → j + m ≤ n → All (λ t. t < n) (from j m)
All-from n j zero fits = tt
All-from n j (suc m) fits = (omega (arith, fits), All-from n (j + 1) m (omega (arith, fits)))

pub up_cases :
    (connected : List Bool) (j : ℕ)
    → j < length connected
    → ((get_elem? connected j ≡ some true) × (is_up connected j ≡ true))
      ⊎ ((get_elem? connected j ≡ some false) × (is_up connected j ≡ false))
up_cases [] j h = absurd (omega (arith, h))
up_cases (true ∷ connected) zero h = inl (refl, refl)
up_cases (false ∷ connected) zero h = inr (refl, refl)
up_cases (v ∷ connected) (suc j) h = up_cases connected j (omega (arith, h))

pub is_up-set :
    (connected : List Bool) (i a : ℕ) (v : Bool)
    → i < length connected
    → is_up (set connected i v) a ≡ (if i == a then v else is_up connected a)
is_up-set [] i a v h = absurd (omega (arith, h))
is_up-set (u ∷ connected) zero zero v h = refl
is_up-set (u ∷ connected) zero (suc a) v h = ground arith
is_up-set (u ∷ connected) (suc i) zero v h = ground arith
is_up-set (u ∷ connected) (suc i) (suc a) v h =
    is_up-set connected i a v (omega (arith, h))
    ∙ ap (λ c. if c then v else is_up connected a) (ground arith)
