-- ===== src/Prelude/Maps.antt =====
-- Go maps: association lists in which a write replaces the old entry. The keys have a Boolean
-- equality; bytes of a string are numbers.
use Prim.Native.Nat.{ℕ}
use mathlib.Core.Path.{◌≡◌, refl}
use mathlib.Core.Logic.{◌↔◌}
use mathlib.Core.Bool.{Bool, true, false, ◌&&◌}
use mathlib.Core.Option.{Option, none, some}
use mathlib.Core.List.{List, [], ◌∷◌}
use native.Mathlib.Omega.{arith}
use distributed_database.Prelude.Tests.{◌==◌, ==_iff, if◌then◌else◌}

-- A type whose equality Go's `==` decides.
pub record Eq {ℓ} (K : Type ℓ) : Type ℓ where
  pub beq : (left right : K) → Bool
  pub beq_iff : (left right : K) → (beq left right ≡ true) ↔ (left ≡ right)

abbrev pub Text : Type 0
Text = List ℕ

abbrev nat_beq : ℕ → ℕ → Bool
nat_beq a b = a == b

abbrev pub text_beq : Text → Text → Bool
text_beq [] [] = true
text_beq (a ∷ s) (b ∷ t) = a == b && text_beq s t
text_beq _ _ = false

pub text_beq_iff : (s t : Text) → (text_beq s t ≡ true) ↔ (s ≡ t)
text_beq_iff [] [] = (λ h. refl, λ h. refl)
text_beq_iff [] (b ∷ t) = (λ h. cc, λ h. cc)
text_beq_iff (a ∷ s) [] = (λ h. cc, λ h. cc)
text_beq_iff (a ∷ s) (b ∷ t) =
    (λ h. ground (arith, text_beq_iff s t), λ h. ground (arith, text_beq_iff s t))

instance abbrev pub nat_eq : Eq ℕ
nat_eq = record { beq = nat_beq; beq_iff = ==_iff }

instance abbrev pub text_eq : Eq Text
text_eq = record { beq = text_beq; beq_iff = text_beq_iff }

module _ {ℓ κ} {K : Type ℓ} {V : Type κ} ⦃e : Eq K⦄ where
  unfoldable pub lookup : K → List (K × V) → Option V
  lookup key [] = none
  lookup key ((here, value) ∷ rest) = if e.beq here key then some value else lookup key rest

  -- m[key] = value
  unfoldable pub insert : K → V → List (K × V) → List (K × V)
  insert key value [] = (key, value) ∷ []
  insert key value ((here, old) ∷ rest) =
      if e.beq here key then (key, value) ∷ rest else (here, old) ∷ insert key value rest

  -- delete(m, key)
  unfoldable pub remove : K → List (K × V) → List (K × V)
  remove key [] = []
  remove key ((here, value) ∷ rest) =
      let others = remove key rest in if e.beq here key then others else (here, value) ∷ others

  pub lookup-insert :
      (key other : K) (value : V) (rest : List (K × V))
      → lookup other (insert key value rest)
        ≡ (if e.beq key other then some value else lookup other rest)
  unfolding lookup insert
  lookup-insert key other value [] = refl
  lookup-insert key other value ((here, old) ∷ rest) = ground (
    arith,
    e.beq_iff key other,
    e.beq_iff here key,
    e.beq_iff here other,
    lookup-insert key other value rest,
  )

  pub lookup-remove :
      (key other : K) (rest : List (K × V))
      → lookup other (remove key rest) ≡ (if e.beq key other then none else lookup other rest)
  unfolding lookup remove
  lookup-remove key other [] = ground arith
  lookup-remove key other ((here, old) ∷ rest) = ground (
    arith,
    e.beq_iff key other,
    e.beq_iff here key,
    e.beq_iff here other,
    lookup-remove key other rest,
  )

pub beq_refl {ℓ} : {K : Type ℓ} ⦃e : Eq K⦄ (k : K) → e.beq k k ≡ true
beq_refl ⦃e⦄ k = (e.beq_iff k k).1 refl
