-- ===== src/Prelude/Faults.antt =====
-- A Go computation that can fault: `panic` is a run-time panic (an index or a slice out of range, a
-- nil pointer, an explicit `panic`), and `ok` is a normal return.
use mathlib.Core.Path.{◌≡◌, refl}
use mathlib.Core.List.{List}
use mathlib.Core.Option.{Option, none, some}
use Prim.Native.Nat.{ℕ}
use distributed_database.Prelude.Lists.{get_elem?}

pub data Go {ℓ} (A : Type ℓ) : Type ℓ where
  ok : A → Go A
  panic : Go A

infixl 5 ◌>>=◌
abbrev pub ◌>>=◌ {ℓ κ} : {A : Type ℓ} {B : Type κ} → Go A → (A → Go B) → Go B
ok a >>= f = f a
panic >>= f = panic

-- Using a pointer that may be nil, or a subscript that may be out of range.
abbrev pub deref {ℓ} : {A : Type ℓ} → Option A → Go A
deref none = panic
deref (some a) = ok a

-- xs[i]
abbrev pub index {ℓ} : {A : Type ℓ} → List A → ℕ → Go A
index xs i = deref (get_elem? xs i)

-- A sequence that returns has both its parts return.
pub >>=-eq-ok {ℓ κ} :
    {A : Type ℓ} {B : Type κ} (first : Go A) (next : A → Go B) {out : B}
    → (first >>= next) ≡ ok out
    → (middle : A) × (first ≡ ok middle) × (next middle ≡ ok out)
>>=-eq-ok panic next returns = cc
>>=-eq-ok (ok middle) next returns = (middle, refl, returns)
