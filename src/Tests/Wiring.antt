-- ===== src/Tests/Wiring.antt =====
-- The links between three servers, on small inputs.
pub mod Parted
use distributed_database.Prelude.{
  ℕ, zero, suc, ◌+◌, ◌*◌, ◌<◌, ◌≡◌, ◌≢◌, refl, sym, Bool, true, false, ◌&&◌, List, [], ◌∷◌, Option,
  some, ok, get_elem?, set, arith, ◌==◌, ==_refl, ne→==, if◌then◌else◌,
}
use distributed_database.Harness.Wires.{Labrpc, IsWired}
use distributed_database.Harness.Links.{
  TestConfig, Turn, connecting, disconnecting, starting, turn_all,
}
use distributed_database.Harness.Links.Marks.{is_up}
use distributed_database.Harness.Links.Linked.{IsLinked}
use distributed_database.Harness.Links.Turns.{turn_all-IsLinked}

-- A network that knows of each end whether it is enabled.
abbrev pub switches : Labrpc ℕ (ℕ → Bool)
switches = record {
  enable = λ end v net. λ x. if end == x then v else net x;
  enabled = λ net end. net end;
  enable-self = λ end v net. rw (==_refl end) refl;
  enable-other = λ end other v net differ. rw (ne→== end other differ) refl;
  make_end = λ end net. λ x. if end == x then false else net x;
  make_end-self = λ end net. rw (==_refl end) refl;
  make_end-other = λ end other net differ. rw (ne→== end other differ) refl;
  attach = λ end i net. net;
  attach-enabled = λ end other i net. refl;
}

abbrev pub name : ℕ → ℕ → ℕ
name i j = 10 * i + j

abbrev pub row_of : (ℕ → ℕ) → List ℕ
row_of f = f 0 ∷ f 1 ∷ f 2 ∷ []

abbrev pub rows3 : List (Option (List ℕ))
rows3 = some (row_of (name 0)) ∷ some (row_of (name 1)) ∷ some (row_of (name 2)) ∷ []

pub at_row : (f : ℕ → ℕ) (j : ℕ) → j < 3 → get_elem? (row_of f) j ≡ some (f j)
at_row f zero h = refl
at_row f (suc zero) h = refl
at_row f (suc (suc zero)) h = refl
at_row f (suc (suc (suc j))) h = absurd (omega (arith, h))

at_rows :
    (f : ℕ → ℕ → ℕ) (i : ℕ)
    → i < 3
    → get_elem? (some (row_of (f 0)) ∷ some (row_of (f 1)) ∷ some (row_of (f 2)) ∷ []) i
      ≡ some (some (row_of (f i)))
at_rows f zero h = refl
at_rows f (suc zero) h = refl
at_rows f (suc (suc zero)) h = refl
at_rows f (suc (suc (suc i))) h = absurd (omega (arith, h))

pub rows3-IsWired : IsWired 3 rows3 name
rows3-IsWired = record {
  row = λ i h. (row_of (name i), at_rows name i h, at_row (name i));
  apart = λ i j k l hi hj hk hl e. (omega arith, omega arith);
}

abbrev start3 : TestConfig ℕ (ℕ → Bool)
start3 = record { n = 3; connected = true ∷ true ∷ true ∷ []; endnames = rows3; net = λ x. true }

all_up : (a : ℕ) → a < 3 → true ≡ is_up (true ∷ true ∷ true ∷ []) a
all_up zero h = refl
all_up (suc zero) h = refl
all_up (suc (suc zero)) h = refl
all_up (suc (suc (suc a))) h = absurd (omega (arith, h))

start3-IsLinked : IsLinked switches name start3
start3-IsLinked = record {
  wired = rows3-IsWired;
  marks = refl;
  linked = λ a b ha hb. rw (sym (all_up a ha), sym (all_up b hb)) refl;
}

-- Server 1 is started anew and then connected again.
abbrev again : ℕ → ℕ → ℕ
again i j = if i == 1 then 40 + j else name i j

abbrev turns3 : List (Turn ℕ)
turns3 = disconnecting 2 ∷ starting 1 (row_of (again 1)) ∷ connecting 1 ∷ []

again-IsWired : IsWired 3 (set rows3 1 (some (row_of (again 1)))) again
again-IsWired = record {
  row = λ i h. (row_of (again i), at_rows again i h, at_row (again i));
  apart = λ i j k l hi hj hk hl e. (ground arith, ground arith);
}

turn_all-IsLinked_example :
    (out : TestConfig ℕ (ℕ → Bool)) × (names' : ℕ → ℕ → ℕ) × (turn_all switches turns3 start3
      ≡ ok out)
    × IsLinked switches names' out
    × (out.connected ≡ true ∷ true ∷ false ∷ [])
turn_all-IsLinked_example =
    turn_all-IsLinked switches name turns3 start3 start3-IsLinked
      (omega arith, (omega arith, (again, again-IsWired), (omega arith, tt)))
