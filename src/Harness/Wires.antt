-- ===== src/Harness/Wires.antt =====
-- The client ends of labrpc as the set-ups of the tests use them: each server sends to each other
-- one by an end with a name of its own, which the network lets through or not. labrpc itself is
-- given by its operations and what they promise.
use distributed_database.Prelude.{
  ℕ, ◌<◌, ◌≡◌, ◌≢◌, refl, sym, inl, inr, Bool, true, false, ◌&&◌, ◌||◌, List, [], ◌∷◌, Option, some,
  Go, ok, ◌>>=◌, index, deref, get_elem?, All, arith, ◌==◌, if◌then◌else◌, Bool-cases,
}

-- The network of labrpc: Enable sets whether an end's calls go through, and touches no other end; MakeEnd
-- makes an end whose calls do not, where it returns; Connect, here `attach`, only says which server
-- they go to.
pub record Labrpc (Name Net : Type 0) : Type 0 where
  pub enable : Name → Bool → Net → Net
  pub enabled : Net → Name → Bool
  pub enable-self : (end : Name) (v : Bool) (net : Net) → enabled (enable end v net) end ≡ v
  pub enable-other :
      (end other : Name) (v : Bool) (net : Net)
      → end ≢ other
      → enabled (enable end v net) other ≡ enabled net other
  pub make_end : Name → Net → Net
  pub make_end-self : (end : Name) (net : Net) → enabled (make_end end net) end ≡ false
  pub make_end-other :
      (end other : Name) (net : Net)
      → end ≢ other
      → enabled (make_end end net) other ≡ enabled net other
  pub attach : Name → ℕ → Net → Net
  pub attach-enabled :
      (end other : Name) (i : ℕ) (net : Net) → enabled (attach end i net) other ≡ enabled net other

-- Whether a number is in a list.
abbrev pub among : ℕ → List ℕ → Bool
among a [] = false
among a (x ∷ xs) = x == a || among a xs

-- cfg.endnames[i][j], where a server that was never started has a nil row.
abbrev pub end_name : {Name : Type 0} → List (Option (List Name)) → ℕ → ℕ → Go Name
end_name endnames i j = do row ← index endnames i; own ← deref row; index own j

-- All `n` servers have their ends: the end from `i` to `j` is named `names i j`, which no other has.
pub record IsWired {Name : Type 0} (n : ℕ) (endnames : List (Option (List Name)))
    (names : ℕ → ℕ → Name) : Type 0 where
  pub row :
      (i : ℕ)
      → i < n
      → (own : List Name) × (get_elem? endnames i ≡ some (some own))
        × ((j : ℕ) → j < n → get_elem? own j ≡ some (names i j))
  pub apart :
      (i j k l : ℕ) → i < n → j < n → k < n → l < n → names i j ≡ names k l → (i ≡ k) × (j ≡ l)

pub end_name-IsWired :
    {Name : Type 0} {n : ℕ} {endnames : List (Option (List Name))} {names : ℕ → ℕ → Name} (i j : ℕ)
    → IsWired n endnames names
    → i < n
    → j < n
    → end_name endnames i j ≡ ok (names i j)
end_name-IsWired i j wired hi hj =
    let (own, here, each) = wired.row i hi in rw (here, each j hj) refl

module _ {Name Net : Type 0} (w : Labrpc Name Net) (names : ℕ → ℕ → Name) where
  -- Whether `i` can call `j`.
  abbrev pub links : Net → ℕ → ℕ → Bool
  links net i j = w.enabled net (names i j)

  -- The ends from `i` to each of a list, and to `i` from each of it, are set one after the other.
  abbrev pub set_out : Bool → ℕ → List ℕ → Net → Net
  set_out v i [] net = net
  set_out v i (t ∷ to) net = set_out v i to (w.enable (names i t) v net)

  abbrev pub set_in : Bool → ℕ → List ℕ → Net → Net
  set_in v i [] net = net
  set_in v i (t ∷ to) net = set_in v i to (w.enable (names t i) v net)

  module _ {n : ℕ} {endnames : List (Option (List Name))} (wired : IsWired n endnames names) where
    -- What changes one end alone changes that link alone.
    pub links-one :
        (i j a b : ℕ) (v : Bool) (net out : Net)
        → i < n
        → j < n
        → a < n
        → b < n
        → w.enabled out (names i j) ≡ v
        → ((other : Name) → names i j ≢ other → w.enabled out other ≡ w.enabled net other)
        → links out a b ≡ (if i == a && j == b then v else links net a b)
    links-one i j a b v net out hi hj ha hb self others = elim (Bool-cases (i == a && j == b)) [
      | inl same ↦ let (ia, jb) = both i a j b same in rw (same, sym ia, sym jb) self
      | inr differ ↦
          rw differ
            (others (names a b) (λ e. apart_lem i a j b differ (wired.apart i j a b hi hj ha hb e)))
    ]
      where
        both : (i' a' j' b' : ℕ) → (i' == a' && j' == b') ≡ true → (i' ≡ a') × (j' ≡ b')
        both i' a' j' b' h = (ground arith, ground arith)

        apart_lem : (i' a' j' b' : ℕ) → (i' == a' && j' == b') ≡ false → (i' ≡ a') × (j' ≡ b') → ⊥
        apart_lem i' a' j' b' h e = ground (arith, h, e.0, e.1)

    links-enable :
        (i j a b : ℕ) (v : Bool) (net : Net)
        → i < n
        → j < n
        → a < n
        → b < n
        → links (w.enable (names i j) v net) a b ≡ (if i == a && j == b then v else links net a b)
    links-enable i j a b v net hi hj ha hb =
        links-one i j a b v net (w.enable (names i j) v net) hi hj ha hb
          (w.enable-self (names i j) v net) (λ other e. w.enable-other (names i j) other v net e)

    pub links-set_out :
        (v : Bool) (i : ℕ) (to : List ℕ) (net : Net) (a b : ℕ)
        → i < n
        → All (λ t. t < n) to
        → a < n
        → b < n
        → links (set_out v i to net) a b ≡ (if i == a && among b to then v else links net a b)
    links-set_out v i [] net a b hi hto ha hb = ground arith
    links-set_out v i (t ∷ to) net a b hi hto ha hb =
        let rest = links-set_out v i to (w.enable (names i t) v net) a b hi hto.1 ha hb in
        let first = links-enable i t a b v net hi hto.0 ha hb in
        rw (rest, first) (choose (i == a) (t == b) (among b to) v (links net a b))
      where
        choose :
            (x y z v' l : Bool)
            → (if x && z then v' else if x && y then v' else l) ≡ (if x && (y || z) then v' else l)
        choose x y z v' l = ground arith

    pub links-set_in :
        (v : Bool) (i : ℕ) (to : List ℕ) (net : Net) (a b : ℕ)
        → i < n
        → All (λ t. t < n) to
        → a < n
        → b < n
        → links (set_in v i to net) a b ≡ (if i == b && among a to then v else links net a b)
    links-set_in v i [] net a b hi hto ha hb = ground arith
    links-set_in v i (t ∷ to) net a b hi hto ha hb =
        let rest = links-set_in v i to (w.enable (names t i) v net) a b hi hto.1 ha hb in
        let first = links-enable t i a b v net hto.0 hi ha hb in
        rw (rest, first) (choose (i == b) (t == a) (among a to) v (links net a b))
      where
        choose :
            (x y z v' l : Bool)
            → (if x && z then v' else if y && x then v' else l) ≡ (if x && (y || z) then v' else l)
        choose x y z v' l = ground arith
