-- ===== src/Harness/Parts/Cut.antt =====
-- What the set-up of raft-db/config.go and its partitions leave connected.
use distributed_database.Prelude.{
  ℕ, ◌+◌, ◌≤◌, ◌<◌, ◌≡◌, refl, Bool, true, false, ◌&&◌, ◌||◌, List, [], ◌∷◌, Option, ok, length,
  All, arith, ◌==◌, if◌then◌else◌,
}
use distributed_database.Harness.Wires.{
  Labrpc, IsWired, end_name-IsWired, among, links, set_out, set_in, links-set_out, links-set_in,
}
use distributed_database.Harness.Parts.{
  connect_out, connect_in, connect_unlocked, disconnect_out, disconnect_in, disconnect_unlocked,
}

module _ {Name Net : Type 0} (w : Labrpc Name Net) {n : ℕ} {endnames : List (Option (List Name))}
    {names : ℕ → ℕ → Name} (wired : IsWired n endnames names) where
  connect_out-set :
      (i : ℕ) (to : List ℕ) (net : Net)
      → i < n
      → All (λ t. t < n) to
      → connect_out w endnames i to net ≡ ok (set_out w names true i to net)
  unfolding connect_out
  connect_out-set i [] net hi hto = refl
  connect_out-set i (t ∷ to) net hi hto =
      rw (end_name-IsWired i t wired hi hto.0)
        (connect_out-set i to (w.enable (names i t) true net) hi hto.1)

  connect_in-set :
      (i : ℕ) (to : List ℕ) (net : Net)
      → i < n
      → All (λ t. t < n) to
      → connect_in w endnames i to net ≡ ok (set_in w names true i to net)
  unfolding connect_in
  connect_in-set i [] net hi hto = refl
  connect_in-set i (t ∷ to) net hi hto =
      rw (end_name-IsWired t i wired hto.0 hi)
        (connect_in-set i to (w.enable (names t i) true net) hi hto.1)

  disconnect_out-set :
      (i : ℕ) (from : List ℕ) (net : Net)
      → i < n
      → All (λ t. t < n) from
      → disconnect_out w endnames i from net ≡ ok (set_out w names false i from net)
  unfolding disconnect_out
  disconnect_out-set i [] net hi hfrom = refl
  disconnect_out-set i (f ∷ from) net hi hfrom =
      let (own, here, each) = wired.row i hi in
      rw (here, each f hfrom.0)
        (disconnect_out-set i from (w.enable (names i f) false net) hi hfrom.1)

  -- The row that the guard of the second loop asks for is there, whichever it is.
  disconnect_in-set :
      (i j : ℕ) (from : List ℕ) (net : Net)
      → i < n
      → All (λ t. t < n) from
      → j + length from ≤ n
      → disconnect_in w endnames i j from net ≡ ok (set_in w names false i from net)
  unfolding disconnect_in
  disconnect_in-set i j [] net hi hfrom fits = refl
  disconnect_in-set i j (f ∷ from) net hi hfrom fits =
      let (asked, there, each) = wired.row j (omega (arith, fits)) in
      let (own, here, ends) = wired.row f hfrom.0 in
      rw (there, here, ends i hi)
        (disconnect_in-set i (j + 1) from (w.enable (names f i) false net) hi hfrom.1
          (omega (arith, fits)))

  -- What connectUnlocked leaves: the server's links with the list's are on, the others as they were.
  pub connect_unlocked-links :
      (i : ℕ) (to : List ℕ) (net : Net)
      → i < n
      → All (λ t. t < n) to
      → (out : Net) × (connect_unlocked w endnames i to net ≡ ok out)
        × ((a b : ℕ)
            → a < n
            → b < n
            → links w names out a b
              ≡ ((i == a && among b to) || (i == b && among a to) || links w names net a b))
  unfolding connect_unlocked
  connect_unlocked-links i to net hi hto =
      let mid = set_out w names true i to net in
      (
        set_in w names true i to mid,
        rw (connect_out-set i to net hi hto) (connect_in-set i to mid hi hto),
        λ a b ha hb.
            rw
              (
                links-set_in w names wired true i to mid a b hi hto ha hb,
                links-set_out w names wired true i to net a b hi hto ha hb,
              )
              (choose (i == b && among a to) (i == a && among b to) (links w names net a b)),
      )
    where
      choose : (x y l : Bool) → (if x then true else if y then true else l) ≡ (y || x || l)
      choose x y l = ground arith

  pub disconnect_unlocked-links :
      (i : ℕ) (from : List ℕ) (net : Net)
      → i < n
      → All (λ t. t < n) from
      → length from ≤ n
      → (out : Net) × (disconnect_unlocked w endnames i from net ≡ ok out)
        × ((a b : ℕ)
            → a < n
            → b < n
            → links w names out a b ≡ (
                if (i == a && among b from) || (i == b && among a from)
                then false
                else links w names net a b))
  unfolding disconnect_unlocked
  disconnect_unlocked-links i from net hi hfrom fits =
      let mid = set_out w names false i from net in
      (
        set_in w names false i from mid,
        rw (disconnect_out-set i from net hi hfrom)
            (disconnect_in-set i 0 from mid hi hfrom (omega (arith, fits))),
        λ a b ha hb.
            rw
              (
                links-set_in w names wired false i from mid a b hi hfrom ha hb,
                links-set_out w names wired false i from net a b hi hfrom ha hb,
              )
              (choose (i == b && among a from) (i == a && among b from) (links w names net a b)),
      )
    where
      choose :
          (x y l : Bool)
          → (if x then false else if y then false else l) ≡ (if y || x then false else l)
      choose x y l = ground arith
