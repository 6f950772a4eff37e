-- ===== src/Harness/Parts/Divided.antt =====
-- Which links a partition of raft-db/config.go leaves on.
use distributed_database.Prelude.{
  ℕ, ◌≤◌, ◌<◌, ◌≡◌, subst, Bool, true, false, ◌&&◌, ◌||◌, List, [], ◌∷◌, Option, ok, length, All,
  arith, ◌==◌, ==_iff, if◌then◌else◌, Bool-cases, inl, inr, refl,
}
use distributed_database.Harness.Wires.{Labrpc, IsWired, among, links}
use distributed_database.Harness.Parts.{part_off, partition}
use distributed_database.Harness.Parts.Cut.{connect_unlocked-links, disconnect_unlocked-links}

-- A list of servers: each is below `n`, and there are no more than `n`.
pub record IsPart (n : ℕ) (p : List ℕ) : Type 0 where
  pub each : All (λ t. t < n) p
  pub fits : length p ≤ n

-- One of the two is in the first list, the other one in the second.
abbrev pub between : List ℕ → List ℕ → ℕ → ℕ → Bool
between p q a b = (among a p && among b q) || (among b p && among a q)

among-All :
    (a : ℕ) (xs : List ℕ) (own : List ℕ)
    → All (λ i. among i own ≡ true) xs
    → among a xs ≡ true
    → among a own ≡ true
among-All a [] own each h = cc
among-All a (x ∷ xs) own each h = elim (Bool-cases (x == a)) [
  | inl same ↦ subst (λ k. among k own ≡ true) ((==_iff x a).0 same) each.0
  | inr differ ↦ among-All a xs own each.1 (rw differ at h)
]

own-All :
    (xs own : List ℕ)
    → ((a : ℕ) → among a xs ≡ true → among a own ≡ true)
    → All (λ i. among i own ≡ true) xs
own-All [] own h = tt
own-All (x ∷ xs) own h =
    (h x (ground arith), own-All xs own (λ a later. h a (ground (arith, later))))

-- One pass of the loop and the passes after it, on one link: `x` and `y` tell whether the pass is
-- of the one or the other server, `s` and `t` whether a later one is, `p` and `q` whether they are
-- in the pass' own list, `c` and `d` whether they are in the other one.
pass :
    (x y s t p q c d l : Bool)
    → (x ≡ true → p ≡ true)
    → (y ≡ true → q ≡ true)
    → (s ≡ true → p ≡ true)
    → (t ≡ true → q ≡ true)
    → (p ≡ true → c ≡ false)
    → (q ≡ true → d ≡ false)
    → (if (s && q) || (t && p)
        then true
        else if (s && d) || (t && c)
        then false
        else ((x && q) || (y && p) || (if (x && d) || (y && c) then false else l)))
      ≡ (if ((x || s) && q) || ((y || t) && p)
          then true
          else if ((x || s) && d) || ((y || t) && c)
          then false
          else l)
pass x y s t p q c d l hx hy hs ht hp hq = ground arith

-- The two loops, on one link.
both_passes :
    (p q c d l : Bool)
    → (p ≡ true → c ≡ false)
    → (q ≡ true → d ≡ false)
    → (if (c && d) || (d && c)
        then true
        else if (c && q) || (d && p)
        then false
        else if (p && q) || (q && p)
        then true
        else if (p && d) || (q && c)
        then false
        else l)
      ≡ (if (p && q) || (c && d) then true else if (p && d) || (q && c) then false else l)
both_passes p q c d l hp hq = ground arith

module _ {Name Net : Type 0} (w : Labrpc Name Net) {n : ℕ} {endnames : List (Option (List Name))}
    {names : ℕ → ℕ → Name} (wired : IsWired n endnames names) where
  part_off-links :
      (is own other : List ℕ) (net : Net)
      → All (λ t. t < n) is
      → All (λ i. among i own ≡ true) is
      → IsPart n own
      → IsPart n other
      → ((k : ℕ) → among k own ≡ true → among k other ≡ false)
      → (out : Net) × (part_off w endnames is own other net ≡ ok out)
        × ((a b : ℕ)
            → a < n
            → b < n
            → links w names out a b ≡ (
                if between is own a b
                then true
                else if between is other a b
                then false
                else links w names net a b))
  unfolding part_off
  part_off-links [] own other net small inside po pq apart = (net, refl, λ a b ha hb. refl)
  part_off-links (i ∷ is) own other net small inside po pq apart =
      let (cut, first, cuts) =
        disconnect_unlocked-links w wired i other net small.0 pq.each pq.fits in
      let (joined, second, joins) = connect_unlocked-links w wired i own cut small.0 po.each in
      let (out, rest, later) = part_off-links is own other joined small.1 inside.1 po pq apart in
      (
        out,
        rw (first, second) rest,
        λ a b ha hb.
            rw (later a b ha hb, joins a b ha hb, cuts a b ha hb)
              (pass (i == a) (i == b) (among a is) (among b is) (among a own) (among b own)
                (among a other) (among b other) (links w names net a b)
                (λ e. subst (λ k. among k own ≡ true) ((==_iff i a).0 e) inside.0)
                (λ e. subst (λ k. among k own ≡ true) ((==_iff i b).0 e) inside.0)
                (among-All a is own inside.1) (among-All b is own inside.1) (apart a) (apart b)),
      )

  partition-links :
      (p1 p2 : List ℕ) (net : Net)
      → IsPart n p1
      → IsPart n p2
      → ((k : ℕ) → (among k p1 && among k p2) ≡ false)
      → (out : Net) × (partition w endnames p1 p2 net ≡ ok out)
        × ((a b : ℕ)
            → a < n
            → b < n
            → links w names out a b ≡ (
                if (among a p1 && among b p1) || (among a p2 && among b p2)
                then true
                else if between p1 p2 a b
                then false
                else links w names net a b))
  unfolding partition
  partition-links p1 p2 net f1 f2 apart =
      let first_apart =
        λ (k : ℕ) (h : among k p1 ≡ true). near (among k p1) (among k p2) (apart k) h in
      let (mid, first, here) =
        part_off-links p1 p1 p2 net f1.each (own-All p1 p1 (λ a h. h)) f1 f2 first_apart in
      let (out, second, there) =
        part_off-links p2 p2 p1 mid f2.each (own-All p2 p2 (λ a h. h)) f2 f1
          (λ k h. turned (among k p1) (among k p2) (apart k) h) in
      (
        out,
        rw first second,
        λ a b ha hb.
            rw (there a b ha hb, here a b ha hb)
              (both_passes (among a p1) (among b p1) (among a p2) (among b p2)
                (links w names net a b) (first_apart a) (first_apart b)),
      )
    where
      turned : (x y : Bool) → (x && y) ≡ false → y ≡ true → x ≡ false
      turned x y h on = ground arith

      near : (x y : Bool) → (x && y) ≡ false → x ≡ true → y ≡ false
      near x y h on = ground arith

  -- On servers whose ends have names of their own, `partition` of two lists without a common server
  -- never faults: a server can call another one that stands in the same list, none that stands in
  -- the other list, and what any further pair can do stays as it was.
  pub partition-divides :
      (p1 p2 : List ℕ) (net : Net)
      → IsPart n p1
      → IsPart n p2
      → ((k : ℕ) → (among k p1 && among k p2) ≡ false)
      → (a b : ℕ) → a < n
      → b < n
      → (out : Net) × (partition w endnames p1 p2 net ≡ ok out)
        × (links w names out a b ≡ (
            if (among a p1 && among b p1) || (among a p2 && among b p2)
            then true
            else if between p1 p2 a b
            then false
            else links w names net a b))
  partition-divides p1 p2 net f1 f2 apart a b ha hb =
      let (out, ran, all) = partition-links p1 p2 net f1 f2 apart in (out, ran, all a b ha hb)
