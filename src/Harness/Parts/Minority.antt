-- ===== src/Harness/Parts/Minority.antt =====
-- A leader in the minority: make_partition and then `partition` of raft-db/config.go.
use distributed_database.Prelude.{
  ℕ, ◌+◌, ◌-◌, ◌/◌, ◌%◌, ◌<◌, ◌≡◌, ◌≢◌, refl, sym, ap, subst, ◌∙◌, Bool, true, false, ◌&&◌, ◌||◌,
  List, [], ◌∷◌, Option, some, ok, length, get_elem?, set, replicate, arith, ltb, ltb→lt, lt→ltb,
  inl, inr, ◌⊎◌, if◌then◌else◌, length-set, length-replicate, get_elem?-set_self, get_elem?-set_ne,
}
use distributed_database.Raft.Types.{Raft, leader}
use distributed_database.Harness.Wires.{Labrpc, IsWired, among, links}
use distributed_database.Harness.Parts.{store_last, make_partition, partition}
use distributed_database.Harness.Parts.Halves.{IsDealt, deal-deals}
use distributed_database.Harness.Parts.Sides.{
  IsHalved, IsPlaced, IsPlaced-IsHalved, find_leader-first, All-at,
}
use distributed_database.Harness.Parts.Divided.{IsPart, partition-divides}

store_last-set :
    (xs : List ℕ) (l : ℕ) → 0 < length xs → store_last xs l ≡ ok (set xs (length xs - 1) l)
unfolding store_last
store_last-set [] l h = absurd (omega (arith, h))
store_last-set (x ∷ xs) l h = ap (λ k. ok (set (x ∷ xs) k l)) (omega arith)

IsDealt-IsPlaced :
    (n l : ℕ) (q1 q2 : List ℕ)
    → n % 2 ≡ 1
    → 1 < n
    → l < n
    → length q1 ≡ n / 2 + 1
    → length q2 ≡ n / 2
    → IsDealt l (n - 1) q1 q2
    → IsPlaced n l q1 (set q2 (length q2 - 1) l)
IsDealt-IsPlaced n l q1 q2 odd some_servers small len1 len2 d =
    let same = length-set q2 (length q2 - 1) l in
    record {
      small = small;
      odd = omega (arith, same, len2, odd);
      more = omega (arith, same, len1, len2);
      some_fewer = omega (arith, same, len2, some_servers);
      left = λ q bound. d.left q (omega (arith, bound, len1, some_servers, odd)) bound;
      right = λ q bound.
          get_elem?-set_ne q2 (length q2 - 1) q l (omega (arith, bound, same))
          ∙ d.right q (omega (arith, bound, same, len1, len2, odd));
      last =
          ap (λ k. get_elem? (set q2 (length q2 - 1) l) (k - 1)) same
          ∙ get_elem?-set_self q2 (length q2 - 1) l (omega (arith, len2, some_servers));
    }

-- For an odd number of running servers, more than one, of which `l` is the first that leads when it
-- is asked, make_partition does not fault and gives two lists in which each server stands in exactly
-- one: the second list has half of the servers, rounded down, and `l` among them.
pub make_partition-halves {ℓ} :
    {C : Type ℓ} (servers : ℕ → Raft C) (n l : ℕ)
    → n % 2 ≡ 1
    → 1 < n
    → l < n
    → (servers l).state ≡ leader
    → ((k : ℕ) → k < l → (servers k).state ≢ leader)
    → (p1 : List ℕ) × (p2 : List ℕ) × (make_partition n (λ k. some (servers k)) ≡ ok (p1, p2))
      × IsHalved n l p1 p2
unfolding make_partition
make_partition-halves servers n l odd some_servers small leads earlier =
    let found =
      find_leader-first servers 0 n l (omega arith) (omega (arith, small)) leads
        (λ k from. earlier k) in
    let r1 : List ℕ = replicate (n / 2 + 1) 0 in
    let r2 : List ℕ = replicate (n / 2) 0 in
    let n1 : length r1 ≡ n / 2 + 1 = length-replicate (n / 2 + 1) 0 in
    let n2 : length r2 ≡ n / 2 = length-replicate (n / 2) 0 in
    let (q1, q2, ran, len1, len2, dealt) = deal-deals l 0 n 0 r1 r2 (record {
      known = omega (arith, small);
      count = ground arith;
      room = omega (arith, n1, n2, odd);
      dealt = record {
        left = λ q h. absurd (omega (arith, h));
        right = λ q h. absurd (omega (arith, h));
      };
    }) in
    let m2 : length q2 ≡ n / 2 = len2 ∙ n2 in
    let stored = store_last-set q2 l (omega (arith, m2, some_servers)) in
    let placed =
      IsDealt-IsPlaced n l q1 q2 odd some_servers small (len1 ∙ n1) m2
        (subst (λ k. IsDealt l k q1 q2) (omega arith) dealt) in
    (
      q1,
      set q2 (length q2 - 1) l,
      rw (found, ran, stored) refl,
      IsPlaced-IsHalved n l q1 (set q2 (length q2 - 1) l) placed,
    )

IsHalved-IsPart :
    (n l : ℕ) (p1 p2 : List ℕ) → 1 < n → IsHalved n l p1 p2 → IsPart n p1 × IsPart n p2
IsHalved-IsPart n l p1 p2 some_servers h = (
  record {
    each = All-at n p1 (λ a on. below (among a p1) (among a p2) a (h.covers a) (inl on));
    fits = omega (arith, h.more, some_servers);
  },
  record {
    each = All-at n p2 (λ a on. below (among a p1) (among a p2) a (h.covers a) (inr on));
    fits = omega (arith, h.fewer);
  },
)
  where
    below : (x y : Bool) (a : ℕ) → (x || y) ≡ ltb a n → (x ≡ true) ⊎ (y ≡ true) → a < n
    below true y a e on = ltb→lt a n (sym e)
    below false true a e on = ltb→lt a n (sym e)
    below false false a e on = elim on [ inl f ↦ cc | inr f ↦ cc ]

-- make_partition and then `partition`, on an odd number of running servers, more than one, of which
-- `l` is the first that leads: nothing faults, and afterwards two servers can call each other if
-- and only if they are on the same side; each server is on one side, and `l` on one that has half
-- of the servers, rounded down.
pub leader_cut_off {ℓ} :
    {C : Type ℓ} {Name Net : Type 0} (w : Labrpc Name Net) {n : ℕ}
    {endnames : List (Option (List Name))} {names : ℕ → ℕ → Name}
    → IsWired n endnames names
    → (servers : ℕ → Raft C) (l : ℕ) (net : Net) → n % 2 ≡ 1
    → 1 < n
    → l < n
    → (servers l).state ≡ leader
    → ((k : ℕ) → k < l → (servers k).state ≢ leader)
    → (a b : ℕ) → a < n
    → b < n
    → (p1 : List ℕ) × (p2 : List ℕ) × (out : Net) × (make_partition n (λ k. some (servers k))
        ≡ ok (p1, p2))
      × (partition w endnames p1 p2 net ≡ ok out)
      × IsHalved n l p1 p2
      × (links w names out a b ≡ ((among a p1 && among b p1) || (among a p2 && among b p2)))
leader_cut_off w {n} {endnames} {names} wired servers l net odd some_servers small leads earlier a b
      ha hb =
    let (p1, p2, made, halved) =
      make_partition-halves servers n l odd some_servers small leads earlier in
    let (f1, f2) = IsHalved-IsPart n l p1 p2 some_servers halved in
    let (out, ran, linked) = partition-divides w wired p1 p2 net f1 f2 halved.apart a b ha hb in
    (
      p1,
      p2,
      out,
      made,
      ran,
      halved,
      linked
          ∙ whole (among a p1) (among b p1) (among a p2) (among b p2) (links w names net a b)
              (halved.covers a ∙ lt→ltb a n ha) (halved.covers b ∙ lt→ltb b n hb),
    )
  where
    whole :
        (p q c d v : Bool)
        → (p || c) ≡ true
        → (q || d) ≡ true
        → (if (p && q) || (c && d) then true else if (p && d) || (q && c) then false else v)
          ≡ ((p && q) || (c && d))
    whole p q c d v hp hq = ground arith
