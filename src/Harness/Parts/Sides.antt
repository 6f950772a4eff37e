-- ===== src/Harness/Parts/Sides.antt =====
-- What make_partition of raft-db/config.go gives: the servers in two lists.
use distributed_database.Prelude.{
  ℕ, zero, suc, ◌+◌, ◌-◌, ◌*◌, ◌/◌, ◌≤◌, ◌<◌, ◌≡◌, ◌≢◌, refl, sym, ap, subst, ◌∙◌, Bool, true,
  false, List, [], ◌∷◌, some, ok, length, get_elem?, arith, ltb, ltb→lt, ltb→ge, lt→ltb, ◌==◌,
  ==_iff, if◌then◌else◌, Bool-cases, inl, inr, lt_of_get_elem?, All, ◌&&◌, ◌||◌, ◌⊎◌,
}
use distributed_database.Raft.Types.{Raft, State, leader}
use distributed_database.Raft.Node.{get_state, same_state}
use distributed_database.Harness.Wires.{among}
use distributed_database.Harness.Parts.{find_leader}
use distributed_database.Harness.Parts.Halves.{nth_other}

-- Lists by their elements' places.
among-at : (xs : List ℕ) (q a : ℕ) → get_elem? xs q ≡ some a → among a xs ≡ true
among-at [] q a h = cc
among-at (x ∷ xs) zero a h = ground arith
among-at (x ∷ xs) (suc q) a h = ground (arith, among-at xs q a h)

at-among : (xs : List ℕ) (a : ℕ) → among a xs ≡ true → (q : ℕ) × (get_elem? xs q ≡ some a)
at-among [] a h = cc
at-among (x ∷ xs) a h = elim (Bool-cases (x == a)) [
  | inl same ↦ (0, ap some ((==_iff x a).0 same))
  | inr differ ↦ let (q, at) = at-among xs a (rw differ at h) in (suc q, at)
]

pub All-at : (n : ℕ) (xs : List ℕ) → ((a : ℕ) → among a xs ≡ true → a < n) → All (λ t. t < n) xs
All-at n [] h = tt
All-at n (x ∷ xs) h = (h x (ground arith), All-at n xs (λ a later. h a (ground (arith, later))))

-- The servers in two lists, the shorter one with the leader.
pub record IsHalved (n l : ℕ) (p1 p2 : List ℕ) : Type 0 where
  pub more : length p1 ≡ n / 2 + 1
  pub fewer : length p2 ≡ n / 2
  pub apart : (k : ℕ) → (among k p1 && among k p2) ≡ false
  pub covers : (k : ℕ) → (among k p1 || among k p2) ≡ ltb k n
  pub leads : among l p2 ≡ true

-- The places of the servers in the two lists once the leader has the last one.
pub record IsPlaced (n l : ℕ) (p1 p2 : List ℕ) : Type 0 where
  pub small : l < n
  pub odd : n ≡ 2 * length p2 + 1
  pub more : length p1 ≡ length p2 + 1
  pub some_fewer : 0 < length p2
  pub left : (q : ℕ) → q < length p1 → get_elem? p1 q ≡ some (nth_other l q)
  pub right : (q : ℕ) → q + 1 < length p2 → get_elem? p2 q ≡ some (nth_other l (length p1 + q))
  pub last : get_elem? p2 (length p2 - 1) ≡ some l

some_eq : (a b : ℕ) → some a ≡ some b → a ≡ b
some_eq a b h = cc

left_place :
    (n l a : ℕ) (p1 p2 : List ℕ)
    → IsPlaced n l p1 p2
    → among a p1 ≡ true
    → (q : ℕ) × (q < length p1) × (a ≡ nth_other l q)
left_place n l a p1 p2 d h =
    let (q, at) = at-among p1 a h in
    let small = lt_of_get_elem? p1 q a at in
    (q, small, some_eq a (nth_other l q) (sym at ∙ d.left q small))

right_place :
    (n l a : ℕ) (p1 p2 : List ℕ)
    → IsPlaced n l p1 p2
    → among a p2 ≡ true
    → (a ≡ l) ⊎ ((q : ℕ) × (q + 1 < length p2) × (a ≡ nth_other l (length p1 + q)))
right_place n l a p1 p2 d h =
    let (q, at) = at-among p2 a h in
    let small = lt_of_get_elem? p2 q a at in
    elim (Bool-cases (ltb (q + 1) (length p2))) [
      | inl before ↦
          let b = ltb→lt (q + 1) (length p2) before in
          inr (q, b, some_eq a (nth_other l (length p1 + q)) (sym at ∙ d.right q b))
      | inr end ↦
          let e : q ≡ length p2 - 1 = omega (arith, ltb→ge (q + 1) (length p2) end, small) in
          inl (some_eq a l (sym at ∙ ap (get_elem? p2) e ∙ d.last))
    ]

placed_apart :
    (n l a : ℕ) (p1 p2 : List ℕ) → IsPlaced n l p1 p2 → among a p1 ≡ true → among a p2 ≡ true → ⊥
placed_apart n l a p1 p2 d h1 h2 =
    let (q, small, e) = left_place n l a p1 p2 d h1 in
    elim (right_place n l a p1 p2 d h2) [
      | inl last ↦ ground (arith, e, last)
      | inr (r, bound, f) ↦ ground (arith, e, f, small)
    ]

placed_covers :
    (n l a : ℕ) (p1 p2 : List ℕ)
    → IsPlaced n l p1 p2
    → a < n
    → (among a p1 ≡ true) ⊎ (among a p2 ≡ true)
placed_covers n l a p1 p2 d small = elim (Bool-cases (a == l)) [
  | inl same ↦ inr (among-at p2 (length p2 - 1) a (d.last ∙ ap some (sym ((==_iff a l).0 same))))
  | inr differ ↦
      let r : ℕ = if ltb a l then a else a - 1 in
      elim (Bool-cases (ltb r (length p1))) [
        | inl near ↦ inl (
            among-at p1 r a
              (d.left r (ltb→lt r (length p1) near) ∙ ap some (ground (arith, differ))))
        | inr far ↦
            let q : ℕ = r - length p1 in
            let whole : length p1 + q ≡ r = omega (arith, ltb→ge r (length p1) far) in
            inr (
              among-at p2 q a (
                d.right q (ground (arith, differ, small, d.odd, d.more, far))
                ∙ ap some (ap (nth_other l) whole ∙ ground (arith, differ))))
      ]
]

placed_small :
    (n l a : ℕ) (p1 p2 : List ℕ)
    → IsPlaced n l p1 p2
    → (among a p1 ≡ true) ⊎ (among a p2 ≡ true)
    → a < n
placed_small n l a p1 p2 d (inl first) =
    let (q, bound, e) = left_place n l a p1 p2 d first in
    ground (arith, e, bound, d.odd, d.more, d.some_fewer)
placed_small n l a p1 p2 d (inr second) = elim (right_place n l a p1 p2 d second) [
  | inl last ↦ omega (arith, last, d.small)
  | inr (q, bound, e) ↦ ground (arith, e, bound, d.odd, d.more)
]

pub IsPlaced-IsHalved : (n l : ℕ) (p1 p2 : List ℕ) → IsPlaced n l p1 p2 → IsHalved n l p1 p2
IsPlaced-IsHalved n l p1 p2 d = record {
  more = omega (arith, d.more, d.odd);
  fewer = omega (arith, d.odd);
  apart = λ k. neither (among k p1) (among k p2) (placed_apart n l k p1 p2 d);
  covers = λ k.
      either (among k p1) (among k p2) k n (placed_covers n l k p1 p2 d)
        (placed_small n l k p1 p2 d);
  leads = among-at p2 (length p2 - 1) l d.last;
}
  where
    neither : (x y : Bool) → (x ≡ true → y ≡ true → ⊥) → (x && y) ≡ false
    neither true true h = absurd (h refl refl)
    neither true false h = refl
    neither false y h = refl

    either :
        (x y : Bool) (k m : ℕ)
        → (k < m → (x ≡ true) ⊎ (y ≡ true))
        → ((x ≡ true) ⊎ (y ≡ true) → k < m)
        → (x || y) ≡ ltb k m
    either true y k m to from = sym (lt→ltb k m (from (inl refl)))
    either false true k m to from = sym (lt→ltb k m (from (inr refl)))
    either false false k m to from = elim (Bool-cases (ltb k m)) [
      | inl below ↦ elim (to (ltb→lt k m below)) [ inl h ↦ cc | inr h ↦ cc ]
      | inr above ↦ sym above
    ]

pub find_leader-first {ℓ} :
    {C : Type ℓ} (servers : ℕ → Raft C) (i n l : ℕ)
    → i ≤ l
    → l < i + n
    → (servers l).state ≡ leader
    → ((k : ℕ) → i ≤ k → k < l → (servers k).state ≢ leader)
    → find_leader (λ k. some (servers k)) i n ≡ ok (true, l)
unfolding find_leader get_state same_state
find_leader-first servers i zero l from to leads earlier = absurd (omega arith)
find_leader-first servers i (suc n) l from to leads earlier = elim (Bool-cases (i == l)) [
  | inl same ↦
      let e : l ≡ i = sym ((==_iff i l).0 same) in
      let here : (servers i).state ≡ leader = subst (λ k. (servers k).state ≡ leader) e leads in
      rw (here, e) refl
  | inr differ ↦
      let before : i < l = ground (arith, differ, from) in
      rw (follows (servers i).state (earlier i (omega arith) before)) (
        find_leader-first servers (i + 1) n l (omega (arith, before)) (omega (arith, to)) leads
          (λ k above. earlier k (omega (arith, above))))
]
  where
    follows : (s : State) → s ≢ leader → same_state s leader ≡ false
    follows s h = ground arith
