-- ===== src/Harness/Parts/Halves.antt =====
-- How make_partition of raft-db/config.go deals out the servers.
use distributed_database.Prelude.{
  ℕ, zero, suc, ◌+◌, ◌-◌, ◌≤◌, ◌<◌, ◌≡◌, ◌≢◌, refl, sym, ap, subst, ◌∙◌, List, some, ok, length,
  get_elem?, set, arith, ltb, ltb→lt, ltb→ge, lt→ltb, ◌==◌, ==_iff, if◌then◌else◌, Bool-cases, inl,
  inr, length-set, get_elem?-set_self, get_elem?-set_ne,
}
use distributed_database.Harness.Parts.{deal}

-- The `q`-th of the servers without server `l`.
abbrev pub nth_other : ℕ → ℕ → ℕ
nth_other l q = if ltb q l then q else q + 1

-- The first `j` servers without `l` are dealt out, to the first list while it has room.
pub record IsDealt (l j : ℕ) (p1 p2 : List ℕ) : Type 0 where
  pub left : (q : ℕ) → q < j → q < length p1 → get_elem? p1 q ≡ some (nth_other l q)
  pub right : (q : ℕ) → length p1 + q < j → get_elem? p2 q ≡ some (nth_other l (length p1 + q))

set_either :
    (xs : List ℕ) (j q v x : ℕ)
    → j < length xs
    → (q ≡ j → v ≡ x)
    → (q ≢ j → get_elem? xs q ≡ some x)
    → get_elem? (set xs j v) q ≡ some x
set_either xs j q v x room here away = elim (Bool-cases (j == q)) [
  | inl same ↦
      let e : j ≡ q = (==_iff j q).0 same in
      subst (λ k. get_elem? (set xs j v) k ≡ some x) e
        (get_elem?-set_self xs j v room ∙ ap some (here (sym e)))
  | inr differ ↦
      let n : j ≢ q = λ e. cc (differ, (==_iff j q).1 e) in
      get_elem?-set_ne xs j q v n ∙ away (λ e. n (sym e))
]

IsDealt-left :
    (l j i : ℕ) (p1 p2 : List ℕ)
    → i ≡ nth_other l j
    → j < length p1
    → IsDealt l j p1 p2
    → IsDealt l (j + 1) (set p1 j i) p2
IsDealt-left l j i p1 p2 here room d = record {
  left = λ q before small.
      set_either p1 j q i (nth_other l q) room (λ e. here ∙ ap (nth_other l) (sym e))
        (λ n. d.left q (omega (arith, n)) (omega (arith, length-set p1 j i)));
  right = λ q before. absurd (omega (arith, length-set p1 j i));
}

IsDealt-right :
    (l j i : ℕ) (p1 p2 : List ℕ)
    → i ≡ nth_other l j
    → length p1 ≤ j
    → j - length p1 < length p2
    → IsDealt l j p1 p2
    → IsDealt l (j + 1) p1 (set p2 (j - length p1) i)
IsDealt-right l j i p1 p2 here full room d = record {
  left = λ q before small. d.left q (omega arith) small;
  right = λ q before.
      set_either p2 (j - length p1) q i (nth_other l (length p1 + q)) room
        (λ e. here ∙ ap (nth_other l) (omega (arith, e))) (λ n. d.right q (omega (arith, n)));
}

-- Enough room for the servers from `i` on: `j` is how many of those before are not `l`.
pub record IsDealing (l i n j : ℕ) (p1 p2 : List ℕ) : Type 0 where
  pub known : l < i + n
  pub count : j ≡ (if ltb l i then i - 1 else i)
  pub room : i + n ≤ length p1 + length p2
  pub dealt : IsDealt l j p1 p2

-- The loop never faults, keeps the lists' lengths, and deals out all servers but `l`.
pub deal-deals :
    (l i n j : ℕ) (p1 p2 : List ℕ)
    → IsDealing l i n j p1 p2
    → (q1 : List ℕ) × (q2 : List ℕ) × (deal l i n j p1 p2 ≡ ok (q1, q2))
      × (length q1 ≡ length p1)
      × (length q2 ≡ length p2)
      × IsDealt l (i + n - 1) q1 q2
unfolding deal
deal-deals l i zero j p1 p2 d = (
  p1,
  p2,
  refl,
  refl,
  refl,
  subst (λ k. IsDealt l k p1 p2) (ground (arith, d.count, d.known)) d.dealt,
)
deal-deals l i (suc n) j p1 p2 d = elim (Bool-cases (i == l)) [
  | inl skip ↦
      let (q1, q2, ran, len1, len2, dealt) = deal-deals l (i + 1) n j p1 p2 (record {
        known = omega (arith, d.known);
        count = ground (arith, d.count, skip);
        room = omega (arith, d.room);
        dealt = d.dealt;
      }) in
      (q1, q2, rw skip ran, len1, len2, subst (λ k. IsDealt l k q1 q2) (omega arith) dealt)
  | inr other ↦ elim (Bool-cases (ltb j (length p1))) [
    | inl room ↦
        let (q1, q2, ran, len1, len2, dealt) =
          deal-deals l (i + 1) n (j + 1) (set p1 j i) p2 (record {
            known = omega (arith, d.known);
            count = ground (arith, d.count, other);
            room = omega (arith, d.room, length-set p1 j i);
            dealt =
                IsDealt-left l j i p1 p2 (ground (arith, d.count, other))
                  (ltb→lt j (length p1) room) d.dealt;
          }) in
        (
          q1,
          q2,
          rw (other, room) ran,
          len1 ∙ length-set p1 j i,
          len2,
          subst (λ k. IsDealt l k q1 q2) (omega arith) dealt,
        )
    | inr full ↦
        let there : j - length p1 < length p2 =
          ground (arith, d.count, d.room, d.known, other, full) in
        let (q1, q2, ran, len1, len2, dealt) =
          deal-deals l (i + 1) n (j + 1) p1 (set p2 (j - length p1) i) (record {
            known = omega (arith, d.known);
            count = ground (arith, d.count, other);
            room = omega (arith, d.room, length-set p2 (j - length p1) i);
            dealt =
                IsDealt-right l j i p1 p2 (ground (arith, d.count, other))
                  (ltb→ge j (length p1) full) there d.dealt;
          }) in
        (
          q1,
          q2,
          rw (other, full, lt→ltb (j - length p1) (length p2) there) ran,
          len1,
          len2 ∙ length-set p2 (j - length p1) i,
          subst (λ k. IsDealt l k q1 q2) (omega arith) dealt,
        )
  ]
]
