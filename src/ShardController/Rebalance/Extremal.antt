-- ===== src/ShardController/Rebalance/Extremal.antt =====
-- What `maxmin` finds.
use distributed_database.Prelude.{
  ℕ, ◌-◌, ◌*◌, ◌≤◌, ◌<◌, ◌≡◌, refl, ◌⊎◌, inl, inr, true, false, List, [], ◌∷◌, none, some, Has,
  length, ltb, arith, Option-cases, Bool-cases, subst, sym, ap, ◌∙◌,
}
use distributed_database.ShardController.Rebalance.{Table, Extremes, look, scan, Move, maxmin}

-- What the loop knows after it has gone over `gs`, from `x` on.
record IsScan (ct : Table) (gs : List ℕ) (x r : Extremes) : Type 0 where
  most_ge : x.most ≤ r.most
  most_all : (g : ℕ) → Has g gs → length (ct g) ≤ r.most
  most_at :
      ((r.most ≡ x.most) × (r.most_group ≡ x.most_group))
      ⊎ (Has r.most_group gs × (length (ct r.most_group) ≡ r.most))
  least_le : (m : ℕ) → x.least ≡ some m → (k : ℕ) × (r.least ≡ some k) × (k ≤ m)
  least_all : (g : ℕ) → Has g gs → (k : ℕ) × (r.least ≡ some k) × (k ≤ length (ct g))
  least_at :
      ((r.least ≡ x.least) × (r.least_group ≡ x.least_group))
      ⊎ (Has r.least_group gs × (r.least ≡ some (length (ct r.least_group))))

-- What one round does.
record IsLook (ct : Table) (g : ℕ) (x r : Extremes) : Type 0 where
  most_ge : x.most ≤ r.most
  most_this : length (ct g) ≤ r.most
  most_at :
      ((r.most ≡ x.most) × (r.most_group ≡ x.most_group))
      ⊎ ((r.most_group ≡ g) × (length (ct g) ≡ r.most))
  least_le : (m : ℕ) → x.least ≡ some m → (k : ℕ) × (r.least ≡ some k) × (k ≤ m)
  least_this : (k : ℕ) × (r.least ≡ some k) × (k ≤ length (ct g))
  least_at :
      ((r.least ≡ x.least) × (r.least_group ≡ x.least_group))
      ⊎ ((r.least_group ≡ g) × (r.least ≡ some (length (ct g))))

look-IsLook : (ct : Table) (g : ℕ) (x : Extremes) → IsLook ct g x (look ct g x)
unfolding look
look-IsLook ct g x = elim (Option-cases x.least) [
  | inl nothing ↦ record {
    most_ge = ground arith;
    most_this = ground arith;
    most_at = ground arith;
    least_le = λ m e. cc;
    least_this = (length (ct g), ground arith, omega arith);
    least_at = inr (ground arith, ground arith);
  }
  | inr (m, e) ↦ elim (Bool-cases (ltb (length (ct g)) m)) [
    | inl smaller ↦ record {
      most_ge = ground arith;
      most_this = ground arith;
      most_at = ground arith;
      least_le = λ m' e'. (length (ct g), ground arith, ground arith);
      least_this = (length (ct g), ground arith, omega arith);
      least_at = inr (ground arith, ground arith);
    }
    | inr larger ↦ record {
      most_ge = ground arith;
      most_this = ground arith;
      most_at = ground arith;
      least_le = λ m' e'. (m, ground arith, ground arith);
      least_this = (m, ground arith, ground arith);
      least_at = inl (ground arith, ground arith);
    }
  ]
]

scan-IsScan : (ct : Table) (gs : List ℕ) (x : Extremes) → IsScan ct gs x (scan ct gs x)
unfolding scan
scan-IsScan ct [] x = record {
  most_ge = omega arith;
  most_all = λ g h. absurd h;
  most_at = inl (refl, refl);
  least_le = λ m e. (m, e, omega arith);
  least_all = λ g h. absurd h;
  least_at = inl (refl, refl);
}
scan-IsScan ct (g ∷ gs) x =
    let s = scan-IsScan ct gs (look ct g x) in
    let l = look-IsLook ct g x in
    let r = scan ct gs (look ct g x) in
    record {
      most_ge = omega (arith, s.most_ge, l.most_ge);
      most_all = λ h m. elim m [
        | inl here ↦
            subst (λ j. length (ct j) ≤ r.most) here (omega (arith, s.most_ge, l.most_this))
        | inr later ↦ s.most_all h later
      ];
      most_at = elim s.most_at [
        | inr (at, size) ↦ inr (inr at, size)
        | inl (same, group) ↦ elim l.most_at [
          | inl (same', group') ↦ inl (same ∙ same', group ∙ group')
          | inr (here, size) ↦
              inr
                (inl (sym (group ∙ here)), ap (λ i. length (ct i)) (group ∙ here) ∙ size ∙ sym same)
        ]
      ];
      least_le = λ m e.
          let (k, at, le) = l.least_le m e in
          let (j, at', le') = s.least_le k at in (j, at', omega arith);
      least_all = λ h m. elim m [
        | inr later ↦ s.least_all h later
        | inl here ↦
            let (k, at, le) = l.least_this in
            let (j, at', le') = s.least_le k at in
            (j, at', subst (λ i. j ≤ length (ct i)) here (omega arith))
      ];
      least_at = elim s.least_at [
        | inr (at, size) ↦ inr (inr at, size)
        | inl (same, group) ↦ elim l.least_at [
          | inl (same', group') ↦ inl (same ∙ same', group ∙ group')
          | inr (here, size) ↦ inr (
            inl (sym (group ∙ here)),
            same ∙ size ∙ ap (λ i. some (length (ct i))) (sym (group ∙ here)),
          )
        ]
      ];
    }

abbrev nothing_seen : Extremes
nothing_seen = record { most = 0; most_group = 0; least = none; least_group = 0 }

-- With no shard in group 0 the result is a group with the most shards and one with the fewest.
pub record IsMaxmin (ct : Table) (gs : List ℕ) (m : Move) : Type 0 where
  pub largest : (g : ℕ) → Has g gs → length (ct g) ≤ m.max
  pub smallest : (g : ℕ) → Has g gs → m.min ≤ length (ct g)
  pub from_largest : 0 < m.max → Has m.max_group gs × (length (ct m.max_group) ≡ m.max)
  pub to_smallest : Has m.min_group gs × (length (ct m.min_group) ≡ m.min)

pub maxmin-groups :
    (ct : Table) (g : ℕ) (gs : List ℕ)
    → length (ct 0) ≡ 0
    → IsMaxmin ct (g ∷ gs) (maxmin ct (g ∷ gs))
unfolding maxmin
maxmin-groups ct g gs empty =
    let s = scan-IsScan ct (g ∷ gs) nothing_seen in
    let r = scan ct (g ∷ gs) nothing_seen in
    let (k, at, le) = s.least_all g (inl refl) in
    let no_zero : ltb 0 (length (ct 0)) ≡ false = ground arith in
    let found : Has r.least_group (g ∷ gs) × (r.least ≡ some (length (ct r.least_group))) =
      elim s.least_at [ inl (same, group) ↦ cc | inr both ↦ both ] in
    rw (no_zero, at)
      (record {
        largest = s.most_all;
        smallest = λ h has. (let (j, at', le') = s.least_all h has in ground arith);
        from_largest = λ some_shards. elim s.most_at [
          | inl (none_seen, _) ↦ absurd (omega arith)
          | inr both ↦ both
        ];
        to_smallest = (found.0, ground arith);
      })

-- Shards in group 0 all go to a group that has the fewest.
pub maxmin-zero :
    (ct : Table) (g : ℕ) (gs : List ℕ)
    → 0 < length (ct 0)
    → ((maxmin ct (g ∷ gs)).max ≡ length (ct 0) * 2)
      × ((maxmin ct (g ∷ gs)).max_group ≡ 0)
      × ((maxmin ct (g ∷ gs)).min ≡ 0)
      × Has (maxmin ct (g ∷ gs)).min_group (g ∷ gs)
unfolding maxmin
maxmin-zero ct g gs full =
    let s = scan-IsScan ct (g ∷ gs) nothing_seen in
    let (k, at, le) = s.least_all g (inl refl) in
    let some_shards : ltb 0 (length (ct 0)) ≡ true = ground arith in
    let r = scan ct (g ∷ gs) nothing_seen in
    let group : (maxmin ct (g ∷ gs)).min_group ≡ r.least_group = rw (some_shards, at) in
    let found : Has r.least_group (g ∷ gs) = elim s.least_at [
      | inl (same, _) ↦ cc
      | inr both ↦ both.0
    ] in
    (
      rw (some_shards, at),
      rw (some_shards, at),
      rw (some_shards, at),
      subst (λ j. Has j (g ∷ gs)) (sym group) found,
    )

-- With no groups there is nothing to move.
pub maxmin-nil : (ct : Table) → (maxmin ct []).max - (maxmin ct []).min ≤ 1
unfolding maxmin scan
maxmin-nil ct = ground arith
