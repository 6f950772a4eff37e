-- ===== src/ShardController/Rebalance/Moves.antt =====
-- One round keeps the table and the list of shards in agreement.
use distributed_database.Prelude.{
  ℕ, zero, suc, ◌+◌, ◌-◌, ◌/◌, ◌≤◌, ◌<◌, ◌≡◌, ◌≢◌, refl, ap, sym, subst, ◌∙◌, ◌⊎◌, inl, inr, false,
  List, [], ◌∷◌, ◌++◌, some, Has, Distinct, Distinct-append, Distinct-halves, Has-take, Has-drop,
  Has-append_cases, length, length-append, length-drop, length-take, get_elem?, get_elem?-set_self,
  get_elem?-set_ne, lt_of_get_elem?, length-set, take, drop, set, arith, ◌==◌, if◌then◌else◌,
  Bool-cases, ==_iff, ==_refl, ne→==,
}
use distributed_database.ShardController.Rebalance.{Table, update, assign, Move, Balance, shift}
use distributed_database.ShardController.Rebalance.Tables.{count, IsTable, update_self, update-ne}

count-set :
    (g m from t : ℕ) (xs : List ℕ)
    → get_elem? xs t ≡ some from
    → count g (set xs t m) + (if from == g then 1 else 0) ≡ count g xs + (if m == g then 1 else 0)
count-set g m from t [] h = cc
count-set g m from zero (x ∷ xs) h = ground arith
count-set g m from (suc t) (x ∷ xs) h = omega (arith, count-set g m from t xs h)

length-assign : (m : ℕ) (ts xs : List ℕ) → length (assign m ts xs) ≡ length xs
unfolding assign
length-assign m [] xs = refl
length-assign m (t ∷ ts) xs = length-assign m ts (set xs t m) ∙ length-set xs t m

-- A place that is not assigned keeps its group.
assign-out : (m t : ℕ) (ts xs : List ℕ) → ¬ Has t ts → get_elem? (assign m ts xs) t ≡ get_elem? xs t
unfolding assign
assign-out m t [] xs h = refl
assign-out m t (u ∷ ts) xs h =
    assign-out m t ts (set xs u m) (λ later. h (inr later))
    ∙ get_elem?-set_ne xs u t m (λ e. h (inl e))

assign-in :
    (m t : ℕ) (ts xs : List ℕ)
    → Distinct ts
    → Has t ts
    → t < length xs
    → get_elem? (assign m ts xs) t ≡ some m
unfolding assign
assign-in m t [] xs d h lt = absurd h
assign-in m t (u ∷ ts) xs d (inl here) lt =
    assign-out m t ts (set xs u m) (subst (λ v. ¬ Has v ts) here d.0)
    ∙ subst (λ v. get_elem? (set xs v m) t ≡ some m) (sym here) (get_elem?-set_self xs t m lt)
assign-in m t (u ∷ ts) xs d (inr later) lt =
    assign-in m t ts (set xs u m) d.1 later (omega (arith, length-set xs u m))

count-assign :
    (g m from : ℕ) (ts xs : List ℕ)
    → Distinct ts
    → ((t : ℕ) → Has t ts → get_elem? xs t ≡ some from)
    → count g (assign m ts xs) + (if from == g then length ts else 0)
      ≡ count g xs + (if m == g then length ts else 0)
unfolding assign
count-assign g m from [] xs d at = ground arith
count-assign g m from (t ∷ ts) xs d at = ground (
  arith,
  count-set g m from t xs (at t (inl refl)),
  count-assign g m from ts (set xs t m) d.1 (λ u later.
      get_elem?-set_ne xs t u m (λ e. d.0 (subst (λ v. Has v ts) (sym e) later))
      ∙ at u (inr later)),
)

module _ (m : Move) (b : Balance) where
  abbrev amount : ℕ
  amount = (m.max - m.min) / 2

  abbrev moved : List ℕ
  moved = take amount (b.table m.max_group)

  -- The table without what leaves the largest group.
  abbrev cut : Table
  cut = update b.table m.max_group (drop amount (b.table m.max_group))

  shift-shards : (shift m b).shards ≡ assign m.min_group moved b.shards
  unfolding shift
  shift-shards = refl

  pub shift-length : length (shift m b).shards ≡ length b.shards
  shift-length = ap length shift-shards ∙ length-assign m.min_group moved b.shards

  -- What a round does to each group, if the two groups differ.
  shift-cases :
      (g : ℕ)
      → m.max_group ≢ m.min_group
      → ((g ≡ m.max_group) × ((shift m b).table g ≡ drop amount (b.table m.max_group)))
        ⊎ ((g ≡ m.min_group) × ((shift m b).table g ≡ b.table m.min_group ++ moved))
        ⊎ ((g ≢ m.max_group) × (g ≢ m.min_group) × ((shift m b).table g ≡ b.table g))
  unfolding shift
  shift-cases g apart = elim (Bool-cases (g == m.max_group)) [
    | inl from ↦
        let here : g ≡ m.max_group = (==_iff g m.max_group).0 from in
        inl (
          here,
          update-ne cut m.min_group g _ (λ e. apart (sym here ∙ e))
              ∙ ap cut here
              ∙ update_self b.table m.max_group _,
        )
    | inr stays ↦
        let not_from : g ≢ m.max_group = λ e. ground (arith, e, stays) in
        elim (Bool-cases (g == m.min_group)) [
          | inl to ↦
              let here : g ≡ m.min_group = (==_iff g m.min_group).0 to in
              inr (
                inl (
                  here,
                  ap (update cut m.min_group (cut m.min_group ++ moved)) here
                      ∙ update_self cut m.min_group _
                      ∙ ap (λ xs. xs ++ moved)
                          (update-ne b.table m.max_group m.min_group _ (λ e. apart (sym e))),
                ))
          | inr other ↦
              let not_to : g ≢ m.min_group = λ e. ground (arith, e, other) in
              inr (
                inr (
                  not_from,
                  not_to,
                  update-ne cut m.min_group g _ not_to ∙ update-ne b.table m.max_group g _ not_from,
                ))
        ]
  ]

  pub shift-lengths :
      (g : ℕ)
      → m.max_group ≢ m.min_group
      → amount ≤ length (b.table m.max_group)
      → length ((shift m b).table g) + (if m.max_group == g then amount else 0)
        ≡ length (b.table g) + (if m.min_group == g then amount else 0)
  shift-lengths g apart enough = elim (shift-cases g apart) [
    | inl (from, at) ↦ ground (
      arith,
      ap length at,
      length-drop amount (b.table m.max_group),
      ap (λ h. length (b.table h)) from,
    )
    | inr (inl (to, at)) ↦ ground (
      arith,
      ap length at,
      length-append (b.table m.min_group) moved,
      length-take amount (b.table m.max_group),
      ap (λ h. length (b.table h)) to,
    )
    | inr (inr (not_from, not_to, at)) ↦ ground (arith, ap length at)
  ]

  module _ (apart : m.max_group ≢ m.min_group)
      (enough : amount ≤ length (b.table m.max_group)) where
    pub shift-length_from :
        length ((shift m b).table m.max_group) + amount ≡ length (b.table m.max_group)
    shift-length_from =
        let h = shift-lengths m.max_group apart enough in
        let other : (m.min_group == m.max_group) ≡ false = ne→== _ _ (λ e. apart (sym e)) in
        ground (arith, h, ==_refl m.max_group, other)

    pub shift-length_to :
        length ((shift m b).table m.min_group) ≡ length (b.table m.min_group) + amount
    shift-length_to =
        let h = shift-lengths m.min_group apart enough in
        let other : (m.max_group == m.min_group) ≡ false = ne→== _ _ apart in
        ground (arith, h, ==_refl m.min_group, other)

    pub shift-length_other :
        (g : ℕ)
        → g ≢ m.max_group
        → g ≢ m.min_group
        → length ((shift m b).table g) ≡ length (b.table g)
    shift-length_other g from to =
        let h = shift-lengths g apart enough in
        let other : (m.max_group == g) ≡ false = ne→== _ _ (λ e. from (sym e)) in
        let other' : (m.min_group == g) ≡ false = ne→== _ _ (λ e. to (sym e)) in
        ground (arith, h, other, other')

  module _ (t : IsTable b.shards b.table) where
    -- A place that the table has for a group other than the largest is not moved.
    stays : (g i : ℕ) → g ≢ m.max_group → Has i (b.table g) → ¬ Has i moved
    stays g i other h leaves =
        let here = t.sound g i h in
        let there = t.sound m.max_group i (Has-take i amount (b.table m.max_group) leaves) in
        let same : some g ≡ some m.max_group = sym here ∙ there in other (cc)

    kept : (g i : ℕ) → ¬ Has i moved → Has i (b.table g) → get_elem? (shift m b).shards i ≡ some g
    kept g i out h =
        ap (λ xs. get_elem? xs i) shift-shards
        ∙ assign-out m.min_group i moved b.shards out
        ∙ t.sound g i h

    arrived : (i : ℕ) → Has i moved → get_elem? (shift m b).shards i ≡ some m.min_group
    arrived i h =
        let (front, _, _) = Distinct-halves amount (b.table m.max_group) (t.distinct m.max_group) in
        let there = t.sound m.max_group i (Has-take i amount (b.table m.max_group) h) in
        ap (λ xs. get_elem? xs i) shift-shards
        ∙ assign-in m.min_group i moved b.shards front h
            (lt_of_get_elem? b.shards i m.max_group there)

    shift_sound :
        (g i : ℕ)
        → m.max_group ≢ m.min_group
        → Has i ((shift m b).table g)
        → get_elem? (shift m b).shards i ≡ some g
    shift_sound g i apart h = elim (shift-cases g apart) [
      | inl (from, at) ↦
          let (_, _, halves) =
            Distinct-halves amount (b.table m.max_group) (t.distinct m.max_group) in
          let behind : Has i (drop amount (b.table m.max_group)) = subst (Has i) at h in
          kept m.max_group i (λ leaves. halves i leaves behind)
            (Has-drop i amount (b.table m.max_group) behind)
          ∙ ap some (sym from)
      | inr (inl (to, at)) ↦
          elim (Has-append_cases i (b.table m.min_group) moved (subst (Has i) at h)) [
            | inl old ↦
                kept m.min_group i (stays m.min_group i (λ e. apart (sym e)) old) old
                ∙ ap some (sym to)
            | inr new ↦ arrived i new ∙ ap some (sym to)
          ]
      | inr (inr (not_from, not_to, at)) ↦
          let old : Has i (b.table g) = subst (Has i) at h in kept g i (stays g i not_from old) old
    ]

    shift-Distinct : (g : ℕ) → m.max_group ≢ m.min_group → Distinct ((shift m b).table g)
    shift-Distinct g apart =
        let (front, back, _) =
          Distinct-halves amount (b.table m.max_group) (t.distinct m.max_group) in
        elim (shift-cases g apart) [
          | inl (from, at) ↦ subst Distinct (sym at) back
          | inr (inl (to, at)) ↦ subst Distinct (sym at) (
              Distinct-append (b.table m.min_group) moved (t.distinct m.min_group) front
                (λ i. stays m.min_group i (λ e. apart (sym e))))
          | inr (inr (not_from, not_to, at)) ↦ subst Distinct (sym at) (t.distinct g)
        ]

    -- A round between two groups keeps the agreement.
    pub shift-IsTable :
        m.max_group ≢ m.min_group
        → amount ≤ length (b.table m.max_group)
        → IsTable (shift m b).shards (shift m b).table
    shift-IsTable apart enough =
        let (front, _, _) = Distinct-halves amount (b.table m.max_group) (t.distinct m.max_group) in
        record {
          sound = λ g i. shift_sound g i apart;
          distinct = λ g. shift-Distinct g apart;
          sizes = λ g. ground (
            arith,
            ap (count g) shift-shards,
            shift-lengths g apart enough,
            count-assign g m.min_group m.max_group moved b.shards front
                (λ i h. t.sound m.max_group i (Has-take i amount (b.table m.max_group) h)),
            length-take amount (b.table m.max_group),
            t.sizes g,
          );
        }
