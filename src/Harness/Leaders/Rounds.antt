-- ===== src/Harness/Leaders/Rounds.antt =====
-- A round of checkOneLeader while the cluster runs on.
use distributed_database.Prelude.{
  ℕ, zero, suc, ◌+◌, ◌≡◌, ◌≢◌, refl, subst, inl, inr, Bool, true, false, List, [], ◌∷◌, ◌++◌,
  Option, none, some, arith, Bool-cases, lookup, insert, nat_eq, Has, ltb, ltb→lt, ltb→ge,
}
use distributed_database.Raft.Types.{Raft, State, leader}
use distributed_database.Raft.Node.{get_state, same_state}
use distributed_database.Harness.{add_leader, collect_leaders}
use distributed_database.Harness.Leaders.{
  Has-insert, Has-insert_cases, Has-insert_old, lookup-Has, IsLed, Collected, Alone, IsLed-next,
}

same_state-true : (s : State) → same_state s leader ≡ true → s ≡ leader
unfolding same_state
same_state-true s h = ground arith

same_state-false : (s : State) → same_state s leader ≡ false → s ≡ leader → ⊥
unfolding same_state
same_state-false s h up = ground arith

module _ {ℓ} {C : Type ℓ} (connected : ℕ → Bool) (seen : ℕ → Raft C) where
  -- A server that does not lead, or is not asked.
  skip-Collected :
      (i : ℕ) (m : List (ℕ × List ℕ))
      → Collected connected seen i m
      → (connected i ≡ true → (seen i).state ≢ leader)
      → Collected connected seen (i + 1) m
  skip-Collected i m c idle = record {
    each = λ x h. IsLed-next connected seen i x (c.each x h);
    all = λ j lt on up. elim (Bool-cases (ltb j i)) [
      | inl before ↦ c.all j (ltb→lt j i before) on up
      | inr now ↦
          let here : j ≡ i = omega (arith, ltb→ge j i now) in
          absurd (
            idle (subst (λ k. connected k ≡ true) here on)
              (subst (λ k. (seen k).state ≡ leader) here up))
    ];
  }

  add-Collected :
      (i : ℕ) (m : List (ℕ × List ℕ))
      → Alone connected seen
      → Collected connected seen i m
      → connected i ≡ true
      → (seen i).state ≡ leader
      → Collected connected seen (i + 1) (add_leader (seen i).term i m)
  unfolding add_leader
  add-Collected i m alone c on up = go (lookup (seen i).term m) refl
    where
      t : ℕ
      t = (seen i).term

      go :
          (found : Option (List ℕ))
          → lookup t m ≡ found
          → Collected connected seen (i + 1) (elim found [
            | none ↦ insert t (i ∷ []) m
            | some known ↦ insert t (known ++ i ∷ []) m
          ])
      go (some known) h =
          let l = c.each (t, known) (lookup-Has t known m h) in
          absurd (omega (arith, l.below, alone l.server i l.leads up l.term))
      go none h = record {
        each = λ x has. elim (Has-insert_cases t (i ∷ []) x m has) [
          | inr old ↦ IsLed-next connected seen i x (c.each x old)
          | inl new ↦ subst (IsLed connected seen (i + 1)) new (record {
            server = i;
            only = refl;
            below = omega arith;
            reached = on;
            leads = up;
            term = refl;
          })
        ];
        all = λ j lt on' up'. elim (Bool-cases (ltb j i)) [
          | inl before ↦
              Has-insert_old t (i ∷ []) ((seen j).term, j ∷ []) m h
                (c.all j (ltb→lt j i before) on' up')
          | inr now ↦
              let here : i ≡ j = omega (arith, ltb→ge j i now) in
              subst (λ k. Has ((seen k).term, k ∷ []) (insert t (i ∷ []) m)) here
                (Has-insert t (i ∷ []) m)
        ];
      }

  pub collect_leaders-Collected :
      (n i : ℕ) (m : List (ℕ × List ℕ))
      → Alone connected seen
      → Collected connected seen i m
      → Collected connected seen (i + n) (collect_leaders connected seen i n m)
  unfolding collect_leaders get_state
  collect_leaders-Collected zero i m alone c =
      let e : i ≡ i + 0 = omega arith in subst (λ k. Collected connected seen k m) e c
  collect_leaders-Collected (suc n) i m alone c =
      let e : i + 1 + n ≡ i + suc n = omega arith in
      subst (λ k. Collected connected seen k (collect_leaders connected seen i (suc n) m)) e
        (elim (Bool-cases (connected i)) [
          | inr off ↦
              rw off (collect_leaders-Collected n (i + 1) m alone (skip-Collected i m c (λ on. cc)))
          | inl on ↦ elim (Bool-cases (same_state (seen i).state leader)) [
            | inr idle ↦
                rw (on, idle)
                  (collect_leaders-Collected n (i + 1) m alone
                    (skip-Collected i m c (λ _ up. same_state-false (seen i).state idle up)))
            | inl up ↦
                rw (on, up)
                  (collect_leaders-Collected n (i + 1) (add_leader (seen i).term i m) alone
                    (add-Collected i m alone c on (same_state-true (seen i).state up)))
          ]
        ])
