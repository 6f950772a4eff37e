-- ===== src/Harness/Checks.antt =====
-- What the other checks of raft/config.go find, and what its crashes leave.
use distributed_database.Prelude.{
  ℕ, zero, suc, ◌+◌, ◌≤◌, ◌<◌, ◌≡◌, ◌≢◌, refl, sym, subst, ◌∙◌, inl, inr, Bool, true, ◌&&◌, List,
  [], ◌∷◌, Option, none, some, Go, get_elem?, arith, ltb, ltb→lt, ltb→ge, ◌==◌, ==_iff,
  if◌then◌else◌, not, Bool-cases, lookup, nat_eq, Eq,
}
use distributed_database.Raft.Types.{Raft, Persister, leader, Codec}
use distributed_database.Raft.Node.{
  get_state, make_persister, copy, read_raft_state, read_snapshot, save_state_and_snapshot,
}
use distributed_database.Raft.Boot.{make}
use distributed_database.Raft.Step.{restarted, step}
use distributed_database.Harness.{Judged, passed, failed, check_terms, check_no_leader}
use distributed_database.Harness.Applier.{n_committed}

module _ {ℓ} {C : Type ℓ} (connected : ℕ → Bool) (seen : ℕ → Raft C) where
  -- Where checkNoLeader lets the test go on, no connected server led when it was asked.
  check_no_leader_sound :
      (n i j : ℕ)
      → check_no_leader connected seen i n ≡ true
      → i ≤ j
      → j < i + n
      → connected j ≡ true
      → (seen j).state ≢ leader
  unfolding check_no_leader get_state
  check_no_leader_sound zero i j h from to on up = omega arith
  check_no_leader_sound (suc n) i j h from to on up = elim (Bool-cases (ltb i j)) [
    | inl later ↦
        check_no_leader_sound n (i + 1) j (ground arith) (omega (arith, ltb→lt i j later))
          (omega arith) on up
    | inr now ↦
        let here : j ≡ i = omega (arith, ltb→ge i j now) in
        leads_here (subst (λ k. connected k ≡ true) here on)
          (subst (λ k. (seen k).state ≡ leader) here up)
  ]
    where
      leads_here : connected i ≡ true → (seen i).state ≡ leader → ⊥
      leads_here on' up' = ground (arith, h, on', up')

  -- From server `i` on all connected servers have the term, and so has `term`, if there is one yet.
  record OneTerm (i n : ℕ) (term : Option ℕ) (t : ℕ) : Type 0 where
    earlier : (s : ℕ) → term ≡ some s → s ≡ t
    each : (j : ℕ) → i ≤ j → j < i + n → connected j ≡ true → (seen j).term ≡ t

  OneTerm-next :
      (i n t : ℕ) (term later : Option ℕ)
      → OneTerm (i + 1) n later t
      → ((s : ℕ) → term ≡ some s → s ≡ t)
      → (connected i ≡ true → (seen i).term ≡ t)
      → OneTerm i (suc n) term t
  OneTerm-next i n t term later o before here = record {
    earlier = before;
    each = λ j from to on. elim (Bool-cases (ltb i j)) [
      | inl past ↦ o.each j (omega (arith, ltb→lt i j past)) (omega arith) on
      | inr now ↦
          let same : i ≡ j = omega (arith, ltb→ge i j now) in
          subst (λ k. (seen k).term ≡ t) same (here (subst (λ k. connected k ≡ true) (sym same) on))
    ];
  }

  -- Where checkTerms passes with a term, all connected servers have it.
  check_terms_sound :
      (n i t : ℕ) (term : Option ℕ)
      → check_terms connected seen i n term ≡ passed (some t)
      → OneTerm i n term t
  unfolding check_terms get_state
  check_terms_sound zero i t term h = record {
    earlier = λ s e. ground arith;
    each = λ j from to on. absurd (omega arith);
  }
  check_terms_sound (suc n) i t none h = elim (Bool-cases (connected i)) [
    | inr off ↦
        let o = check_terms_sound n (i + 1) t none (rw off at h) in
        OneTerm-next i n t none none o o.earlier (λ on. cc)
    | inl on ↦
        let o = check_terms_sound n (i + 1) t (some (seen i).term) (rw on at h) in
        OneTerm-next i n t none (some (seen i).term) o (λ s e. cc)
          (λ _. o.earlier (seen i).term refl)
  ]
  check_terms_sound (suc n) i t (some s) h = elim (Bool-cases (connected i)) [
    | inr off ↦
        let o = check_terms_sound n (i + 1) t (some s) (rw off at h) in
        OneTerm-next i n t (some s) (some s) o o.earlier (λ on. cc)
    | inl on ↦ elim (Bool-cases (s == (seen i).term)) [
      | inr differ ↦ cc (rw (on, differ) at h)
      | inl same ↦
          let o = check_terms_sound n (i + 1) t (some s) (rw (on, same) at h) in
          OneTerm-next i n t (some s) (some s) o o.earlier
            (λ _. sym ((==_iff s (seen i).term).0 same) ∙ o.earlier s refl)
    ]
  ]

module _ {ℓ} {C : Type ℓ} ⦃e : Eq (Option C)⦄ where
  -- Where all servers that have reported a command at an index have reported `v`, nCommitted does
  -- not end the test, and its command is `v` if it has counted any.
  n_committed_agree :
      (i count : ℕ) (v cmd : Option C) (logs : List (List (ℕ × Option C)))
      → ((j : ℕ) (known : List (ℕ × Option C)) (old : Option C)
          → get_elem? logs j ≡ some known
          → lookup i known ≡ some old
          → old ≡ v)
      → (0 < count → cmd ≡ v)
      → (n : ℕ) × (w : Option C) × (n_committed i logs count cmd ≡ passed (n, w))
        × (count ≤ n)
        × (0 < n → w ≡ v)
  unfolding n_committed
  n_committed_agree i count v cmd [] agree first = (count, cmd, refl, omega arith, first)
  n_committed_agree i count v cmd (log ∷ logs) agree first =
      go (lookup i log) refl (n_committed_agree i count v cmd logs (λ j. agree (suc j)) first)
        (λ c same. n_committed_agree i (count + 1) v c logs (λ j. agree (suc j)) (λ _. same))
    where
      go :
          (found : Option (Option C))
          → lookup i log ≡ found
          → ((n : ℕ) × (w : Option C) × (n_committed i logs count cmd ≡ passed (n, w))
              × (count ≤ n)
              × (0 < n → w ≡ v))
          → ((c : Option C)
              → c ≡ v
              → (n : ℕ) × (w : Option C) × (n_committed i logs (count + 1) c ≡ passed (n, w))
                × (count + 1 ≤ n)
                × (0 < n → w ≡ v))
          → (n : ℕ) × (w : Option C) × (elim found [
            | none ↦ n_committed i logs count cmd
            | some cmd1 ↦
                if ltb 0 count && not (e.beq cmd cmd1)
                then failed
                else n_committed i logs (count + 1) cmd1
          ]
              ≡ passed (n, w))
            × (count ≤ n)
            × (0 < n → w ≡ v)
      go none at skipped counted = skipped
      go (some c) at skipped counted =
          let same = agree 0 log c refl at in
          let (n, w, runs, le, is) = counted c same in
          (n, w, passes c same runs, omega (arith, le), is)
        where
          passes :
              {o : Judged (ℕ × Option C)} (d : Option C)
              → d ≡ v
              → n_committed i logs (count + 1) d ≡ o
              → (if ltb 0 count && not (e.beq cmd d)
                  then failed
                  else n_committed i logs (count + 1) d)
                ≡ o
          passes d same runs = elim (Bool-cases (ltb 0 count)) [
            | inr zero' ↦ rw zero' runs
            | inl pos ↦
                let eq : e.beq cmd d ≡ true =
                  (e.beq_iff cmd d).1 (first (ltb→lt 0 count pos) ∙ sym same) in
                rw (pos, eq) runs
          ]

-- What crash1 leaves of a server's persister, and what start1 gives to the next one.
unfoldable pub crash_saved : Option Persister → Option Persister
unfolding copy read_raft_state read_snapshot save_state_and_snapshot
crash_saved none = none
crash_saved (some saved) =
    let copied = copy saved in
    some (
      save_state_and_snapshot (record { raftstate = []; snapshot = [] }) (read_raft_state copied)
        (read_snapshot copied))

unfoldable pub start_saved : Option Persister → Persister
unfolding copy make_persister
start_saved none = make_persister
start_saved (some saved) = copy saved

-- start1, which crashes the old server first.
unfoldable pub start1 {ℓ} : {C : Type ℓ} → Codec C → ℕ → ℕ → Option Persister → ℕ → Go (Raft C)
unfolding crash_saved start_saved
start1 codec n i saved timeout = make codec n i (start_saved (crash_saved saved)) timeout

-- The harness' restart of a server is the event of a crash and a new server on the same disk.
start1-step {ℓ} :
    {C : Type ℓ} (codec : Codec C) (rf : Raft C) (timeout : ℕ)
    → start1 codec rf.peers rf.me (some rf.persister) timeout ≡ step codec rf (restarted timeout)
unfolding start1 step
start1-step codec rf timeout = refl
