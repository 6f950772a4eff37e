-- ===== src/Harness/Agreement/Counted.antt =====
-- What nCommitted of raft/config.go counts.
use distributed_database.Prelude.{
  ℕ, ◌+◌, ◌≤◌, ◌<◌, ◌≡◌, refl, sym, subst, ap, ◌∙◌, Bool, true, ◌&&◌, List, [], ◌∷◌, Option, none,
  some, arith, ltb, leb, lt→ltb, ltb→lt, leb→le, Bool-cases, not, false, Option-cases, inl, inr,
  if◌then◌else◌, lookup, Eq, nat_eq, Has,
}
use distributed_database.Harness.{Judged, passed, failed}
use distributed_database.Harness.Applier.{n_committed}
use distributed_database.Harness.Agreement.{poll}

module _ {C : Type 0} ⦃e : Eq (Option C)⦄ where
  -- The number of servers that have reported the command at the index.
  unfoldable pub holders : ℕ → Option C → List (List (ℕ × Option C)) → ℕ
  unfolding lookup
  holders i cmd [] = 0
  holders i cmd (log ∷ logs) =
      let rest = holders i cmd logs in
      elim (lookup i log) [ none ↦ rest | some old ↦ if e.beq cmd old then rest + 1 else rest ]

  n_committed-more :
      (i count nd : ℕ) (cmd c : Option C) (logs : List (List (ℕ × Option C)))
      → 0 < count
      → n_committed i logs count cmd ≡ passed (nd, c)
      → (c ≡ cmd) × (nd ≡ count + holders i cmd logs)
  unfolding n_committed holders
  n_committed-more i count nd cmd c [] some_lem h = (cc, ground arith)
  n_committed-more i count nd cmd c (log ∷ logs) some_lem h = elim (Option-cases (lookup i log)) [
    | inl none_lem ↦
        rw (holders, none_lem)
          (n_committed-more i count nd cmd c logs some_lem (rw (n_committed, none_lem) at h))
    | inr (cmd1, at) ↦ elim (Bool-cases (e.beq cmd cmd1)) [
      | inl same ↦
          let eq : cmd1 ≡ cmd = sym ((e.beq_iff cmd cmd1).0 same) in
          let (last, number) =
            n_committed-more i (count + 1) nd cmd1 c logs (omega arith)
              (rw (n_committed, at, same, lt→ltb 0 count some_lem) at h) in
          (last ∙ eq, rw (holders, at, same) (number ∙ rw eq (omega arith)))
      | inr differ ↦ cc (rw (n_committed, at, differ, lt→ltb 0 count some_lem) at h)
    ]
  ]

  pub n_committed-holders :
      (i nd : ℕ) (cmd c : Option C) (logs : List (List (ℕ × Option C)))
      → n_committed i logs 0 cmd ≡ passed (nd, c)
      → 0 < nd
      → nd ≡ holders i c logs
  unfolding n_committed holders
  n_committed-holders i nd cmd c [] h some_lem = absurd (ground (arith, h, some_lem))
  n_committed-holders i nd cmd c (log ∷ logs) h some_lem = elim (Option-cases (lookup i log)) [
    | inl none_lem ↦
        rw (holders, none_lem)
          (n_committed-holders i nd cmd c logs (rw (n_committed, none_lem) at h) some_lem)
    | inr (cmd1, at) ↦
        let (last, number) =
          n_committed-more i 1 nd cmd1 c logs (omega arith) (rw (n_committed, at) at h) in
        let same : e.beq c cmd1 ≡ true = (e.beq_iff c cmd1).1 last in
        rw (holders, at, same) (number ∙ ap (λ x. 1 + holders i x logs) (sym last) ∙ omega arith)
  ]

  -- Where `poll` ends with agreement, as many servers as it wants, and one at least, had all
  -- reported the command at one of its looks.
  pub poll-agreed :
      (cmd : Option C) (expected_servers index : ℕ) (polls : List (List (List (ℕ × Option C))))
      → poll cmd expected_servers index polls ≡ passed true
      → (logs : List (List (ℕ × Option C))) × Has logs polls
        × (expected_servers ≤ holders index cmd logs)
        × (0 < holders index cmd logs)
  unfolding poll
  poll-agreed cmd expected_servers index [] h = cc
  poll-agreed cmd expected_servers index (logs ∷ polls) h =
      look (n_committed index logs 0 none) refl h (λ later.
        let (found, has, enough, one_lem) = poll-agreed cmd expected_servers index polls later in
        (found, inr has, enough, one_lem))
    where
      all_three : (x y z : Bool) → (x && y && z) ≡ true → (x ≡ true) × (y ≡ true) × (z ≡ true)
      all_three x y z h = (ground arith, ground arith, ground arith)

      look :
          (out : Judged (ℕ × Option C))
          → n_committed index logs 0 none ≡ out
          → (elim out [
            | failed ↦ failed
            | passed (nd, cmd1) ↦
                if ltb 0 nd && leb expected_servers nd && e.beq cmd1 cmd
                then passed true
                else poll cmd expected_servers index polls
          ])
            ≡ passed true
          → (poll cmd expected_servers index polls ≡ passed true
              → (found : List (List (ℕ × Option C))) × Has found (logs ∷ polls)
                × (expected_servers ≤ holders index cmd found)
                × (0 < holders index cmd found))
          → (found : List (List (ℕ × Option C))) × Has found (logs ∷ polls)
            × (expected_servers ≤ holders index cmd found)
            × (0 < holders index cmd found)
      look failed is ends later = cc
      look (passed (nd, cmd1)) is ends later =
          elim (Bool-cases (ltb 0 nd && leb expected_servers nd && e.beq cmd1 cmd)) [
            | inr more ↦ later (rw more at ends)
            | inl enough ↦
                let (some_lem, many, same) =
                  all_three (ltb 0 nd) (leb expected_servers nd) (e.beq cmd1 cmd) enough in
                let eq = (e.beq_iff cmd1 cmd).0 same in
                let number =
                  n_committed-holders index nd none cmd1 logs is (ltb→lt 0 nd some_lem) in
                let counted : nd ≡ holders index cmd logs =
                  number ∙ ap (λ x. holders index x logs) eq in
                (
                  logs,
                  inl refl,
                  omega (arith, counted, leb→le expected_servers nd many),
                  omega (arith, counted, ltb→lt 0 nd some_lem),
                )
          ]

  -- At every look all servers that have reported anything at the index have reported the command,
  -- and at one of them as many servers as are expected have, and one at least.
  pub record IsReported (cmd : Option C) (expected_servers index : ℕ)
      (polls : List (List (List (ℕ × Option C)))) : Type 0 where
    pub agree :
        (logs : List (List (ℕ × Option C))) (log : List (ℕ × Option C)) (old : Option C)
        → Has logs polls
        → Has log logs
        → lookup index log ≡ some old
        → old ≡ cmd
    pub look : List (List (ℕ × Option C))
    pub looked : Has look polls
    pub enough : expected_servers ≤ holders index cmd look
    pub any : 0 < holders index cmd look

  n_committed_exact :
      (i count : ℕ) (cmd c : Option C) (logs : List (List (ℕ × Option C)))
      → ((log : List (ℕ × Option C)) (old : Option C)
          → Has log logs
          → lookup i log ≡ some old
          → old ≡ cmd)
      → (0 < count → c ≡ cmd)
      → (w : Option C) × (n_committed i logs count c ≡ passed (count + holders i cmd logs, w))
        × (0 < count + holders i cmd logs → w ≡ cmd)
  unfolding n_committed holders
  n_committed_exact i count cmd c [] agree first =
      (c, ap (λ k. passed (k, c)) (omega arith), λ h. first (omega (arith, h)))
  n_committed_exact i count cmd c (log ∷ logs) agree first = elim (Option-cases (lookup i log)) [
    | inl none_lem ↦
        rw (n_committed, holders, none_lem)
          (n_committed_exact i count cmd c logs (λ l old has. agree l old (inr has)) first)
    | inr (old, at) ↦
        let same : old ≡ cmd = agree log old (inl refl) at in
        let here : e.beq cmd old ≡ true = (e.beq_iff cmd old).1 (sym same) in
        let (w, ran, is) =
          n_committed_exact i (count + 1) cmd old logs (λ l o has. agree l o (inr has))
            (λ _. same) in
        let sum : count + 1 + holders i cmd logs ≡ count + (holders i cmd logs + 1) = omega arith in
        let goes_on : (ltb 0 count && not (e.beq c old)) ≡ false = elim (Bool-cases (ltb 0 count)) [
          | inr none_lem ↦ rw none_lem refl
          | inl later ↦
              rw ((e.beq_iff c old).1 (first (ltb→lt 0 count later) ∙ sym same), later) refl
        ] in
        rw (n_committed, holders, at, here, goes_on)
          (w, ran ∙ ap (λ k. passed (k, w)) sum, λ h. is (omega arith))
  ]

  pub poll-IsReported :
      (cmd : Option C) (expected_servers index : ℕ) (polls : List (List (List (ℕ × Option C))))
      → IsReported cmd expected_servers index polls
      → poll cmd expected_servers index polls ≡ passed true
  unfolding poll
  poll-IsReported cmd expected_servers index [] r = absurd r.looked
  poll-IsReported cmd expected_servers index (logs ∷ polls) r =
      let number = holders index cmd logs in
      let (w, ran, is) =
        n_committed_exact index 0 cmd none logs (λ log old. r.agree logs log old (inl refl))
          (λ h. absurd (omega (arith, h))) in
      let ran' : n_committed index logs 0 none ≡ passed (number, w) =
        ran ∙ ap (λ k. passed (k, w)) (omega arith) in
      elim (Bool-cases (ltb 0 number && leb expected_servers number && e.beq w cmd)) [
        | inl done ↦ rw (poll, ran', done) refl
        | inr more ↦
            rw (poll, ran', more)
              (poll-IsReported cmd expected_servers index polls (record {
                agree = λ ls log old has. r.agree ls log old (inr has);
                look = r.look;
                looked = elim r.looked [
                  | inl here ↦ absurd (not_here here w (λ h. is (omega (arith, h))) more)
                  | inr later ↦ later
                ];
                enough = r.enough;
                any = r.any;
              }))
      ]
    where
      contradicts : (x y z : Bool) → x ≡ true → y ≡ true → z ≡ true → (x && y && z) ≡ false → ⊥
      contradicts x y z hx hy hz h = ground (arith, hx, hy, hz, h)

      not_here :
          logs ≡ r.look
          → (w : Option C) → (0 < holders index cmd logs → w ≡ cmd)
          → (ltb 0 (holders index cmd logs)
              && leb expected_servers (holders index cmd logs)
              && e.beq w cmd)
            ≡ false
          → ⊥
      not_here here w is more =
          let any : 0 < holders index cmd logs =
            subst (λ l. 0 < holders index cmd l) (sym here) r.any in
          let enough : expected_servers ≤ holders index cmd logs =
            subst (λ l. expected_servers ≤ holders index cmd l) (sym here) r.enough in
          contradicts (ltb 0 (holders index cmd logs))
            (leb expected_servers (holders index cmd logs)) (e.beq w cmd)
            (lt→ltb 0 (holders index cmd logs) any) (ground (arith, enough))
            ((e.beq_iff w cmd).1 (is any)) more
