-- ===== src/Harness/Waiting.antt =====
-- `wait` of raft/config.go: until enough servers have committed an index.
use distributed_database.Prelude.{
  ℕ, ◌≤◌, ◌≡◌, refl, ap, ◌∙◌, Bool, true, false, List, [], ◌∷◌, Option, none, some, Go, ok, ◌>>=◌,
  panic, deref, ltb, leb, ltb→lt, ltb→ge, if◌then◌else◌, Bool-cases, inl, inr, arith, Eq,
}
use distributed_database.Raft.Types.{Raft}
use distributed_database.Raft.Node.{get_state}
use distributed_database.Harness.{Judged, passed, failed}
use distributed_database.Harness.Applier.{n_committed}
use distributed_database.Harness.Agreement.Counted.{holders, n_committed-holders}

module _ {C : Type 0} where
  -- The loop over the servers: whether one has a later term. A crashed one is a nil pointer.
  unfoldable pub moved_on : ℕ → List (Option (Raft C)) → Go Bool
  unfolding get_state
  moved_on start_term [] = ok false
  moved_on start_term (seen ∷ rafts) =
      let rest = moved_on start_term rafts in
      (do r ← deref seen; if ltb start_term (get_state r).0 then ok true else rest)

module _ {C : Type 0} ⦃e : Eq (Option C)⦄ where
  -- The end of `wait`, on the reports of that moment.
  unfoldable pub decide : ℕ → ℕ → List (List (ℕ × Option C)) → Judged (Option (Option C))
  unfolding n_committed
  decide index n logs = elim (n_committed index logs 0 none) [
    | failed ↦ failed
    | passed (nd, cmd) ↦ if ltb nd n then failed else passed (some cmd)
  ]

  -- `wait` over what its passes see, of which the source has 30 at most: the reports and the
  -- servers. A start term of -1 is `none`, and so is the answer where a server has moved on.
  unfoldable pub wait :
      ℕ
      → ℕ
      → Option ℕ
      → List (List (List (ℕ × Option C)) × List (Option (Raft C)))
      → List (List (ℕ × Option C))
      → Go (Judged (Option (Option C)))
  unfolding moved_on decide n_committed
  wait index n start_term [] last = ok (decide index n last)
  wait index n start_term ((logs, rafts) ∷ looks) last =
      let rest = wait index n start_term looks last in
      elim (n_committed index logs 0 none) [
        | failed ↦ ok failed
        | passed (nd, cmd) ↦ if leb n nd then ok (decide index n last) else elim start_term [
          | none ↦ rest
          | some term ↦ (do gone ← moved_on term rafts; if gone then ok (passed none) else rest)
        ]
      ]

  -- Where `wait` ends with a command, `n` servers at least had all reported it at the end.
  decide-counted :
      (index n : ℕ) (cmd : Option C) (logs : List (List (ℕ × Option C)))
      → decide index n logs ≡ passed (some cmd)
      → n ≤ holders index cmd logs
  unfolding decide
  decide-counted index n cmd logs h = look (n_committed index logs 0 none) refl h
    where
      look :
          (out : Judged (ℕ × Option C))
          → n_committed index logs 0 none ≡ out
          → (elim out as (λ _. Judged (Option (Option C))) [
            | failed ↦ failed
            | passed (nd, c) ↦ if ltb nd n then failed else passed (some c)
          ])
            ≡ passed (some cmd)
          → n ≤ holders index cmd logs
      look failed is ends = cc
      look (passed (nd, c)) is ends = elim (Bool-cases (ltb nd n)) [
        | inl few ↦ cc (rw few at ends)
        | inr many ↦
            let same : c ≡ cmd = cc (rw many at ends) in
            elim (Bool-cases (ltb 0 nd)) [
              | inl any ↦
                  let number = n_committed-holders index nd none c logs is (ltb→lt 0 nd any) in
                  let counted : nd ≡ holders index cmd logs =
                    number ∙ ap (λ x. holders index x logs) same in
                  omega (arith, counted, ltb→ge nd n many)
              | inr none_lem ↦ omega (arith, ltb→ge nd n many, ltb→ge 0 nd none_lem)
            ]
      ]

  -- Where `wait` returns a command, `n` servers at least had all reported it at the end.
  pub wait-counted :
      (index n : ℕ) (start_term : Option ℕ)
      (looks : List (List (List (ℕ × Option C)) × List (Option (Raft C))))
      (last : List (List (ℕ × Option C))) (cmd : Option C)
      → wait index n start_term looks last ≡ ok (passed (some cmd))
      → n ≤ holders index cmd last
  unfolding wait
  wait-counted index n start_term [] last cmd h = decide-counted index n cmd last (cc)
  wait-counted index n start_term ((logs, rafts) ∷ looks) last cmd h =
      look (n_committed index logs 0 none) start_term h
        (λ same. wait-counted index n start_term looks last cmd same)
    where
      ended : ok (decide index n last) ≡ ok (passed (some cmd)) → n ≤ holders index cmd last
      ended e = decide-counted index n cmd last (cc)

      gone_on :
          (gone : Go Bool) (rest : Go (Judged (Option (Option C))))
          → (gone >>= (λ b. if b then ok (passed none) else rest)) ≡ ok (passed (some cmd))
          → rest ≡ ok (passed (some cmd))
      gone_on panic rest e = cc
      gone_on (ok true) rest e = cc
      gone_on (ok false) rest e = e

      look :
          (out : Judged (ℕ × Option C)) (since : Option ℕ)
          → (elim out as (λ _. Go (Judged (Option (Option C)))) [
            | failed ↦ ok failed
            | passed (nd, c) ↦ if leb n nd then ok (decide index n last) else elim since [
              | none ↦ wait index n start_term looks last
              | some term ↦ (do
                gone ← moved_on term rafts
                if gone then ok (passed none) else wait index n start_term looks last)
            ]
          ])
            ≡ ok (passed (some cmd))
          → (wait index n start_term looks last ≡ ok (passed (some cmd))
              → n ≤ holders index cmd last)
          → n ≤ holders index cmd last
      look failed since e later = cc
      look (passed (nd, c)) since e later = elim (Bool-cases (leb n nd)) [
        | inl enough ↦ ended (rw enough at e)
        | inr few ↦ on since (rw few at e)
      ]
        where
          on :
              (since' : Option ℕ)
              → (elim since' as (λ _. Go (Judged (Option (Option C)))) [
                | none ↦ wait index n start_term looks last
                | some term ↦ (do
                  gone ← moved_on term rafts
                  if gone then ok (passed none) else wait index n start_term looks last)
              ])
                ≡ ok (passed (some cmd))
              → n ≤ holders index cmd last
          on none e' = later e'
          on (some term) e' =
              later (gone_on (moved_on term rafts) (wait index n start_term looks last) e')
