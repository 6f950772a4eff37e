-- ===== src/Harness/Leaders/Found.antt =====
-- Rounds of checkOneLeader while the cluster runs on.
use distributed_database.Prelude.{
  ℕ, zero, suc, ◌+◌, ◌-◌, ◌≤◌, ◌<◌, ◌≡◌, ◌≢◌, refl, ap, sym, subst, ◌∙◌, ◌⊎◌, inl, inr, Bool, true,
  false, List, [], ◌∷◌, none, some, ok, length, arith, leb, Bool-cases, lookup, nat_eq, Has,
}
use distributed_database.Raft.Types.{Raft, leader, Codec, IsCodec}
use distributed_database.Raft.Cluster.{
  Win, Cluster, timed, asked, heard, handled, Move, timer, ask, hear, other, Run, stop, more,
}
use distributed_database.Raft.Cluster.Invariant.{IsSound}
use distributed_database.Raft.Cluster.Election.{IsStart, start-IsSound, Run-IsSound}
use distributed_database.Harness.{
  passed, last_term, first_leader, judge_leaders, collect_leaders, leader_round,
}
use distributed_database.Harness.Leaders.{lookup-Has, Has-lookup, latest, Collected, Alone}
use distributed_database.Harness.Leaders.Rounds.{collect_leaders-Collected}

judge_leaders_lem :
    (m : List (ℕ × List ℕ)) (t i : ℕ)
    → last_term none m ≡ passed (some t)
    → leb (length m) 0 ≡ false
    → lookup t m ≡ some (i ∷ [])
    → judge_leaders m ≡ ok (passed (some i))
unfolding judge_leaders first_leader
judge_leaders_lem m t i runs many at = ground (arith, runs, many, at)

module _ {ℓ} {C : Type ℓ} (connected : ℕ → Bool) (seen : ℕ → Raft C) where
  -- What a round finds among the first `n` servers.
  abbrev pub Nobody : ℕ → Type 0
  Nobody n = (j : ℕ) → j < n → connected j ≡ true → (seen j).state ≢ leader

  pub record IsFound (n i : ℕ) : Type 0 where
    pub below : i < n
    pub reached : connected i ≡ true
    pub leads : (seen i).state ≡ leader
    pub latest_term :
        (j : ℕ)
        → j < n
        → connected j ≡ true
        → (seen j).state ≡ leader
        → (seen j).term ≤ (seen i).term

  judge_leaders-Collected :
      (n : ℕ) (m : List (ℕ × List ℕ))
      → Collected connected seen n m
      → ((judge_leaders m ≡ ok (passed none)) × Nobody n)
        ⊎ ((i : ℕ) × (judge_leaders m ≡ ok (passed (some i))) × IsFound n i)
  unfolding judge_leaders
  judge_leaders-Collected n [] c = inl (unfold last_term in refl, λ j lt on up. c.all j lt on up)
  judge_leaders-Collected n (x ∷ rest) c =
      let m = x ∷ rest in
      let single : (y : ℕ × List ℕ) → Has y m → length y.1 ≡ 1 =
        λ y has. ap length (c.each y has).only in
      let l = latest none m single in
      let (t, is, _) = l.greatest x (inl refl) in
      elim l.there [
        | inl nothing ↦ (let wrong : some t ≡ none = sym is ∙ nothing in cc)
        | inr (y, has, is_key) ↦
            let (known, found) = Has-lookup y.0 y.1 m has in
            let led = c.each (y.0, known) (lookup-Has y.0 known m found) in
            let many : leb (length m) 0 ≡ false = ground arith in
            let at : lookup y.0 m ≡ some (led.server ∷ []) = found ∙ ap some led.only in
            inr (
              led.server,
              judge_leaders_lem m y.0 led.server (l.runs ∙ ap passed is_key) many at,
              record {
                below = led.below;
                reached = led.reached;
                leads = led.leads;
                latest_term = λ j lt on up.
                    (let (s, is', le) = l.greatest ((seen j).term, j ∷ []) (c.all j lt on up) in
                      let same : some y.0 ≡ some s = sym is_key ∙ is' in
                      ground (arith, le, same, led.term));
              },
            )
      ]

  pub leader_round_alone :
      (n : ℕ)
      → Alone connected seen
      → ((leader_round n connected seen ≡ ok (passed none)) × Nobody n)
        ⊎ ((i : ℕ) × (leader_round n connected seen ≡ ok (passed (some i))) × IsFound n i)
  unfolding leader_round
  leader_round_alone n alone =
      let whole : 0 + n ≡ n = omega arith in
      judge_leaders-Collected n (collect_leaders connected seen 0 n []) (
        subst (λ k. Collected connected seen k (collect_leaders connected seen 0 n [])) whole
          (collect_leaders-Collected connected seen n 0 [] alone
            (record { each = λ x h. absurd h; all = λ j lt. absurd (omega arith) })))

module _ {ℓ} {C : Type ℓ} (codec : Codec C) (law : IsCodec codec) (n : ℕ) where
  Move-wins : (c c' : Cluster C) (w : Win) → Move codec n c c' → Has w c.wins → Has w c'.wins
  unfolding timed asked heard handled
  Move-wins _ _ w (timer c i now timeout rf sent lt runs) h = h
  Move-wins _ _ w (ask c j now args rf reply lt apart runs) h = h
  Move-wins _ _ w (hear c i replied b rf vote true lt cast for_me new runs) h = inr h
  Move-wins _ _ w (hear c i replied b rf vote false lt cast for_me new runs) h = h
  Move-wins _ _ w (other c i e rf lt outside runs) h = h

  Run-wins : (c c' : Cluster C) (w : Win) → Run codec n c c' → Has w c.wins → Has w c'.wins
  Run-wins _ _ w (stop c) h = h
  Run-wins _ _ w (more a b c r m) h = Move-wins b c w m (Run-wins a b w r h)

  leaders_over_time :
      (c c' : Cluster C) (i j : ℕ)
      → IsSound codec law n c
      → Run codec n c c'
      → (c.servers i).state ≡ leader
      → (c'.servers j).state ≡ leader
      → (c.servers i).term ≡ (c'.servers j).term
      → i ≡ j
  leaders_over_time c c' i j s r up up' same =
      let s' = Run-IsSound codec law n c c' s r in
      let (v, hv, who, when) = s.leads i up in
      let (w, hw, who', when') = s'.leads j up' in
      sym who ∙ s'.unique v w (Run-wins c c' v r hv) hw (when ∙ same ∙ sym when') ∙ who'

  -- The moments at which a round asks its servers, one after the other.
  module _ (first : Cluster C) (moment : ℕ → Cluster C) (start : IsStart codec law n first)
      (before : Run codec n first (moment 0))
      (between : (i : ℕ) → Run codec n (moment i) (moment (suc i))) where
    moment-IsSound : (i : ℕ) → IsSound codec law n (moment i)
    moment-IsSound zero =
        Run-IsSound codec law n first (moment 0) (start-IsSound codec law n first start) before
    moment-IsSound (suc i) =
        Run-IsSound codec law n (moment i) (moment (suc i)) (moment-IsSound i) (between i)

    Run-trans : (a b c : Cluster C) → Run codec n a b → Run codec n b c → Run codec n a c
    Run-trans a _ _ p (stop b) = p
    Run-trans a _ _ p (more b x c q m) = more a x c (Run-trans a b x p q) m

    onwards : (i d : ℕ) → Run codec n (moment i) (moment (i + d))
    onwards i zero =
        let e : i ≡ i + 0 = omega arith in
        subst (λ k. Run codec n (moment i) (moment k)) e (stop (moment i))
    onwards i (suc d) =
        let e : suc (i + d) ≡ i + suc d = omega arith in
        subst (λ k. Run codec n (moment i) (moment k)) e
          (Run-trans (moment i) (moment (i + d)) (moment (suc (i + d))) (onwards i d)
            (between (i + d)))

    -- A round of checkOneLeader on a cluster, in which servers run on while it asks one after the
    -- other, does not fail the test and does not fault. Either no connected server led when it was
    -- asked, and there is another round; or the answer is a connected server that led when it was
    -- asked, in a term that no other leader among those asked exceeded.
    pub leader_round_finds :
        (connected : ℕ → Bool)
        → ((leader_round n connected (λ i. (moment i).servers i) ≡ ok (passed none))
            × Nobody connected (λ i. (moment i).servers i) n)
          ⊎ ((i : ℕ) × (leader_round n connected (λ i. (moment i).servers i) ≡ ok (passed (some i)))
              × IsFound connected (λ i. (moment i).servers i) n i)
    leader_round_finds connected = leader_round_alone connected (λ i. (moment i).servers i) n alone
      where
        ordered :
            (i j : ℕ)
            → i ≤ j
            → ((moment i).servers i).state ≡ leader
            → ((moment j).servers j).state ≡ leader
            → ((moment i).servers i).term ≡ ((moment j).servers j).term
            → i ≡ j
        ordered i j le up up' same =
            let e : i + (j - i) ≡ j = omega arith in
            leaders_over_time (moment i) (moment j) i j (moment-IsSound i)
              (subst (λ k. Run codec n (moment i) (moment k)) e (onwards i (j - i))) up up' same

        alone : Alone connected (λ i. (moment i).servers i)
        alone i j up up' same = elim (Bool-cases (leb i j)) [
          | inl le ↦ ordered i j (ground arith) up up' same
          | inr gt ↦ sym (ordered j i (ground arith) up' up (sym same))
        ]
