-- ===== src/Harness/Agreement/Found.antt =====
-- When `one` of raft/config.go returns.
use distributed_database.Prelude.{
  ℕ, zero, suc, ◌+◌, ◌-◌, ◌%◌, ◌<◌, ◌≡◌, refl, sym, subst, ap, ◌∙◌, inl, inr, Bool, true, List, ◌∷◌,
  Option, none, some, Go, ok, leb, leb→le, Bool-cases, Option-cases, Eq, arith,
}
use native.Mathlib.Nat.{mod-lt, mod-eq_of_lt, mod_self, mod-add-mod}
use distributed_database.Raft.Types.{Raft, Codec, leader}
use distributed_database.Raft.Node.{same_state}
use distributed_database.Raft.Replica.Start.{start_append-looked_up}
use distributed_database.Raft.Leader.{start_append, start}
use distributed_database.Harness.{passed}
use distributed_database.Harness.Agreement.{Round, try_servers, conclude, one}
use distributed_database.Harness.Agreement.Counted.{IsReported, poll-IsReported}
use distributed_database.Harness.Agreement.Reached.{
  IsFit, HasTaken, start-follower, try_servers-tries, same_state-leader,
}

module _ {C : Type 0} (codec : Codec C) where
  somebody :
      (out : Go (ℕ × Option (Raft C × Option ℕ))) (s t : ℕ) (x : Raft C × Option ℕ)
      → out ≡ ok (s, some x)
      → out ≡ ok (t, none)
      → ⊥
  somebody out s t x h h' = cc

  -- Where the loop ends without a leader, it came by no server that leads from its question to its
  -- answer.
  try_servers-none :
      (cmd : Option C) (n : ℕ) (r : Round C) (rf : Raft C) (t m starts k : ℕ)
      → ((s : ℕ) (f : Raft C) → r.seen s ≡ some f → IsFit codec f)
      → try_servers codec cmd n r m starts ≡ ok (t, none)
      → k < m
      → r.connected ((starts + 1 + k) % n) ≡ true
      → r.seen ((starts + 1 + k) % n) ≡ some rf
      → rf.state ≡ leader
      → ((next : Raft C) (index : ℕ)
          → start_append codec cmd rf ≡ ok (next, some index)
          → (r.gap ((starts + 1 + k) % n) next).state ≡ leader)
      → ⊥
  unfolding try_servers start same_state
  try_servers-none cmd n r rf t zero starts k fit ends within up seen leads still =
      omega (arith, within)
  try_servers-none cmd n r rf t (suc m) starts zero fit ends within up seen leads still =
      let at : starts + 1 + 0 ≡ starts + 1 = omega arith in
      let s : ℕ = (starts + 1) % n in
      let up' : r.connected s ≡ true = rw at at up in
      let seen' : r.seen s ≡ some rf = rw at at seen in
      let f = fit s rf seen' in
      let (next, index, starts_lem, _, _, _, _) =
        start_append-looked_up codec f.base 0 cmd rf f.replica
          (omega (arith, f.replica.is_log.nonempty)) leads f.mine in
      let keeps : (r.gap s next).state ≡ leader =
        subst (λ x. (r.gap (x % n) next).state ≡ leader) at (still next index starts_lem) in
      let flag : same_state (r.gap s next).state leader ≡ true = rw keeps refl in
      somebody _ s t (r.gap s next, some index) refl (rw (up', seen', starts_lem, flag) at ends)
  try_servers-none cmd n r rf t (suc m) starts (suc k) fit ends within up seen leads still =
      let s : ℕ = (starts + 1) % n in
      let at : (starts + 1 + suc k) % n ≡ (s + 1 + k) % n =
        ap (λ x. x % n) (omega arith)
        ∙ sym (mod-add-mod (starts + 1) n (1 + k))
        ∙ ap (λ x. x % n) (omega arith) in
      let later : try_servers codec cmd n r m s ≡ ok (t, none) → ⊥ = λ rest.
        try_servers-none cmd n r rf t m s k fit rest (omega (arith, within)) (rw at at up)
          (rw at at seen) leads
          (λ next index runs.
            subst (λ x. (r.gap x next).state ≡ leader) at (still next index runs)) in
      elim (Bool-cases (r.connected s)) [
        | inr down ↦ later (rw down at ends)
        | inl on ↦ elim (Option-cases (r.seen s)) [
          | inl crashed ↦ later (rw (on, crashed) at ends)
          | inr (f, here) ↦ elim (Bool-cases (same_state f.state leader)) [
            | inr other ↦ later (rw (on, here, start-follower codec cmd (r.gap s) f other) at ends)
            | inl first ↦
                let l = same_state-leader codec f.state first in
                let g = fit s f here in
                let (next, index, starts_lem, _, _, _, _) =
                  start_append-looked_up codec g.base 0 cmd f g.replica
                    (omega (arith, g.replica.is_log.nonempty)) l g.mine in
                elim (Bool-cases (same_state (r.gap s next).state leader)) [
                  | inr lost ↦ later (rw (on, here, starts_lem, lost) at ends)
                  | inl keeps ↦
                      somebody _ s t (r.gap s next, some index) refl
                        (rw (on, here, starts_lem, keeps) at ends)
                ]
          ]
        ]
      ]

  -- The loop over all servers comes by each.
  passes_by : (n starts i : ℕ) → i < n → (k : ℕ) × (k < n) × ((starts + 1 + k) % n ≡ i)
  passes_by n starts i h =
      let t : ℕ = (starts + 1) % n in
      let small : t < n = mod-lt (starts + 1) (omega (arith, h)) in
      elim (Bool-cases (leb t i)) [
        | inl before ↦ (
          i - t,
          omega (arith, h),
          sym (mod-add-mod (starts + 1) n (i - t))
              ∙ ap (λ x. x % n) (omega (arith, leb→le t i before))
              ∙ mod-eq_of_lt h,
        )
        | inr past ↦
            let gap : i < t = ground (arith, past) in
            (
              i + n - t,
              omega (arith, gap),
              sym (mod-add-mod (starts + 1) n (i + n - t))
                  ∙ ap (λ x. x % n) (omega (arith, gap, small))
                  ∙ sym (mod-add-mod n n i)
                  ∙ ap (λ x. (x + i) % n) (mod_self n)
                  ∙ ap (λ x. x % n) (omega arith)
                  ∙ mod-eq_of_lt h,
            )
      ]

  -- Where a connected server leads from its question to its answer, the loop finds one that takes
  -- the command.
  try_servers-found :
      (cmd : Option C) (n : ℕ) (r : Round C) (i : ℕ) (rf : Raft C) (starts : ℕ)
      → ((s : ℕ) (f : Raft C) → r.seen s ≡ some f → IsFit codec f)
      → i < n
      → r.connected i ≡ true
      → r.seen i ≡ some rf
      → rf.state ≡ leader
      → ((next : Raft C) (index : ℕ)
          → start_append codec cmd rf ≡ ok (next, some index)
          → (r.gap i next).state ≡ leader)
      → (s : ℕ) × (next after : Raft C) × (index : ℕ) × (try_servers codec cmd n r n starts
          ≡ ok (s, some (after, some index)))
        × HasTaken codec cmd index r next
  try_servers-found cmd n r i rf starts fit small up seen leads still =
      let (s, found, ran, holds) = try_servers-tries codec cmd n r n starts fit in
      elim holds [
        | inl nobody ↦
            let (k, within, at) = passes_by n starts i small in
            absurd (
              try_servers-none cmd n r rf s n starts k fit (ran ∙ ap (λ x. ok (s, x)) nobody) within
                (ap r.connected at ∙ up) (ap r.seen at ∙ seen) leads
                (λ next index runs.
                  subst (λ x. (r.gap x next).state ≡ leader) (sym at) (still next index runs)))
        | inr (next, after, index, is, taken) ↦
            (s, next, after, index, ran ∙ ap (λ x. ok (s, x)) is, taken)
      ]

module _ {C : Type 0} ⦃e : Eq (Option C)⦄ (codec : Codec C) where
  -- On servers with the invariant, each with its place in its match indices, `one` returns, and
  -- never faults, if a connected server leads when the first round asks it and still when its Start
  -- answers, and if, at the index where a leader has put the command, the round's looks show no
  -- other command and one of them shows as many servers with the command as are expected, and one at
  -- least. It does so whether it may retry or not, and with an index where a leader has put the
  -- command.
  pub one-returns :
      (cmd : Option C) (expected_servers : ℕ) (retry : Bool) (n starts i : ℕ) (rf : Raft C)
      (r : Round C) (rounds : List (Round C))
      → ((s : ℕ) (f : Raft C) → r.seen s ≡ some f → IsFit codec f)
      → i < n
      → r.connected i ≡ true
      → r.seen i ≡ some rf
      → rf.state ≡ leader
      → ((next : Raft C) (index : ℕ)
          → start_append codec cmd rf ≡ ok (next, some index)
          → (r.gap i next).state ≡ leader)
      → ((index : ℕ) (next : Raft C)
          → HasTaken codec cmd index r next
          → IsReported cmd expected_servers index r.polls)
      → (index : ℕ) × (next : Raft C) × (one codec cmd expected_servers retry n starts (r ∷ rounds)
          ≡ ok (passed index))
        × HasTaken codec cmd index r next
  unfolding one conclude
  one-returns cmd expected_servers retry n starts i rf r rounds fit small up seen leads still
        reported =
      let (s, next, after, index, ran, taken) =
        try_servers-found codec cmd n r i rf starts fit small up seen leads still in
      let agrees = poll-IsReported cmd expected_servers index r.polls (reported index next taken) in
      (index, next, rw (ran, agrees) refl, taken)
