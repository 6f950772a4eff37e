-- ===== src/Tests/Leads/Agreed.antt =====
-- A whole agreement on a leader's command.
use distributed_database.Prelude.{
  ℕ, zero, suc, ◌≡◌, ◌⊎◌, inl, inr, refl, ap, ◌∙◌, true, false, [], ◌∷◌, Option, none, some, ok,
  arith, subst, sym, List, Has, lookup, nat_eq,
}
use distributed_database.Raft.Types.{Raft, leader, follower}
use distributed_database.Raft.Leader.{start, start_append}
use distributed_database.Raft.Log.{log_tail}
use distributed_database.Harness.{Judged, passed, failed}
use distributed_database.Harness.Applier.{n_committed}
use distributed_database.Harness.Agreement.{Round, one, conclude, poll, try_servers}
use distributed_database.Harness.Agreement.Counted.{IsReported, holders}
use distributed_database.Harness.Agreement.Reached.{IsFit, HasTaken, IsReached, one-IsReached}
use distributed_database.Harness.Agreement.Found.{one-returns}
use distributed_database.Tests.Examples.{numbers}
use distributed_database.Tests.Reports.{option_eq}
use distributed_database.Tests.Leads.{leading, leading-IsReplica}

-- Server 0 leads and the others have crashed; it hears something while its Start is without the
-- lock. After a while two servers report the command.
abbrev asked_by : ℕ → Option (Raft ℕ)
asked_by zero = some leading
asked_by (suc s) = none

abbrev round : Round ℕ
round = record {
  connected = λ s. true;
  seen = asked_by;
  gap = λ s rf. record rf { last_heartbeat = 5 };
  polls = (([] ∷ [] ∷ [] ∷ []) ∷ (((3, some 9) ∷ []) ∷ ((3, some 9) ∷ []) ∷ [] ∷ []) ∷ []);
}

asked_by-IsFit : (s : ℕ) (rf : Raft ℕ) → asked_by s ≡ some rf → IsFit numbers rf
asked_by-IsFit zero rf h =
    let same : leading ≡ rf = cc in
    subst (IsFit numbers) same
      (record { base = 0; replica = leading-IsReplica; mine = omega arith })
asked_by-IsFit (suc s) rf h = cc

round-IsFit :
    (r : Round ℕ) (s : ℕ) (rf : Raft ℕ) → Has r (round ∷ []) → r.seen s ≡ some rf → IsFit numbers rf
round-IsFit r s rf (inl here) seen =
    asked_by-IsFit s rf (ap (λ (q : Round ℕ). q.seen s) here ∙ seen)
round-IsFit r s rf (inr later) seen = absurd later

one-IsReached_example :
    (out : Judged ℕ) × (one numbers (some 9) 2 false 3 0 (round ∷ []) ≡ ok out)
    × ((out ≡ failed)
        ⊎ ((index : ℕ) × (out ≡ passed index) × IsReached numbers (some 9) 2 index (round ∷ [])))
one-IsReached_example = one-IsReached numbers (some 9) 2 false 3 0 (round ∷ []) round-IsFit

-- It returns the index that the leader gave the command.
one_three : one numbers (some 9) 2 false 3 0 (round ∷ []) ≡ ok (passed 3)
unfolding one conclude poll try_servers start start_append log_tail n_committed lookup
one_three = refl

-- A leader that hears of a later term while its Start is without the lock answers that it does not
-- lead, and `one` gives up, though the command is in its log.
one_lost :
    one numbers
      (some 9)
      2
      false
      3
      0
      (record round { gap = λ s rf. record rf { term = 2; state = follower } } ∷ [])
    ≡ ok failed
unfolding one conclude poll try_servers start start_append log_tail n_committed lookup
one_lost = refl

taken_at_three :
    (index : ℕ) (next : Raft ℕ) → HasTaken numbers (some 9) index round next → 3 ≡ index
unfolding start_append log_tail
taken_at_three index next h = go h.at h.before h.seen h.started
  where
    go :
        (s : ℕ) (before : Raft ℕ)
        → asked_by s ≡ some before
        → start_append numbers (some 9) before ≡ ok (next, some index)
        → 3 ≡ index
    go zero before seen h' =
        let same : before ≡ leading = cc in
        cc (subst (λ (b : Raft ℕ). start_append numbers (some 9) b ≡ ok (next, some index)) same h')
    go (suc s) before seen h' = cc

still_leads :
    (next : Raft ℕ) (index : ℕ)
    → start_append numbers (some 9) leading ≡ ok (next, some index)
    → (round.gap 0 next).state ≡ leader
unfolding start_append log_tail
still_leads next index h = ground (arith, h)

three-IsReported : IsReported (some 9) 2 3 round.polls
unfolding holders lookup
three-IsReported = record {
  agree = λ logs log old has inside at. reported logs log old has inside at;
  look = ((3, some 9) ∷ []) ∷ ((3, some 9) ∷ []) ∷ [] ∷ [];
  looked = inr (inl refl);
  enough = omega arith;
  any = omega arith;
}
  where
    one_log :
        (log : List (ℕ × Option ℕ)) (old : Option ℕ)
        → ([] ≡ log) ⊎ (((3, some 9) ∷ []) ≡ log)
        → lookup 3 log ≡ some old
        → old ≡ some 9
    one_log log old (inl is) at = cc (subst (λ l. lookup 3 l ≡ some old) (sym is) at)
    one_log log old (inr is) at = cc (subst (λ l. lookup 3 l ≡ some old) (sym is) at)

    either :
        (log : List (ℕ × Option ℕ))
        → Has log ([] ∷ [] ∷ [] ∷ []) ⊎ Has log (((3, some 9) ∷ []) ∷ ((3, some 9) ∷ []) ∷ [] ∷ [])
        → ([] ≡ log) ⊎ (((3, some 9) ∷ []) ≡ log)
    either log (inl (inl h)) = inl h
    either log (inl (inr (inl h))) = inl h
    either log (inl (inr (inr (inl h)))) = inl h
    either log (inl (inr (inr (inr h)))) = absurd h
    either log (inr (inl h)) = inr h
    either log (inr (inr (inl h))) = inr h
    either log (inr (inr (inr (inl h)))) = inl h
    either log (inr (inr (inr (inr h)))) = absurd h

    reported :
        (logs : List (List (ℕ × Option ℕ))) (log : List (ℕ × Option ℕ)) (old : Option ℕ)
        → Has logs round.polls
        → Has log logs
        → lookup 3 log ≡ some old
        → old ≡ some 9
    reported logs log old (inl is) inside at =
        one_log log old (either log (inl (subst (λ l. Has log l) (sym is) inside))) at
    reported logs log old (inr (inl is)) inside at =
        one_log log old (either log (inr (subst (λ l. Has log l) (sym is) inside))) at
    reported logs log old (inr (inr h)) inside at = absurd h

one-returns_example :
    (index : ℕ) × (next : Raft ℕ) × (one numbers (some 9) 2 false 3 0 (round ∷ [])
      ≡ ok (passed index))
    × HasTaken numbers (some 9) index round next
one-returns_example =
    one-returns numbers (some 9) 2 false 3 0 0 leading round [] asked_by-IsFit (omega arith) refl
      refl refl still_leads
      (λ index next h.
        subst (λ i. IsReported (some 9) 2 i round.polls) (taken_at_three index next h)
          three-IsReported)
