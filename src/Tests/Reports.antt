-- ===== src/Tests/Reports.antt =====
-- The harness' applier on a server that has two commands to apply.
use distributed_database.Prelude.{
  ℕ, zero, suc, ◌≡◌, refl, inl, List, [], ◌∷◌, Option, none, some, ok, arith, ◌+◌, ◌↔◌, lookup,
  nat_eq, Eq, Bool, true, false, ◌==◌, ==_iff,
}
use distributed_database.Raft.Types.{Raft}
use distributed_database.Raft.Replica.{IsReplica}
use distributed_database.Harness.{passed}
use distributed_database.Harness.Applier.{Reports, applied_rounds}
use distributed_database.Harness.Applier.Agreed.{Agreed}
use distributed_database.Harness.Applier.Rounds.{IsReported, applied_rounds_pass}
use distributed_database.Tests.Examples.{blank, entry}

abbrev pub option_beq : Option ℕ → Option ℕ → Bool
option_beq none none = true
option_beq (some a) (some b) = a == b
option_beq _ _ = false

pub option_beq_iff : (a b : Option ℕ) → (option_beq a b ≡ true) ↔ (a ≡ b)
option_beq_iff none none = (λ h. refl, λ h. refl)
option_beq_iff none (some b) = (λ h. cc, λ h. cc)
option_beq_iff (some a) none = (λ h. cc, λ h. cc)
option_beq_iff (some a) (some b) =
    (λ h. ground (arith, ==_iff a b), λ h. ground (arith, ==_iff a b))

instance abbrev pub option_eq : Eq (Option ℕ)
option_eq = record { beq = option_beq; beq_iff = option_beq_iff }

abbrev two_committed : Raft ℕ
two_committed = record blank {
  log = record { term = 0; index = 0; command = none } ∷ entry 1 1 7 ∷ entry 1 2 8 ∷ [];
  commit_index = 2;
}

two_committed-IsReplica : IsReplica 0 two_committed
two_committed-IsReplica = record {
  is_log = record { nonempty = omega arith; counts = (refl, (refl, (refl, tt))) };
  base_applied = omega arith;
  applied_committed = omega arith;
  committed = omega arith;
}

-- Two servers, of which neither has reported anything.
abbrev unreported : Reports ℕ
unreported = record { logs = [] ∷ [] ∷ []; max_index = 0 }

no_report :
    (k : ℕ) (known : List (ℕ × Option ℕ)) (old : Option ℕ)
    → some [] ≡ some known
    → lookup k known ≡ some old
    → ⊥
unfolding lookup
no_report k [] old at has = cc
no_report k (r ∷ rs) old at has = ground arith

unreported-Agreed : Agreed 0 two_committed.log unreported.logs
unreported-Agreed zero k known old x behind at has here = absurd (no_report k known old at has)
unreported-Agreed (suc zero) k known old x behind at has here =
    absurd (no_report k known old at has)
unreported-Agreed (suc (suc j)) k known old x behind at has here = cc

applied_rounds_pass_example :
    (r : Raft ℕ) × (noted : Reports ℕ) × (applied_rounds 0 2 two_committed unreported
      ≡ ok (passed (r, noted)))
    × (r.last_applied ≡ 0 + 2)
    × IsReplica 0 r
    × IsReported 0 (0 + 2) 0 two_committed.log [] noted.logs
applied_rounds_pass_example =
    applied_rounds_pass 2 0 0 two_committed unreported [] two_committed-IsReplica (omega arith) refl
      (inl refl) unreported-Agreed
