-- ===== src/Harness/Applier/Rounds.antt =====
-- The apply loop of a server and the applier at the other end of its channel.
use distributed_database.Prelude.{
  ℕ, zero, suc, ◌+◌, ◌≤◌, ◌<◌, ◌≡◌, refl, ap, sym, subst, ◌∙◌, ◌⊎◌, inl, inr, true, false, List, [],
  get_elem?-set_self, lt_of_get_elem?, Option, some, ok, get_elem?, arith, ltb, ltb→lt, ltb→ge,
  Bool-cases, lookup, insert, Eq, nat_eq,
}
use distributed_database.Raft.Types.{Raft, LogEntry, ApplyMsg}
use distributed_database.Raft.Log.{get_log_at_index}
use distributed_database.Raft.Replica.{IsReplica}
use distributed_database.Raft.Replica.Apply.{apply_round-next}
use distributed_database.Harness.{passed}
use distributed_database.Harness.Applier.{Reports, applier_all, applied_rounds}
use distributed_database.Harness.Applier.Agreed.{
  Agreed, differs-none, applier-next, lookup-insert_self, lookup-insert_other, Agreed-next,
}

module _ {ℓ} {C : Type ℓ} ⦃e : Eq (Option C)⦄ where
  -- The reports of a server after it has applied the commands of `log` from behind `last` up to `top`.
  pub record IsReported (last top i : ℕ) (log : List (LogEntry C)) (known : List (ℕ × Option C))
      (logs : List (List (ℕ × Option C))) : Type ℓ where
    pub after : List (ℕ × Option C)
    pub at : get_elem? logs i ≡ some after
    pub old : (j : ℕ) → j ≤ last → lookup j after ≡ lookup j known
    pub new :
        (j : ℕ) (x : LogEntry C)
        → last < j
        → j ≤ top
        → get_log_at_index log j ≡ ok (some x)
        → lookup j after ≡ some x.command

  IsReported-next :
      (last k i : ℕ) (log : List (LogEntry C)) (known : List (ℕ × Option C))
      (logs : List (List (ℕ × Option C))) (x : LogEntry C)
      → get_log_at_index log (last + 1) ≡ ok (some x)
      → IsReported (last + 1) (last + 1 + k) i log (insert (last + 1) x.command known) logs
      → IsReported last (last + suc k) i log known logs
  IsReported-next last k i log known logs x here r = record {
    after = r.after;
    at = r.at;
    old = λ j le.
        r.old j (omega arith)
        ∙ lookup-insert_other (last + 1) j x.command known (λ q. omega (arith, q));
    new = λ j y gt le there. elim (Bool-cases (ltb (last + 1) j)) [
      | inl later ↦ r.new j y (ltb→lt (last + 1) j later) (omega arith) there
      | inr now ↦
          let first : last + 1 ≡ j = omega (arith, ltb→ge (last + 1) j now) in
          let found = subst (λ q. get_log_at_index log q ≡ ok (some x)) first here in
          let whole : x ≡ y = cc in
          subst (λ q. lookup q r.after ≡ some y.command) first
            (r.old (last + 1) (omega arith)
              ∙ lookup-insert_self (last + 1) x.command known
              ∙ ap (λ (z : LogEntry C). some z.command) whole)
    ];
  }

  abbrev pub applied_message : Option C → ℕ → ApplyMsg C
  applied_message c k = record {
    command_valid = true;
    command = c;
    command_index = k;
    snapshot_valid = false;
    snapshot = [];
    snapshot_term = 0;
    snapshot_index = 0;
  }

  -- On a server with the invariant the rounds of its apply loop, as many as there are committed
  -- entries to apply at most, come out of the harness' applier without an error or a fault, if the
  -- server has reported the last command that it has applied, and no server has reported, at an index
  -- behind that, another command than this one's log has there: all are applied, the invariant
  -- holds, and its reports have the log's commands at the new indices, and what they had before them.
  pub applied_rounds_pass :
      (k n i : ℕ) (rf : Raft C) (cfg : Reports C) (known : List (ℕ × Option C))
      → IsReplica n rf
      → rf.last_applied + k ≤ rf.commit_index
      → get_elem? cfg.logs i ≡ some known
      → (rf.last_applied ≡ 0) ⊎ ((v : Option C) × (lookup rf.last_applied known ≡ some v))
      → Agreed rf.last_applied rf.log cfg.logs
      → (r : Raft C) × (noted : Reports C) × (applied_rounds i k rf cfg ≡ ok (passed (r, noted)))
        × (r.last_applied ≡ rf.last_applied + k)
        × IsReplica n r
        × IsReported rf.last_applied (rf.last_applied + k) i rf.log known noted.logs
  unfolding applied_rounds applier_all
  applied_rounds_pass zero n i rf cfg known v room at before agreed = (
    rf,
    cfg,
    refl,
    omega arith,
    v,
    record { after = known; at = at; old = λ j le. refl; new = λ j x gt le. absurd (omega arith) },
  )
  applied_rounds_pass (suc k) n i rf cfg known v room at before agreed =
      let last = rf.last_applied in
      let (x, here, runs, v') = apply_round-next n rf v (omega arith) in
      let known' = insert (last + 1) x.command known in
      let same =
        differs-none (last + 1) x.command cfg.logs
          (λ j other old there has. agreed j (last + 1) other old x (omega arith) there has here) in
      let (noted, applies, logs) =
        applier-next i last (applied_message x.command (last + 1)) cfg known refl refl at before
          same in
      let at' : get_elem? noted.logs i ≡ some known' =
        ap (λ ls. get_elem? ls i) logs
        ∙ get_elem?-set_self cfg.logs i known' (lt_of_get_elem? cfg.logs i known at) in
      let (r, end, rest, applied, v'', done) =
        applied_rounds_pass k n i (record rf { last_applied = last + 1 }) noted known' v'
          (omega arith) at' (inr (x.command, lookup-insert_self (last + 1) x.command known))
          (subst (Agreed (last + 1) rf.log) (sym logs)
            (Agreed-next i last rf.log cfg.logs known x.command agreed at)) in
      (
        r,
        end,
        rw (runs, applies) rest,
        omega (arith, applied),
        v'',
        IsReported-next last k i rf.log known end.logs x here done,
      )
