-- ===== src/Harness/Applier.antt =====
-- The appliers of raft/config.go: what the harness notes of the commands that the servers apply, and
-- when it stops the tests. A command is compared with Go's `!=`.
pub mod Agreed
pub mod Rounds
use distributed_database.Prelude.{
  ℕ, zero, suc, ◌+◌, ◌%◌, Bool, true, false, ◌&&◌, ◌||◌, List, [], ◌∷◌, Option, none, some, Go, ok,
  ◌>>=◌, index, set, ltb, ◌==◌, if◌then◌else◌, not, lookup, insert, Eq, nat_eq,
}
use distributed_database.Raft.Types.{Raft, ApplyMsg, Codec}
use distributed_database.Raft.Snapshots.{cond_install_snapshot, snapshot}
use distributed_database.Raft.Election.{write}
use distributed_database.Raft.Boot.{apply_round}
use distributed_database.Harness.{Judged, passed, failed}

-- cfg.logs and cfg.maxIndex
pub record Reports {ℓ} (C : Type ℓ) : Type ℓ where
  pub logs : List (List (ℕ × Option C))
  pub max_index : ℕ

module _ {ℓ} {C : Type ℓ} ⦃e : Eq (Option C)⦄ where
  -- The loop over the servers' logs: whether one has another command at the index.
  unfoldable pub differs : ℕ → Option C → List (List (ℕ × Option C)) → Bool
  unfolding lookup
  differs i v [] = false
  differs i v (log ∷ logs) =
      let rest = differs i v logs in
      elim (lookup i log) [ none ↦ rest | some old ↦ not (e.beq old v) || rest ]

  -- cfg.logs[i][m.CommandIndex-1]; nothing is at the index -1.
  unfoldable pub has_previous : ℕ → List (ℕ × Option C) → Bool
  unfolding lookup
  has_previous zero log = false
  has_previous (suc k) log = elim (lookup k log) [ none ↦ false | some old ↦ true ]

  -- checkLogs: the reports, whether there is an error, and `prevok`.
  unfoldable pub check_logs : ℕ → ApplyMsg C → Reports C → Go (Reports C × Bool × Bool)
  unfolding differs has_previous insert
  check_logs i m cfg = do
    let wrong = differs m.command_index m.command cfg.logs
    log ← index cfg.logs i
    ok (
      record {
        logs = set cfg.logs i (insert m.command_index m.command log);
        max_index = if ltb cfg.max_index m.command_index then m.command_index else cfg.max_index;
      },
      wrong,
      has_previous m.command_index log,
    )

  -- checkLogs and the lines below it, which stop the tests on an error.
  unfoldable pub report : ℕ → ApplyMsg C → Reports C → Go (Judged (Reports C))
  unfolding check_logs
  report i m cfg = do
    (noted, wrong, prevok) ← check_logs i m cfg
    if ltb 1 m.command_index && not prevok
        then ok failed
        else if wrong
        then ok failed
        else ok (passed noted)

  -- A message on the channel of server `i`.
  unfoldable pub applier : ℕ → ApplyMsg C → Reports C → Go (Judged (Reports C))
  unfolding report
  applier i m cfg = if m.command_valid then report i m cfg else ok (passed cfg)

  -- The messages that come out of the channel, one after the other.
  unfoldable pub applier_all : ℕ → List (ApplyMsg C) → Reports C → Go (Judged (Reports C))
  unfolding applier
  applier_all i [] cfg = ok (passed cfg)
  applier_all i (m ∷ ms) cfg = do
    done ← applier i m cfg
    elim done [ failed ↦ ok failed | passed noted ↦ applier_all i ms noted ]

  -- Rounds of DoApply, with the applier at the other end of the channel.
  unfoldable pub applied_rounds : ℕ → ℕ → Raft C → Reports C → Go (Judged (Raft C × Reports C))
  unfolding applier_all apply_round
  applied_rounds i zero rf cfg = ok (passed (rf, cfg))
  applied_rounds i (suc n) rf cfg = do
    (next, messages) ← apply_round rf
    done ← applier_all i messages cfg
    elim done [ failed ↦ ok failed | passed noted ↦ applied_rounds i n next noted ]

  -- The loop of nCommitted over the servers' logs, with `count` and `cmd` so far. applyErr, which it
  -- looks at first, is never set: log.Fatalf ends the process before.
  unfoldable pub n_committed : ℕ → List (List (ℕ × Option C)) → ℕ → Option C → Judged (ℕ × Option C)
  unfolding lookup
  n_committed i [] count cmd = passed (count, cmd)
  n_committed i (log ∷ logs) count cmd =
      let skipped = n_committed i logs count cmd in
      elim (lookup i log) [
        | none ↦ skipped
        | some cmd1 ↦
            let counted = n_committed i logs (count + 1) cmd1 in
            if ltb 0 count && not (e.beq cmd cmd1) then failed else counted
      ]

abbrev pub snap_shot_interval : ℕ
snap_shot_interval = 10

module _ {ℓ} {C : Type ℓ} ⦃e : Eq (Option C)⦄ (codec : Codec C) (encode : Option C → List ℕ)
    (decode : List ℕ → Option (Option C)) where
  -- The end of applierSnap's branch for a command: every tenth is followed by a snapshot.
  unfoldable pub snap_after : ApplyMsg C → Raft C → Reports C → Go (Judged (Raft C × Reports C × ℕ))
  unfolding snapshot
  snap_after m rf cfg =
      if (m.command_index + 1) % snap_shot_interval == 0
      then (do
        compacted ← snapshot codec m.command_index (encode m.command) rf
        ok (passed (compacted, cfg, m.command_index)))
      else ok (passed (rf, cfg, m.command_index))

  -- applierSnap on one message, with lastApplied.
  unfoldable pub applier_snap :
      ℕ → ApplyMsg C → Raft C → Reports C → ℕ → Go (Judged (Raft C × Reports C × ℕ))
  unfolding cond_install_snapshot report snap_after insert
  applier_snap i m rf cfg last_applied =
      if m.snapshot_valid
      then (do
        (installed, done) ←
            cond_install_snapshot codec m.snapshot_term m.snapshot_index m.snapshot rf
        if not done then ok (passed (installed, cfg, last_applied)) else elim (decode m.snapshot) [
          | none ↦ ok failed
          | some v ↦ (do
            logs ← write cfg.logs i ((m.snapshot_index, v) ∷ [])
            ok (passed (installed, record cfg { logs = logs }, m.snapshot_index)))
        ])
      else if m.command_valid && ltb last_applied m.command_index
      then (do
        done ← report i m cfg
        elim done [ failed ↦ ok failed | passed noted ↦ snap_after m rf noted ])
      else ok (passed (rf, cfg, last_applied))
