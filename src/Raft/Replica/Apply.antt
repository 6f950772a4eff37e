-- ===== src/Raft/Replica/Apply.antt =====
-- The other operations on the log, and the invariant.
use distributed_database.Prelude.{
  ℕ, ◌+◌, ◌-◌, ◌<◌, ◌≡◌, ap, ◌∙◌, [], ◌∷◌, some, true, false, ok, get_elem?-lt, arith, lt→ltb,
}
use distributed_database.Raft.Types.{LogEntry, Raft}
use distributed_database.Raft.Log.{get_log_at_index}
use distributed_database.Raft.Log.Contiguous.{get_log_at_index-from, index-get_elem?}
use distributed_database.Raft.Boot.{apply_round}
use distributed_database.Raft.Replica.{IsReplica}

module _ {ℓ} {C : Type ℓ} where
  -- The apply loop never meets a missing entry: while something is committed and not applied, a
  -- round takes the next index, hands on the command of the log's entry there, under that index,
  -- and keeps the invariant.
  pub apply_round-next :
      (n : ℕ) (rf : Raft C)
      → IsReplica n rf
      → rf.last_applied < rf.commit_index
      → (e : LogEntry C) × (get_log_at_index rf.log (rf.last_applied + 1) ≡ ok (some e))
        × (apply_round rf
            ≡ ok (
              record rf { last_applied = rf.last_applied + 1 },
              record {
                command_valid = true;
                command = e.command;
                command_index = rf.last_applied + 1;
                snapshot_valid = false;
                snapshot = [];
                snapshot_term = 0;
                snapshot_index = 0;
              }
                  ∷ [],
            ))
        × IsReplica n (record rf { last_applied = rf.last_applied + 1 })
  unfolding apply_round
  apply_round-next n rf v behind =
      let i = rf.last_applied + 1 in
      let (e, at) = get_elem?-lt rf.log (i - n) (omega (arith, v.base_applied, v.committed)) in
      let here : get_log_at_index rf.log i ≡ ok (some e) =
        get_log_at_index-from n i rf.log v.is_log (omega (arith, v.base_applied)) ∙ ap ok at in
      let place : e.index ≡ i =
        omega (arith, v.base_applied, index-get_elem? n (i - n) rf.log e v.is_log.counts at) in
      (
        e,
        here,
        rw (lt→ltb rf.last_applied rf.commit_index behind, here) (ground arith),
        record {
          is_log = v.is_log;
          base_applied = omega (arith, v.base_applied);
          applied_committed = omega arith;
          committed = v.committed;
        },
      )
