-- ===== src/Raft/Network/Messages.antt =====
-- What Replicate sends: entries that were made behind the message's previous one.
use distributed_database.Prelude.{
  ℕ, suc, ◌+◌, ◌-◌, ◌≤◌, ◌<◌, ◌≡◌, refl, ap, subst, ◌∙◌, inl, inr, List, Option, none, some, ok,
  deref, index, length, get_elem?, lt_of_get_elem?, drop, arith, leb, Bool-cases, >>=-eq-ok,
}
use distributed_database.Raft.Types.{Raft, leader, LogEntry, AppendEntriesArgs}
use distributed_database.Raft.Node.{same_state}
use distributed_database.Raft.Log.{log_tail, get_log_at_index}
use distributed_database.Raft.Log.Contiguous.{
  Contiguous, Contiguous-drop, get_log_at_index-from, log_head-index, index-get_elem?,
}
use distributed_database.Raft.Leader.{append, collect, append_message, replicate}
use distributed_database.Raft.Leader.Messages.{append_message-lem}
use distributed_database.Raft.Network.{Birth}
use distributed_database.Raft.Network.Chain.{Chain, Chain-behind}
use distributed_database.Raft.Network.Grown.{head_term, head_term-get, IsGrown}
use distributed_database.Raft.Network.Deliver.{IsMade}

module _ {C : Type 0} where
  -- The previous entry of a message that is sent is in the log.
  prev_of :
      (rf : Raft C) (next : ℕ) (args : AppendEntriesArgs C)
      → append_message rf next ≡ ok args
      → (prev : LogEntry C) × (get_log_at_index rf.log (next - 1) ≡ ok (some prev))
  unfolding append_message
  prev_of rf next args h =
      let (tail, _, h') = >>=-eq-ok (log_tail rf.log) _ h in
      let (entries, _, h'') = >>=-eq-ok (collect rf.log next (tail.index + 1 - next)) _ h' in
      let (found, at, h''') = >>=-eq-ok (get_log_at_index rf.log (next - 1)) _ h'' in
      there found at (>>=-eq-ok (deref found) _ h''').0 (>>=-eq-ok (deref found) _ h''').1
    where
      there :
          (found : Option (LogEntry C))
          → get_log_at_index rf.log (next - 1) ≡ ok found
          → (prev : LogEntry C) → deref found ≡ ok prev
          → (prev : LogEntry C) × (get_log_at_index rf.log (next - 1) ≡ ok (some prev))
      there none at prev h = cc
      there (some e) at prev h = (e, at)

  -- The message's entries are the end of a log with base `n`, which has the previous one.
  pub record IsEnd (n : ℕ) (log : List (LogEntry C)) (args : AppendEntriesArgs C) : Type 0 where
    pub from : n ≤ args.prev_log_index
    pub last : args.entries ≡ drop (suc args.prev_log_index - n) log

  append_message-IsMade :
      (born : List (Birth C)) (rf : Raft C) (next : ℕ) (args : AppendEntriesArgs C)
      → (g : IsGrown born rf.log) → g.base < next
      → append_message rf next ≡ ok args
      → IsMade born args
        × (args.leader_id ≡ rf.me)
        × (args.term ≡ rf.term)
        × IsEnd g.base rf.log args
  append_message-IsMade born rf next args g above h =
      let n = g.base in
      let (prev, found) = prev_of rf next args h in
      let k = next - 1 - n in
      let here : get_elem? rf.log k ≡ some prev =
        cc (get_log_at_index-from n (next - 1) rf.log g.is_log (omega arith)) in
      let close : next ≤ n + length rf.log = omega (arith, lt_of_get_elem? rf.log k prev here) in
      let place : prev.index ≡ next - 1 =
        omega (arith, index-get_elem? n k rf.log prev g.is_log.counts here) in
      let message : AppendEntriesArgs C = record {
        term = rf.term;
        leader_id = rf.me;
        prev_log_index = next - 1;
        prev_log_term = prev.term;
        entries = drop (next - n) rf.log;
        leader_commit = rf.commit_index;
      } in
      let same : message ≡ args =
        cc (append_message-lem n next rf prev g.is_log above close found place) in
      let from : n + (next - n) ≡ suc (next - 1) = omega arith in
      let behind : suc k ≡ next - n = omega arith in
      let last_of : next - n ≡ suc (next - 1) - n = omega arith in
      subst
        (λ (a : AppendEntriesArgs C).
          IsMade born a × (a.leader_id ≡ rf.me) × (a.term ≡ rf.term) × IsEnd g.base rf.log a)
        same
        (
          record {
            counts =
                subst (λ j. Contiguous j (drop (next - n) rf.log)) from
                  (Contiguous-drop (next - n) n rf.log g.is_log.counts);
            chain =
                subst (λ j. Chain born prev.term (drop j rf.log)) behind
                  (Chain-behind k born rf.log prev g.linked here);
            blank = λ nothing.
                (let first : k ≡ 0 = omega arith in
                  let head : head_term rf.log ≡ prev.term =
                    head_term-get rf.log prev
                      (subst (λ j. get_elem? rf.log j ≡ some prev) first here) in
                  omega (arith, head, g.blank (omega arith)));
          },
          refl,
          refl,
          record { from = omega arith; last = ap (λ j. drop j rf.log) last_of },
        )

  pub replicate-IsMade :
      (born : List (Birth C)) (peer : ℕ) (rf : Raft C) (args : AppendEntriesArgs C)
      → (g : IsGrown born rf.log) → replicate peer rf ≡ ok (append args)
      → (rf.state ≡ leader)
        × IsMade born args
        × (args.leader_id ≡ rf.me)
        × (args.term ≡ rf.term)
        × IsEnd g.base rf.log args
  unfolding replicate same_state
  replicate-IsMade born peer rf args g h = elim (Bool-cases (same_state rf.state leader)) [
    | inr idle ↦ cc (rw idle at h)
    | inl leads ↦
        let (next, _, h') = >>=-eq-ok (index rf.next_index peer) _ (rw leads at h) in
        let (first, is_first, base) = log_head-index g.base rf.log g.is_log in
        elim (Bool-cases (leb next first.index)) [
          | inl low ↦ cc (rw (is_first, low) at h')
          | inr room ↦
              let (sent, runs, done) =
                >>=-eq-ok (append_message rf next) _ (rw (is_first, room) at h') in
              let same : sent ≡ args = ground arith in
              let (made, who, when, end) =
                append_message-IsMade born rf next args g (ground arith) (runs ∙ ap ok same) in
              (ground arith, made, who, when, end)
        ]
  ]
