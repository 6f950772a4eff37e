-- ===== src/Raft/Append.antt =====
-- The AppendEntries handler of raft.go.
pub mod Graft
pub mod Merge
pub mod Merged
pub mod Handler
pub mod Agreement
use distributed_database.Prelude.{
  ℕ, suc, true, false, List, [], ◌∷◌, ◌++◌, Option, none, some, Go, ok, panic, ◌>>=◌, drop, ltb,
  leb, ◌==◌, if◌then◌else◌, not,
}
use distributed_database.Raft.Types.{LogEntry, Raft, AppendEntriesArgs, AppendEntriesReply, Codec}
use distributed_database.Raft.Log.{
  min, log_head, log_tail, log_index_to_subscript, get_log_at_index, slice_to,
}
use distributed_database.Raft.Node.{persist, adopt_term}

abbrev pub refusal : ℕ → ℕ → ℕ → AppendEntriesReply
refusal replied term index = record {
  term = replied;
  success = false;
  conflicting_term = term;
  conflicting_index = index;
}

module _ {ℓ} {C : Type ℓ} where
  -- The index of the first entry of a term: the loop that looks for the conflict.
  unfoldable pub first_index_of_term : ℕ → List (LogEntry C) → ℕ
  first_index_of_term t [] = 0
  first_index_of_term t (e ∷ es) = if e.term == t then e.index else first_index_of_term t es

  -- The reply to a message whose previous entry is not here.
  unfoldable pub conflict :
      List (LogEntry C)
      → AppendEntriesArgs C
      → ℕ
      → Option (LogEntry C)
      → Go (Option AppendEntriesReply)
  unfolding first_index_of_term log_tail
  conflict log args replied none = do tail ← log_tail log; ok (some (refusal replied 0 tail.index))
  conflict log args replied (some prev) =
      if prev.term == args.prev_log_term
      then ok none
      else ok (some (refusal replied prev.term (first_index_of_term prev.term log)))

  -- The log consistency check: `ok none` if it passes.
  unfoldable pub check_prev :
      List (LogEntry C) → AppendEntriesArgs C → ℕ → Go (Option AppendEntriesReply)
  check_prev log args replied =
      if ltb 0 args.prev_log_index
      then (do
        first ← log_head log
        if leb first.index args.prev_log_index
            then get_log_at_index log args.prev_log_index >>= conflict log args replied
            else ok none)
      else ok none

  -- The loop over the entries that looks for the place to append at: the log that is left, and
  -- `appendLeft`. An entry with no local counterpart leaves `appendLeft` as it is.
  unfoldable pub find_append_left :
      List (LogEntry C) → List (LogEntry C) → ℕ → ℕ → Go (List (LogEntry C) × ℕ)
  unfolding get_log_at_index log_index_to_subscript slice_to
  find_append_left log [] i append_left = ok (log, append_left)
  find_append_left log (e ∷ es) i append_left = do
    found ← get_log_at_index log e.index
    elim found [
      | none ↦ find_append_left log es (suc i) append_left
      | some local ↦ if not (local.index == e.index) then panic else elim (local.term == e.term) [
        | true ↦ find_append_left log es (suc i) (suc i)
        | false ↦ (do
          k ← log_index_to_subscript log e.index
          shorter ← slice_to log k
          ok (shorter, i))
      ]
    ]

  -- The merge of a message's entries into the log.
  unfoldable pub merge : List (LogEntry C) → List (LogEntry C) → Go (List (LogEntry C))
  unfolding find_append_left log_tail
  merge log entries = do
    last ← log_tail entries
    first ← log_head log
    if leb first.index last.index
        then (do
          (kept, append_left) ← find_append_left log entries 0 0
          ok (kept ++ drop append_left entries))
        else ok log

  unfoldable pub follow_commit : ℕ → Raft C → Go (Raft C)
  unfolding log_tail
  follow_commit leader_commit rf =
      if ltb rf.commit_index leader_commit
      then (do
        tail ← log_tail rf.log
        ok (record rf { commit_index = min leader_commit tail.index }))
      else ok rf

module _ {ℓ} {C : Type ℓ} (codec : Codec C) where
  unfoldable pub merge_entries : Raft C → List (LogEntry C) → Go (Raft C)
  unfolding merge persist
  merge_entries rf [] = ok rf
  merge_entries rf (e ∷ es) = do
    log ← merge rf.log (e ∷ es)
    ok (persist codec (record rf { log = log }))

  -- The handler, once the message's term is adopted.
  unfoldable pub accept_entries :
      Raft C
      → AppendEntriesArgs C
      → ℕ
      → Option AppendEntriesReply
      → Go (Raft C × AppendEntriesReply)
  unfolding merge_entries follow_commit
  accept_entries rf args replied (some reply) = ok (rf, reply)
  accept_entries rf args replied none = do
    merged ← merge_entries rf args.entries
    committed ← follow_commit args.leader_commit merged
    ok (
      committed,
      record { term = replied; success = true; conflicting_term = 0; conflicting_index = 0 },
    )

  unfoldable pub append_entries :
      ℕ → Raft C → AppendEntriesArgs C → Go (Raft C × AppendEntriesReply)
  unfolding adopt_term check_prev accept_entries
  append_entries now rf args = if ltb args.term rf.term then ok (rf, refusal rf.term 0 0) else (do
    let heard = adopt_term codec args.term (record rf { last_heartbeat = now })
    refused ← check_prev heard.log args rf.term
    accept_entries heard args rf.term refused)
