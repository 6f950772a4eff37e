-- ===== src/Raft/Log.antt =====
-- The log of raft.go. `rf.log[0]` stands for all that a snapshot covers, and its index is the base
-- of the others. A negative subscript faults wherever the source would use it.
pub mod Contiguous
use distributed_database.Prelude.{
  ℕ, suc, ◌-◌, ◌≤◌, List, [], ◌∷◌, Option, none, some, Go, ok, panic, ◌>>=◌, index, length,
  get_elem?, take, drop, ltb, leb, ◌==◌, if◌then◌else◌,
}
use distributed_database.Raft.Types.{LogEntry}

-- Min and Max
abbrev pub min : ℕ → ℕ → ℕ
min a b = if ltb b a then b else a

abbrev pub max : ℕ → ℕ → ℕ
max a b = if ltb b a then a else b

module _ {ℓ} {C : Type ℓ} where
  -- rf.log[0]
  abbrev pub log_head : List (LogEntry C) → Go (LogEntry C)
  log_head log = index log 0

  unfoldable pub log_tail : List (LogEntry C) → Go (LogEntry C)
  log_tail [] = panic
  log_tail (x ∷ xs) = index (x ∷ xs) (length xs)

  unfoldable pub log_index_to_subscript : List (LogEntry C) → ℕ → Go ℕ
  log_index_to_subscript log i = do
    first ← log_head log
    if ltb i first.index then panic else ok (i - first.index)

  -- `ok none` is a nil result.
  unfoldable pub get_log_at_index : List (LogEntry C) → ℕ → Go (Option (LogEntry C))
  get_log_at_index log i = do
    first ← log_head log
    if ltb i first.index then ok none else ok (get_elem? log (i - first.index))

  -- log[k:] and log[:k]
  unfoldable pub slice_from : List (LogEntry C) → ℕ → Go (List (LogEntry C))
  slice_from log k = if leb k (length log) then ok (drop k log) else panic

  unfoldable pub slice_to : List (LogEntry C) → ℕ → Go (List (LogEntry C))
  slice_to log k = if leb k (length log) then ok (take k log) else panic
