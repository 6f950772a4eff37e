-- ===== src/Raft/Leader.antt =====
-- The leader of raft.go: Start, Replicate and what it does with the replies.
pub mod Messages
pub mod Commit
pub mod Sync
pub mod Heartbeats
use distributed_database.Prelude.{
  ℕ, zero, suc, ◌+◌, ◌-◌, Bool, true, false, ◌&&◌, List, [], ◌∷◌, ◌++◌, Option, none, some, Go, ok,
  panic, ◌>>=◌, deref, index, ltb, leb, ◌==◌, if◌then◌else◌, not,
}
use distributed_database.Raft.Types.{
  leader, LogEntry, Raft, AppendEntriesArgs, AppendEntriesReply, InstallSnapshotArgs,
  InstallSnapshotReply, Codec,
}
use distributed_database.Raft.Log.{min, max, log_head, log_tail, get_log_at_index}
use distributed_database.Raft.Node.{
  same_state, is_majority, become_follower, persist, reset_term, read_snapshot,
}
use distributed_database.Raft.Election.{write, need_heartbeat}

-- What Replicate sends to the peer.
pub data Outgoing {ℓ} (C : Type ℓ) : Type ℓ where
  nothing : Outgoing C
  install : InstallSnapshotArgs → Outgoing C
  append : AppendEntriesArgs C → Outgoing C

pub record StartReply : Type 0 where
  -- `none` is the -1 of a server that does not lead.
  pub index : Option ℕ
  pub term : Option ℕ
  pub is_leader : Bool

-- How many of the first `peers` places of `matchIndex` are at least `i`.
unfoldable pub count_matches : ℕ → ℕ → List ℕ → Go ℕ
count_matches i zero xs = ok 0
count_matches i (suc n) [] = panic
count_matches i (suc n) (x ∷ xs) = do
  count ← count_matches i n xs
  ok (if leb i x then count + 1 else count)

-- for i := range rf.peers { if i == rf.me { continue } ... }, from `i` on, with the number of rounds.
unfoldable pub other_peers : ℕ → ℕ → ℕ → List ℕ
other_peers me i zero = []
other_peers me i (suc n) = let rest = other_peers me (i + 1) n in if i == me then rest else i ∷ rest

module _ {ℓ} {C : Type ℓ} where
  -- The peers that BroadcastHeartbeat starts a Replicate for.
  unfoldable pub broadcast_heartbeat : Raft C → List ℕ
  broadcast_heartbeat rf = other_peers rf.me 0 rf.peers

  -- One round of DoHeartbeat after its sleep.
  unfoldable pub heartbeat_round : Raft C → List ℕ
  heartbeat_round rf = if need_heartbeat rf then broadcast_heartbeat rf else []

  -- for j := from; j <= LogTail().Index; j++, with the number of rounds.
  unfoldable pub collect : List (LogEntry C) → ℕ → ℕ → Go (List (LogEntry C))
  unfolding get_log_at_index
  collect log from zero = ok []
  collect log from (suc n) = do
    found ← get_log_at_index log from
    entry ← deref found
    rest ← collect log (from + 1) n
    ok (entry ∷ rest)

  unfoldable pub snapshot_message : Raft C → LogEntry C → InstallSnapshotArgs
  unfolding read_snapshot
  snapshot_message rf first = record {
    term = rf.term;
    leader_id = rf.me;
    last_included_index = first.index;
    last_included_term = first.term;
    snapshot_data = read_snapshot rf.persister;
  }

  unfoldable pub append_message : Raft C → ℕ → Go (AppendEntriesArgs C)
  append_message rf next = do
    tail ← log_tail rf.log
    entries ← collect rf.log next (tail.index + 1 - next)
    found ← get_log_at_index rf.log (next - 1)
    prev ← deref found
    ok (record {
      term = rf.term;
      leader_id = rf.me;
      prev_log_index = prev.index;
      prev_log_term = prev.term;
      entries = entries;
      leader_commit = rf.commit_index;
    })

  -- Replicate, up to the message that it sends.
  unfoldable pub replicate : ℕ → Raft C → Go (Outgoing C)
  unfolding same_state snapshot_message append_message
  replicate peer rf =
      if same_state rf.state leader
      then (do
        next ← index rf.next_index peer
        first ← log_head rf.log
        if leb next first.index
            then ok (install (snapshot_message rf first))
            else (do args ← append_message rf next; ok (append args)))
      else ok nothing

  unfoldable pub need_replicate : ℕ → Raft C → Go Bool
  unfolding same_state
  need_replicate peer rf = do
    next ← index rf.next_index peer
    if same_state rf.state leader && not (peer == rf.me)
        then (do
          found ← get_log_at_index rf.log next
          elim found [
            | none ↦ ok false
            | some e ↦ (do tail ← log_tail rf.log; ok (ltb next tail.index))
          ])
        else ok false

  -- rf.IsMajority(count) && rf.GetLogAtIndex(i).Term == rf.term
  unfoldable pub can_commit : Raft C → ℕ → Go Bool
  can_commit rf i = do
    count ← count_matches i rf.peers rf.match_index
    if is_majority rf count
        then (do found ← get_log_at_index rf.log i; entry ← deref found; ok (entry.term == rf.term))
        else ok false

  -- for i := rf.commitIndex; i <= logTailIndex; i++, with the number of rounds.
  unfoldable pub find_commit : Raft C → ℕ → ℕ → ℕ → Go ℕ
  find_commit rf i zero pre = ok pre
  find_commit rf i (suc n) pre = do
    good ← can_commit rf i
    find_commit rf (i + 1) n (if good then i else pre)

  -- The last entry of a term behind the head: the loop from len(rf.log) - 1 down to 1.
  unfoldable pub last_of_term : ℕ → List (LogEntry C) → Option (LogEntry C)
  last_of_term t [] = none
  last_of_term t (e ∷ es) = elim (last_of_term t es) [
    | some found ↦ some found
    | none ↦ if e.term == t then some e else none
  ]

  abbrev pub behind_head : List (LogEntry C) → List (LogEntry C)
  behind_head [] = []
  behind_head (e ∷ es) = es

  -- The lines that move the commit index up to the last index of the message, at most.
  unfoldable pub advance_commit : ℕ → Raft C → Go (Raft C)
  advance_commit last rf = do
    commit ← find_commit rf rf.commit_index (last + 1 - rf.commit_index) rf.commit_index
    ok (record rf { commit_index = commit })

  unfoldable pub acknowledge : ℕ → AppendEntriesArgs C → Raft C → Go (Raft C)
  acknowledge peer args rf = do
    last ← log_tail args.entries
    match_index ← write rf.match_index peer last.index
    next_index ← write rf.next_index peer (last.index + 1)
    advance_commit last.index (record rf { match_index = match_index; next_index = next_index })

  -- Where to go on from after a refusal.
  unfoldable pub retry_index : ℕ → AppendEntriesReply → List (LogEntry C) → ℕ
  unfolding last_of_term
  retry_index next reply log =
      let fallback = max (min next reply.conflicting_index) 1 in
      if ltb 0 reply.conflicting_term
      then elim (last_of_term reply.conflicting_term (behind_head log)) [
        | some e ↦ min next (e.index + 1)
        | none ↦ fallback
      ]
      else fallback

  unfoldable pub back_off : ℕ → AppendEntriesReply → Raft C → Go (Raft C)
  unfolding retry_index
  back_off peer reply rf = do
    next ← index rf.next_index peer
    match_index ← write rf.match_index peer 0
    next_index ← write rf.next_index peer (retry_index next reply rf.log)
    ok (record rf { match_index = match_index; next_index = next_index })

module _ {ℓ} {C : Type ℓ} (codec : Codec C) where
  -- Sync, once the reply is there.
  unfoldable pub sync : ℕ → AppendEntriesArgs C → AppendEntriesReply → Raft C → Go (Raft C)
  unfolding become_follower reset_term acknowledge back_off
  sync peer args reply rf =
      if not (rf.term == args.term)
      then ok rf
      else if ltb rf.term reply.term
      then ok (reset_term codec reply.term (become_follower rf))
      else if reply.success
      then elim args.entries [ [] ↦ ok rf | e ∷ es ↦ acknowledge peer args rf ]
      else if ltb reply.term rf.term
      then ok rf
      else back_off peer reply rf

  -- Replicate, once the reply to an InstallSnapshot is there.
  unfoldable pub snapshot_installed :
      ℕ → InstallSnapshotArgs → InstallSnapshotReply → Raft C → Go (Raft C)
  unfolding become_follower reset_term
  snapshot_installed peer args reply rf =
      if not (rf.term == args.term)
      then ok rf
      else if ltb rf.term reply.term
      then ok (reset_term codec reply.term (become_follower rf))
      else (do
        next_index ← write rf.next_index peer (args.last_included_index + 1)
        ok (record rf { next_index = next_index }))

  -- Start up to the place where BroadcastHeartbeat lets go of the lock, with the index of the entry
  -- that it has made; `none` is the -1 of a server that does not lead.
  unfoldable pub start_append : Option C → Raft C → Go (Raft C × Option ℕ)
  unfolding same_state log_tail persist
  start_append command rf =
      if same_state rf.state leader
      then (do
        tail ← log_tail rf.log
        let entry = new_entry (tail.index + 1)
        let appended = persist codec (record rf { log = rf.log ++ entry ∷ [] })
        mine ← index appended.match_index rf.me
        match_index ← write appended.match_index rf.me (mine + 1)
        ok (record appended { match_index = match_index }, some entry.index))
      else ok (rf, none)
    where
      new_entry : ℕ → LogEntry C
      new_entry i = record { term = rf.term; index = i; command = command }

  -- The whole of Start. `gap` is what the other goroutines make of the server until
  -- BroadcastHeartbeat has the lock again; its term and state are read after that.
  unfoldable pub start : Option C → (Raft C → Raft C) → Raft C → Go (Raft C × StartReply)
  unfolding same_state
  start command gap rf = do
    (appended, index) ← start_append command rf
    elim index [
      | none ↦ ok (appended, record { index = none; term = none; is_leader = false })
      | some i ↦
          let resumed = gap appended in
          ok (
            resumed,
            record {
              index = some i;
              term = some resumed.term;
              is_leader = same_state resumed.state leader;
            },
          )
    ]
