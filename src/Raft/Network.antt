-- ===== src/Raft/Network.antt =====
-- The servers with the messages between them: Start, Replicate and AppendEntries, and everything of
-- a cluster. A message may be lost, come late or come more than once.
pub mod Chain
pub mod Grown
pub mod Cuts
pub mod Agree
pub mod Effects
pub mod Elected
pub mod Deliver
pub mod Messages
pub mod Invariant
pub mod Matching
pub mod Accepted
pub mod Acknowledged
use distributed_database.Prelude.{
  ℕ, ◌<◌, ◌≡◌, ◌≢◌, Bool, List, [], ◌∷◌, Option, none, some, Go, ok, Has,
}
use distributed_database.Raft.Types.{Raft, LogEntry, AppendEntriesArgs, AppendEntriesReply, Codec}
use distributed_database.Raft.Log.{get_log_at_index}
use distributed_database.Raft.Append.{append_entries}
use distributed_database.Raft.Snapshots.{cond_install_snapshot}
use distributed_database.Raft.Leader.{append, start_append, replicate}
use distributed_database.Raft.Step.{
  Event, asked_vote, sent_entries, election_timer, got_vote, started, cond_installed, step,
}
use distributed_database.Raft.Cluster.{Cluster, Move, timer, ask, hear, other, handled, IsOther}

-- An entry that a leader has made, with the term of the one before.
pub record Birth (C : Type 0) : Type 0 where
  pub term : ℕ
  pub index : ℕ
  pub command : Option C
  pub prev : ℕ

pub record Network (C : Type 0) : Type 0 where
  pub cluster : Cluster C
  -- every AppendEntries that was ever sent, and every entry that was ever made
  pub sent : List (AppendEntriesArgs C)
  pub born : List (Birth C)

module _ {C : Type 0} where
  abbrev pub birth_of : LogEntry C → ℕ → Birth C
  birth_of e prev = record { term = e.term; index = e.index; command = e.command; prev = prev }

  -- The term of the last of some entries behind one of term `p`.
  abbrev pub end_term : ℕ → List (LogEntry C) → ℕ
  end_term p [] = p
  end_term p (e ∷ es) = end_term e.term es

  abbrev pub tail_term : List (LogEntry C) → ℕ
  tail_term [] = 0
  tail_term (e ∷ es) = end_term e.term es

  -- After a call of Start, up to its BroadcastHeartbeat. What has an index is a new entry.
  unfoldable pub begun : ℕ → Option C → Raft C → Option ℕ → Network C → Network C
  begun i command rf index net = record net {
    cluster = handled i rf net.cluster;
    born = elim index [
      | none ↦ net.born
      | some k ↦
          record {
            term = rf.term;
            index = k;
            command = command;
            prev = tail_term (net.cluster.servers i).log;
          }
          ∷ net.born
    ];
  }

  -- The events that put nothing into a log, outside an election.
  abbrev pub IsQuiet : Event C → Type 0
  IsQuiet (sent_entries now args) = ⊥
  IsQuiet (started command) = ⊥
  IsQuiet (cond_installed term index bytes) = ⊥
  IsQuiet e = IsOther e

module _ {C : Type 0} (codec : Codec C) (n : ℕ) where
  abbrev pub IsElection : {a b : Cluster C} → Move codec n a b → Type 0
  IsElection (timer c i now timeout rf sent lt runs) = Unit
  IsElection (ask c j now args rf reply lt apart runs) = Unit
  IsElection (hear c i replied b rf vote won lt cast for_me new runs) = Unit
  IsElection (other c i e rf lt outside runs) = ⊥

  -- One step. A leader sends to the others only. A snapshot that is installed ends in an entry of
  -- the log's term at that index, where the log has one.
  pub data Pass : Network C → Network C → Type 0 where
    elect :
        (net : Network C) (c : Cluster C) (m : Move codec n net.cluster c)
        → IsElection m
        → Pass net (record net { cluster = c })
    begin :
        (net : Network C) (i : ℕ) (command : Option C) (rf : Raft C) (index : Option ℕ)
        → i < n
        → start_append codec command (net.cluster.servers i) ≡ ok (rf, index)
        → Pass net (begun i command rf index net)
    send :
        (net : Network C) (i peer : ℕ) (args : AppendEntriesArgs C)
        → i < n
        → replicate peer (net.cluster.servers i) ≡ ok (append args)
        → Pass net (record net { sent = args ∷ net.sent })
    deliver :
        (net : Network C) (j now : ℕ) (args : AppendEntriesArgs C) (rf : Raft C)
        (reply : AppendEntriesReply)
        → j < n
        → Has args net.sent
        → args.leader_id ≢ j
        → append_entries codec now (net.cluster.servers j) args ≡ ok (rf, reply)
        → Pass net (record net { cluster = handled j rf net.cluster })
    install :
        (net : Network C) (j term index : ℕ) (bytes : List ℕ) (rf : Raft C) (done : Bool)
        → j < n
        → ((e : LogEntry C)
            → get_log_at_index (net.cluster.servers j).log index ≡ ok (some e)
            → e.term ≡ term)
        → cond_install_snapshot codec term index bytes (net.cluster.servers j) ≡ ok (rf, done)
        → Pass net (record net { cluster = handled j rf net.cluster })
    quiet :
        (net : Network C) (i : ℕ) (e : Event C) (rf : Raft C)
        → i < n
        → IsQuiet e
        → step codec (net.cluster.servers i) e ≡ ok rf
        → Pass net (record net { cluster = handled i rf net.cluster })

  -- Any number of steps.
  pub data Passes : Network C → Network C → Type 0 where
    none_yet : (net : Network C) → Passes net net
    and_then : (a b c : Network C) → Passes a b → Pass b c → Passes a c
