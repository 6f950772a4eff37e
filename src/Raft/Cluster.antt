-- ===== src/Raft/Cluster.antt =====
-- The servers together, as far as elections go: DoElection and its goroutines, RequestVote, and
-- between them everything else that a server does. Messages may be lost, come late or twice, and
-- the others may be anything at all; only a vote that counts must have been given.
pub mod Quorum
pub mod Own
pub mod Other
pub mod Invariant
pub mod Votes
pub mod Standing
pub mod Winning
pub mod Election
use distributed_database.Prelude.{
  ℕ, ◌<◌, ◌≡◌, ◌≢◌, Bool, true, false, List, [], ◌∷◌, Option, none, some, Go, ok, length, ◌==◌,
  if◌then◌else◌, Has,
}
use distributed_database.Raft.Types.{Raft, RequestVoteArgs, RequestVoteReply, Codec}
use distributed_database.Raft.Vote.{request_vote}
use distributed_database.Raft.Election.{election_round, vote_reply}
use distributed_database.Raft.Step.{Event, asked_vote, election_timer, got_vote, step}

-- A vote that a server has given.
pub record Ballot : Type 0 where
  pub voter : ℕ
  pub request : RequestVoteArgs

-- An election that was won, with the servers whose votes made the majority.
pub record Win : Type 0 where
  pub leader : ℕ
  pub term : ℕ
  pub voters : List ℕ

pub record Cluster {ℓ} (C : Type ℓ) : Type ℓ where
  pub servers : ℕ → Raft C
  -- the votes that were ever given, and the elections that were ever won
  pub votes : List Ballot
  pub wins : List Win
  -- whose votes a candidate has counted: `vote` of DoElection is their number
  pub counted : ℕ → List ℕ

abbrev pub put {ℓ} : {A : Type ℓ} → ℕ → A → (ℕ → A) → ℕ → A
put i a f j = if j == i then a else f j

module _ {ℓ} {C : Type ℓ} where
  -- After a round of the timer. A new candidate counts its own vote.
  unfoldable pub timed : ℕ → Raft C → Option RequestVoteArgs → Cluster C → Cluster C
  timed i rf sent c = record c {
    servers = put i rf c.servers;
    counted = elim sent [ none ↦ c.counted | some args ↦ put i (i ∷ []) c.counted ];
  }

  -- After the handling of a request for a vote.
  unfoldable pub asked : ℕ → Raft C → RequestVoteArgs → RequestVoteReply → Cluster C → Cluster C
  asked j rf args reply c = record c {
    servers = put j rf c.servers;
    votes = if reply.vote_granted then record { voter = j; request = args } ∷ c.votes else c.votes;
  }

  -- After a vote has come back; `vote` is the new count, and `won` whether it was the last one needed.
  unfoldable pub heard : ℕ → ℕ → Raft C → ℕ → Bool → Cluster C → Cluster C
  heard i j rf vote won c =
      let voters = j ∷ c.counted i in
      record c {
        servers = put i rf c.servers;
        counted = if vote == length (c.counted i) then c.counted else put i voters c.counted;
        wins =
            if won then record { leader = i; term = rf.term; voters = voters } ∷ c.wins else c.wins;
      }

  unfoldable pub handled : ℕ → Raft C → Cluster C → Cluster C
  handled i rf c = record c { servers = put i rf c.servers }

  -- The events that are no part of an election; a reply without a vote is one.
  abbrev pub IsOther : Event C → Type 0
  IsOther (asked_vote now args) = ⊥
  IsOther (election_timer now timeout) = ⊥
  IsOther (got_vote vote args reply) = reply.vote_granted ≡ false
  IsOther e = Unit

module _ {ℓ} {C : Type ℓ} (codec : Codec C) (n : ℕ) where
  -- One step of one of the `n` servers, between which any number of others may come. A request goes
  -- to the other servers only, and each of them is asked once in an election.
  pub data Move : Cluster C → Cluster C → Type ℓ where
    timer :
        (c : Cluster C) (i now timeout : ℕ) (rf : Raft C) (sent : Option RequestVoteArgs)
        → i < n
        → election_round codec now timeout (c.servers i) ≡ ok (rf, sent)
        → Move c (timed i rf sent c)
    ask :
        (c : Cluster C) (j now : ℕ) (args : RequestVoteArgs) (rf : Raft C)
        (reply : RequestVoteReply)
        → j < n
        → args.candidate_id ≢ j
        → request_vote codec now (c.servers j) args ≡ ok (rf, reply)
        → Move c (asked j rf args reply c)
    hear :
        (c : Cluster C) (i replied : ℕ) (b : Ballot) (rf : Raft C) (vote : ℕ) (won : Bool)
        → i < n
        → Has b c.votes
        → b.request.candidate_id ≡ i
        → ¬ Has b.voter (c.counted i)
        → vote_reply codec
            (c.servers i)
            (length (c.counted i))
            b.request
            (record { term = replied; vote_granted = true })
          ≡ ok (rf, vote, won)
        → Move c (heard i b.voter rf vote won c)
    other :
        (c : Cluster C) (i : ℕ) (e : Event C) (rf : Raft C)
        → i < n
        → IsOther e
        → step codec (c.servers i) e ≡ ok rf
        → Move c (handled i rf c)

  -- Any number of steps.
  pub data Run : Cluster C → Cluster C → Type ℓ where
    stop : (c : Cluster C) → Run c c
    more : (a b c : Cluster C) → Run a b → Move b c → Run a c
