-- ===== src/Raft/Network/Elected.antt =====
-- What a step of an election does to the servers' logs and to the leaders.
use distributed_database.Prelude.{
  ℕ, ◌≡◌, refl, sym, subst, ◌∙◌, ◌⊎◌, inl, inr, Bool, true, false, List, ◌∷◌, Option, ok, length,
  if◌then◌else◌, Has,
}
use distributed_database.Raft.Types.{
  Raft, leader, candidate, RequestVoteArgs, RequestVoteReply, Codec,
}
use distributed_database.Raft.Election.{election_round, vote_reply}
use distributed_database.Raft.Cluster.{
  Win, Cluster, put, timed, asked, heard, Move, timer, ask, hear, other,
}
use distributed_database.Raft.Cluster.Own.{
  Keeps, request_vote-Keeps, election_round_cases, vote_reply_cases,
}
use distributed_database.Raft.Cluster.Invariant.{put_all}
use distributed_database.Raft.Network.{IsElection}
use distributed_database.Raft.Network.Effects.{request_vote-log, election_round-log, vote_reply-log}

module _ {C : Type 0} where
  -- The log stays, and only a leader or a candidate leads afterwards, in its term.
  pub record Electing (rf r : Raft C) : Type 0 where
    pub same_log : r.log ≡ rf.log
    pub led : r.state ≡ leader → (r.term ≡ rf.term) × ((rf.state ≡ leader) ⊎ (rf.state ≡ candidate))

  Electing-refl : (rf : Raft C) → Electing rf rf
  Electing-refl rf = record { same_log = refl; led = λ up. (refl, inl up) }

  Keeps-Electing : (rf r : Raft C) → r.log ≡ rf.log → Keeps rf r → Electing rf r
  Keeps-Electing rf r same k = record {
    same_log = same;
    led = λ up. (let (led, term) = k.no_leader up in (term, inl led));
  }

  put-Electing :
      (i : ℕ) (rf : Raft C) (servers : ℕ → Raft C)
      → Electing (servers i) rf
      → (h : ℕ) → Electing (servers h) (put i rf servers h)
  put-Electing i rf servers e =
      put_all (λ h r. Electing (servers h) r) i rf servers e (λ h apart. Electing-refl (servers h))

  -- Of the cluster.
  pub record Campaign (c c' : Cluster C) : Type 0 where
    pub each : (h : ℕ) → Electing (c.servers h) (c'.servers h)
    pub wins : (w : Win) → Has w c.wins → Has w c'.wins

module _ {C : Type 0} (codec : Codec C) (n : ℕ) where
  timer-Electing :
      (now timeout : ℕ) (rf r : Raft C) (sent : Option RequestVoteArgs)
      → election_round codec now timeout rf ≡ ok (r, sent)
      → Electing rf r
  timer-Electing now timeout rf r sent h =
      elim (election_round_cases codec now timeout rf r sent h) [
        | inl (_, same) ↦ subst (Electing rf) (sym same) (Electing-refl rf)
        | inr (args, _, stands) ↦ record {
          same_log = election_round-log codec now timeout rf r sent h;
          led = λ up. (let wrong : candidate ≡ leader = sym stands.standing ∙ up in cc);
        }
      ]

  hear-Electing :
      (rf r : Raft C) (vote vote' : ℕ) (args : RequestVoteArgs) (reply : RequestVoteReply)
      (won : Bool)
      → vote_reply codec rf vote args reply ≡ ok (r, vote', won)
      → Electing rf r
  hear-Electing rf r vote vote' args reply won h =
      elim (vote_reply_cases codec rf r vote vote' args reply won h) [
        | inl (_, _, k) ↦
            Keeps-Electing rf r (vote_reply-log codec rf r vote vote' args reply won h) k
        | inr counts ↦ record {
          same_log = vote_reply-log codec rf r vote vote' args reply won h;
          led = λ up. (counts.term_same, inr counts.standing);
        }
      ]

  heard-wins :
      (won : Bool) (v w : Win) (ws : List Win) → Has w ws → Has w (if won then v ∷ ws else ws)
  heard-wins true v w ws h = inr h
  heard-wins false v w ws h = h

  pub Move-Campaign :
      (c c' : Cluster C) (m : Move codec n c c') → IsElection codec n m → Campaign c c'
  unfolding timed asked heard
  Move-Campaign _ _ (timer c i now timeout rf sent lt runs) e = record {
    each = put-Electing i rf c.servers (timer-Electing now timeout (c.servers i) rf sent runs);
    wins = λ w h. h;
  }
  Move-Campaign _ _ (ask c j now args rf reply lt apart runs) e = record {
    each = put-Electing j rf c.servers (
        Keeps-Electing (c.servers j) rf
          (request_vote-log codec now (c.servers j) args rf reply runs)
          (request_vote-Keeps codec now (c.servers j) args (rf, reply) runs));
    wins = λ w h. h;
  }
  Move-Campaign _ _ (hear c i replied b rf vote won lt cast for_me new runs) e = record {
    each = put-Electing i rf c.servers (
        hear-Electing (c.servers i) rf (length (c.counted i)) vote b.request
          (record { term = replied; vote_granted = true }) won runs);
    wins = λ w. heard-wins won _ w c.wins;
  }
  Move-Campaign _ _ (other c i e rf lt outside runs) never = absurd never
