-- ===== src/Raft/Cluster/Election.antt =====
-- In a term at most one server is elected.
use distributed_database.Prelude.{
  ℕ, ◌/◌, ◌+◌, ◌≤◌, ◌<◌, ◌≡◌, refl, sym, subst, ◌∙◌, inl, inr, Bool, true, false, [], ok, Has,
  length, arith, ◌==◌, ==_refl, ne→==, leb→le,
}
use distributed_database.Raft.Types.{
  Raft, follower, candidate, leader, RequestVoteReply, Codec, IsCodec,
}
use distributed_database.Raft.Node.{is_majority}
use distributed_database.Raft.Election.{vote_reply}
use distributed_database.Raft.Step.{Event, got_vote, step}
use distributed_database.Raft.Cluster.{
  Ballot, Win, Cluster, heard, handled, Move, timer, ask, hear, other, Run, stop, more,
}
use distributed_database.Raft.Cluster.Own.{IsCounted, vote_reply_cases}
use distributed_database.Raft.Cluster.Other.{step-Keeps}
use distributed_database.Raft.Cluster.Invariant.{IsMember, IsSound, handled-IsSound}
use distributed_database.Raft.Cluster.Votes.{ask-IsSound}
use distributed_database.Raft.Cluster.Standing.{timer-IsSound}
use distributed_database.Raft.Cluster.Winning.{going-IsSound, elected-IsSound}

module _ {ℓ} {C : Type ℓ} (codec : Codec C) (law : IsCodec codec) (n : ℕ) where
  enough_votes :
      (rf : Raft C) (vote : ℕ) → rf.peers ≡ n → is_majority rf vote ≡ true → n / 2 + 1 ≤ vote
  unfolding is_majority
  enough_votes rf vote peers h =
      subst (λ k. k / 2 + 1 ≤ vote) peers (leb→le (rf.peers / 2 + 1) vote h)

  -- A vote that is counted.
  count-IsSound :
      (c : Cluster C) (i : ℕ) (e : Event C) (b : Ballot) (rf : Raft C) (vote : ℕ) (won : Bool)
      → IsSound codec law n c
      → i < n
      → step codec (c.servers i) e ≡ ok rf
      → Has b c.votes
      → b.request.candidate_id ≡ i
      → ¬ Has b.voter (c.counted i)
      → IsCounted codec (c.servers i) rf (length (c.counted i)) vote b.request won
      → IsSound codec law n (heard i b.voter rf vote won c)
  unfolding heard
  count-IsSound c i e b rf vote won s lt steps cast for_me new counts =
      let more_than : (vote == length (c.counted i)) ≡ false =
        ne→== vote (length (c.counted i)) (λ same. omega (arith, same, counts.one_more)) in
      elim counts.outcome [
        | inl (lost, stands) ↦
            rw (more_than, lost)
              (going-IsSound codec law n c i e b rf vote won s lt steps cast for_me new counts
                stands)
        | inr (elected, leads, most) ↦
            rw (more_than, elected)
              (elected-IsSound codec law n c i e b rf vote won s lt steps cast for_me new counts
                leads
                (omega (
                  arith,
                  enough_votes (c.servers i) (length (c.counted i) + 1) (s.members i).peers most,
                )))
      ]

  hear-IsSound :
      (c : Cluster C) (i replied : ℕ) (b : Ballot) (rf : Raft C) (vote : ℕ) (won : Bool)
      → IsSound codec law n c
      → i < n
      → Has b c.votes
      → b.request.candidate_id ≡ i
      → ¬ Has b.voter (c.counted i)
      → vote_reply codec
          (c.servers i)
          (length (c.counted i))
          b.request
          (record { term = replied; vote_granted = true })
        ≡ ok (rf, vote, won)
      → IsSound codec law n (heard i b.voter rf vote won c)
  unfolding heard handled
  hear-IsSound c i replied b rf vote won s lt cast for_me new runs =
      let reply : RequestVoteReply = record { term = replied; vote_granted = true } in
      let counted = length (c.counted i) in
      let e : Event C = got_vote counted b.request reply in
      let steps : step codec (c.servers i) e ≡ ok rf = unfold step in rw runs refl in
      elim (vote_reply_cases codec (c.servers i) rf counted vote b.request reply won runs) [
        | inl (same, lost, k) ↦
            rw (same, ==_refl counted, lost) (handled-IsSound codec law n c i e rf s steps k)
        | inr counts ↦ count-IsSound c i e b rf vote won s lt steps cast for_me new counts
      ]

  pub Move-IsSound :
      (c c' : Cluster C) → IsSound codec law n c → Move codec n c c' → IsSound codec law n c'
  Move-IsSound _ _ s (timer c i now timeout rf sent lt runs) =
      timer-IsSound codec law n c i now timeout rf sent s lt runs
  Move-IsSound _ _ s (ask c j now args rf reply lt apart runs) =
      ask-IsSound codec law n c j now args rf reply s lt apart runs
  Move-IsSound _ _ s (hear c i replied b rf vote won lt cast for_me new runs) =
      hear-IsSound c i replied b rf vote won s lt cast for_me new runs
  Move-IsSound _ _ s (other c i e rf lt outside runs) =
      handled-IsSound codec law n c i e rf s runs (step-Keeps codec (c.servers i) rf e outside runs)

  pub Run-IsSound :
      (c c' : Cluster C) → IsSound codec law n c → Run codec n c c' → IsSound codec law n c'
  Run-IsSound _ _ s (stop c) = s
  Run-IsSound _ _ s (more c b c' r m) = Move-IsSound b c' (Run-IsSound c b s r) m

  -- `n` servers that start, each with what its disk has or nothing yet.
  pub record IsStart (c : Cluster C) : Type ℓ where
    pub members : (i : ℕ) → IsMember codec law n i (c.servers i)
    pub followers : (i : ℕ) → (c.servers i).state ≡ follower
    pub no_votes : c.votes ≡ []
    pub no_wins : c.wins ≡ []

  pub start-IsSound : (c : Cluster C) → IsStart c → IsSound codec law n c
  start-IsSound c s =
      let no_vote : (b : Ballot) → ¬ Has b c.votes =
        λ b. subst (λ bs. ¬ Has b bs) (sym s.no_votes) (λ h. h) in
      let no_win : (w : Win) → ¬ Has w c.wins =
        λ w. subst (λ ws. ¬ Has w ws) (sym s.no_wins) (λ h. h) in
      record {
        members = s.members;
        tally = λ i up. (let wrong : follower ≡ candidate = sym (s.followers i) ∙ up in cc);
        given = λ b h. absurd (no_vote b h);
        one = λ a b h h' who when. absurd (no_vote a h);
        won = λ w h. absurd (no_win w h);
        unique = λ v w h h' same. absurd (no_win v h);
        leads = λ i up. (let wrong : follower ≡ leader = sym (s.followers i) ∙ up in cc);
      }

  -- Election safety: whatever happens to the servers from their start on, in any order, crashes and
  -- restarts included, two elections that are ever won in one term are won by the same server.
  pub one_election_per_term :
      (c c' : Cluster C) (v w : Win)
      → IsStart c
      → Run codec n c c'
      → Has v c'.wins
      → Has w c'.wins
      → v.term ≡ w.term
      → v.leader ≡ w.leader
  one_election_per_term c c' v w s r = (Run-IsSound c c' (start-IsSound c s) r).unique v w

  -- Two servers that lead in one term at the same time are the same server.
  pub one_leader_per_term :
      (c c' : Cluster C) (i j : ℕ)
      → IsStart c
      → Run codec n c c'
      → (c'.servers i).state ≡ leader
      → (c'.servers j).state ≡ leader
      → (c'.servers i).term ≡ (c'.servers j).term
      → i ≡ j
  one_leader_per_term c c' i j s r up up' same =
      let x = Run-IsSound c c' (start-IsSound c s) r in
      let (v, hv, who, when) = x.leads i up in
      let (w, hw, who', when') = x.leads j up' in
      sym who ∙ x.unique v w hv hw (when ∙ same ∙ sym when') ∙ who'
