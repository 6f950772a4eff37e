-- ===== src/Raft/Cluster/Votes.antt =====
-- A vote that is given keeps the invariant.
use distributed_database.Prelude.{
  ℕ, ◌<◌, ◌≡◌, ◌≢◌, refl, sym, ap, subst, ◌∙◌, inl, inr, true, List, ◌∷◌, ok, Has, arith,
  Bool-cases,
}
use distributed_database.Raft.Types.{
  Raft, candidate, RequestVoteArgs, RequestVoteReply, Codec, IsCodec,
}
use distributed_database.Raft.Vote.{request_vote}
use distributed_database.Raft.Step.{Event, asked_vote, step}
use distributed_database.Raft.Step.Safety.{Pledged, request_vote-Pledged, Pledged-grants}
use distributed_database.Raft.Cluster.{Ballot, Win, Cluster, asked, handled}
use distributed_database.Raft.Cluster.Own.{IsOwn, request_vote-Keeps}
use distributed_database.Raft.Cluster.Invariant.{
  put_self, Tally, IsMember, IsGiven, IsSound, handled-IsSound,
}

Tally-votes :
    (votes : List Ballot) (b : Ballot) (term i : ℕ) (voters : List ℕ) (n : ℕ)
    → Tally votes term i voters n
    → Tally (b ∷ votes) term i voters n
Tally-votes votes b term i voters n t = record {
  distinct = t.distinct;
  self = t.self;
  below = t.below;
  cast = λ j h ne. (let (a, has, who, whom, when) = t.cast j h ne in (a, inr has, who, whom, when));
}

module _ {ℓ} {C : Type ℓ} (codec : Codec C) (law : IsCodec codec) (n : ℕ) where
  -- A candidate gives its vote to no other.
  granted_other :
      (now : ℕ) (rf : Raft C) (args : RequestVoteArgs) (r : Raft C × RequestVoteReply)
      → request_vote codec now rf args ≡ ok r
      → r.1.vote_granted ≡ true
      → IsOwn rf
      → r.0.state ≡ candidate
      → args.candidate_id ≢ rf.me
      → ⊥
  unfolding request_vote
  granted_other now rf args r h granted own stands apart = ground arith

  -- A vote that agrees with the voter's earlier ones.
  voted-IsSound :
      (c : Cluster C) (b : Ballot)
      → IsSound codec law n c
      → IsGiven codec law n c.servers b
      → ((a : Ballot)
          → Has a c.votes
          → a.voter ≡ b.voter
          → a.request.term ≡ b.request.term
          → a.request.candidate_id ≡ b.request.candidate_id)
      → ((w : Win)
          → Has w c.wins
          → Has b.voter w.voters
          → w.term ≡ b.request.term
          → b.request.candidate_id ≡ w.leader)
      → IsSound codec law n (record c { votes = b ∷ c.votes })
  voted-IsSound c b s new agrees elected = record {
    members = s.members;
    tally = λ i stands. Tally-votes c.votes b _ i (c.counted i) n (s.tally i stands);
    given = λ a h. elim h [
      | inl here ↦ subst (IsGiven codec law n c.servers) here new
      | inr later ↦ s.given a later
    ];
    one = λ x y hx hy who when. elim hx [
      | inl here ↦ elim hy [
        | inl there ↦ ap (λ (z : Ballot). z.request.candidate_id) (sym here ∙ there)
        | inr later ↦
            for_new x here
            ∙ sym (agrees y later (sym who ∙ from_new x here) (sym when ∙ at_new x here))
      ]
      | inr later ↦ elim hy [
        | inl there ↦
            agrees x later (who ∙ from_new y there) (when ∙ at_new y there) ∙ sym (for_new y there)
        | inr later' ↦ s.one x y later later' who when
      ]
    ];
    won = λ w h.
        (let x = s.won w h in
          record {
            distinct = x.distinct;
            self = x.self;
            majority = x.majority;
            below = x.below;
            pledged = x.pledged;
            agreed = λ j a hj ha who when. elim ha [
              | inl here ↦
                  for_new a here
                  ∙ elected w h (subst (λ k. Has k w.voters) (sym who ∙ from_new a here) hj)
                      (sym when ∙ at_new a here)
              | inr later ↦ x.agreed j a hj later who when
            ];
          });
    unique = s.unique;
    leads = s.leads;
  }
    where
      from_new : (a : Ballot) → b ≡ a → a.voter ≡ b.voter
      from_new a e = ap (λ (z : Ballot). z.voter) (sym e)

      at_new : (a : Ballot) → b ≡ a → a.request.term ≡ b.request.term
      at_new a e = ap (λ (z : Ballot). z.request.term) (sym e)

      for_new : (a : Ballot) → b ≡ a → a.request.candidate_id ≡ b.request.candidate_id
      for_new a e = ap (λ (z : Ballot). z.request.candidate_id) (sym e)

  pub ask-IsSound :
      (c : Cluster C) (j now : ℕ) (args : RequestVoteArgs) (rf : Raft C) (reply : RequestVoteReply)
      → IsSound codec law n c
      → j < n
      → args.candidate_id ≢ j
      → request_vote codec now (c.servers j) args ≡ ok (rf, reply)
      → IsSound codec law n (asked j rf args reply c)
  unfolding asked handled
  ask-IsSound c j now args rf reply s lt apart runs =
      let e : Event C = asked_vote now args in
      let steps : step codec (c.servers j) e ≡ ok rf = unfold step in rw runs refl in
      let k = request_vote-Keeps codec now (c.servers j) args (rf, reply) runs in
      let s' = handled-IsSound codec law n c j e rf s steps k in
      elim (Bool-cases reply.vote_granted) [
        | inr refused ↦ rw refused s'
        | inl granted ↦
            let m = s.members j in
            let m' : IsMember codec law n j rf =
              subst (IsMember codec law n j) (put_self j rf c.servers) (s'.members j) in
            let idle : rf.state ≢ candidate = λ stands.
              granted_other now (c.servers j) args (rf, reply) runs granted (m.own) stands
                (λ e. apart (e ∙ m.me)) in
            rw granted (
              voted-IsSound (handled j rf c) (record { voter = j; request = args }) s'
                (
                  lt,
                  subst (Pledged codec law args.candidate_id args.term)
                      (sym (put_self j rf c.servers))
                      (request_vote-Pledged codec law now (c.servers j) args (rf, reply) m.durable
                        runs granted idle),
                )
                (λ a h who when. sym (
                  Pledged-grants codec law a.request.candidate_id a.request.term now (c.servers j)
                    args (rf, reply)
                    (subst
                      (λ i. Pledged codec law a.request.candidate_id a.request.term (c.servers i))
                      who (s.given a h).1)
                    runs (sym when) granted))
                (λ w h hj when.
                  Pledged-grants codec law w.leader w.term now (c.servers j) args (rf, reply)
                    ((s.won w h).pledged j hj) runs (sym when) granted))
      ]
