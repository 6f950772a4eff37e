-- ===== src/Raft/Cluster/Standing.antt =====
-- A server that stands keeps the invariant.
use distributed_database.Prelude.{
  ℕ, ◌<◌, ◌≡◌, refl, sym, subst, ◌∙◌, inl, inr, [], ◌∷◌, Option, ok, Has, ◌==◌, ==_iff, Bool-cases,
}
use distributed_database.Raft.Types.{Raft, candidate, leader, RequestVoteArgs, Codec, IsCodec}
use distributed_database.Raft.Election.{election_round}
use distributed_database.Raft.Step.{Event, election_timer, step}
use distributed_database.Raft.Cluster.{Win, Cluster, put, timed, handled}
use distributed_database.Raft.Cluster.Own.{Keeps, Keeps-refl, IsStanding, election_round_cases}
use distributed_database.Raft.Cluster.Invariant.{
  put_all, IsSound, put-IsMember, put-IsGiven, put-IsWin, handled-IsSound,
}

module _ {ℓ} {C : Type ℓ} (codec : Codec C) (law : IsCodec codec) (n : ℕ) where
  standing_lem :
      (c : Cluster C) (i : ℕ) (e : Event C) (rf : Raft C)
      → IsSound codec law n c
      → i < n
      → step codec (c.servers i) e ≡ ok rf
      → IsStanding codec (c.servers i) rf
      → IsSound codec law n
          (record c { servers = put i rf c.servers; counted = put i (i ∷ []) c.counted })
  standing_lem c i e rf s lt steps stands = record {
    members =
        put-IsMember codec law n c i e rf s steps stands.me_same stands.peers_same
          (λ h. stands.own_vote);
    tally = λ h up. elim (Bool-cases (h == i)) [
      | inl same ↦
          let here : h ≡ i = (==_iff h i).0 same in
          rw same (record {
            distinct = ((λ x. x), tt);
            self = inl (sym here);
            below = λ j hj. elim hj [ inl k ↦ subst (λ m. m < n) k lt | inr x ↦ absurd x ];
            cast = λ j hj ne. elim hj [ inl k ↦ absurd (ne (sym k ∙ sym here)) | inr x ↦ absurd x ];
          })
      | inr apart ↦ rw apart (s.tally h (rw apart at up))
    ];
    given = put-IsGiven codec law n c i e rf s steps;
    one = s.one;
    won = put-IsWin codec law n c i e rf s steps;
    unique = s.unique;
    leads =
        put_all
          (λ h r. r.state ≡ leader → (w : Win) × Has w c.wins × (w.leader ≡ h) × (w.term ≡ r.term))
          i rf c.servers
          (λ leads. (let wrong : candidate ≡ leader = sym stands.standing ∙ leads in cc))
          (λ h ne. s.leads h);
  }

  pub timer-IsSound :
      (c : Cluster C) (i now timeout : ℕ) (rf : Raft C) (sent : Option RequestVoteArgs)
      → IsSound codec law n c
      → i < n
      → election_round codec now timeout (c.servers i) ≡ ok (rf, sent)
      → IsSound codec law n (timed i rf sent c)
  unfolding timed handled
  timer-IsSound c i now timeout rf sent s lt runs =
      let e : Event C = election_timer now timeout in
      let steps : step codec (c.servers i) e ≡ ok rf = unfold step in rw runs refl in
      elim (election_round_cases codec now timeout (c.servers i) rf sent runs) [
        | inl (nothing, same) ↦ rw nothing (
            handled-IsSound codec law n c i e rf s steps
              (subst (Keeps (c.servers i)) (sym same) (Keeps-refl (c.servers i))))
        | inr (args, something, stands) ↦ rw something (standing_lem c i e rf s lt steps stands)
      ]
