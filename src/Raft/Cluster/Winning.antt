-- ===== src/Raft/Cluster/Winning.antt =====
-- A vote that comes back keeps the invariant, and an election that is won.
use distributed_database.Prelude.{
  ℕ, ◌/◌, ◌+◌, ◌≤◌, ◌<◌, ◌≡◌, ◌≢◌, refl, sym, ap, subst, subst₂, ◌∙◌, inl, inr, Bool, List, ◌∷◌,
  some, ok, Has, length, arith, ◌==◌, ==_iff, Bool-cases,
}
use distributed_database.Raft.Types.{Raft, candidate, leader, Codec, IsCodec}
use distributed_database.Raft.Step.{Event, step}
use distributed_database.Raft.Step.Careful.{IsDurable}
use distributed_database.Raft.Step.Safety.{Pledged}
use distributed_database.Raft.Cluster.{Ballot, Win, Cluster, put}
use distributed_database.Raft.Cluster.Quorum.{quorums_meet}
use distributed_database.Raft.Cluster.Own.{IsCounted}
use distributed_database.Raft.Cluster.Invariant.{
  put_self, put_all, Tally, IsMember, IsWin, IsSound, moved, put-IsMember, put-IsGiven, put-IsWin,
}

module _ {ℓ} {C : Type ℓ} (codec : Codec C) (law : IsCodec codec) (n : ℕ) where
  -- A vote has come back: it does not count, or there is one more, and that may be the last needed.
  module _ (c : Cluster C) (i : ℕ) (e : Event C) (b : Ballot) (rf : Raft C) (vote : ℕ) (won : Bool)
      (s : IsSound codec law n c) (lt : i < n) (steps : step codec (c.servers i) e ≡ ok rf)
      (cast : Has b c.votes) (for_me : b.request.candidate_id ≡ i)
      (new : ¬ Has b.voter (c.counted i))
      (counts : IsCounted codec (c.servers i) rf (length (c.counted i)) vote b.request won) where
    abbrev voters : List ℕ
    voters = b.voter ∷ c.counted i

    members_after : (h : ℕ) → IsMember codec law n h (put i rf c.servers h)
    members_after =
        put-IsMember codec law n c i e rf s steps counts.me_same counts.peers_same (λ stands.
          counts.vote_same ∙ (s.members i).own counts.standing ∙ ap some (sym counts.me_same))

    -- The candidate's votes, with the new one.
    grown : Tally c.votes (c.servers i).term i voters n
    grown =
        let t = s.tally i counts.standing in
        record {
          distinct = (new, t.distinct);
          self = inr t.self;
          below = λ j h. elim h [
            | inl here ↦ subst (λ k. k < n) here (s.given b cast).0
            | inr later ↦ t.below j later
          ];
          cast = λ j h ne. elim h [
            | inl here ↦ (b, cast, here, for_me, sym counts.this_term)
            | inr later ↦ t.cast j later ne
          ];
        }

    -- No voter has given another vote in this term: a voter but the candidate has given this one,
    -- and the candidate has given none.
    agreed_before :
        (j : ℕ) (a : Ballot)
        → Has j voters
        → Has a c.votes
        → a.voter ≡ j
        → a.request.term ≡ (c.servers i).term
        → a.request.candidate_id ≡ i
    agreed_before j a hj ha who when = elim (Bool-cases (j == i)) [
      | inr apart ↦
          let (x, has, voter, whom, at) = grown.cast j hj (λ e. ground (arith, e, apart)) in
          s.one a x ha has (who ∙ sym voter) (when ∙ sym at) ∙ whom
      | inl same ↦
          let here : a.voter ≡ i = who ∙ (==_iff j i).0 same in
          let p : Pledged codec law a.request.candidate_id a.request.term (c.servers i) =
            subst (λ k. Pledged codec law a.request.candidate_id a.request.term (c.servers k)) here
              (s.given a ha).1 in
          elim p.pledge [
            | inl past ↦ absurd (omega (arith, when, past))
            | inr (term, vote, idle) ↦ absurd (idle counts.standing)
          ]
    ]

    -- The candidate goes on.
    pub going-IsSound :
        rf.state ≡ candidate
        → IsSound codec law n
            (record c { servers = put i rf c.servers; counted = put i voters c.counted })
    going-IsSound stands = record {
      members = members_after;
      tally = λ h up. elim (Bool-cases (h == i)) [
        | inl same ↦ rw same (
            subst₂ (λ k t. Tally c.votes t k voters n) (sym ((==_iff h i).0 same))
              (sym counts.term_same) grown)
        | inr apart ↦ rw apart (s.tally h (rw apart at up))
      ];
      given = put-IsGiven codec law n c i e rf s steps;
      one = s.one;
      won = put-IsWin codec law n c i e rf s steps;
      unique = s.unique;
      leads =
          put_all
            (λ h r.
              r.state ≡ leader → (w : Win) × Has w c.wins × (w.leader ≡ h) × (w.term ≡ r.term))
            i rf c.servers (λ leads. (let wrong : candidate ≡ leader = sym stands ∙ leads in cc))
            (λ h ne. s.leads h);
    }

    abbrev win : Win
    win = record { leader = i; term = rf.term; voters = voters }

    -- The pledge of a voter: its vote's, or the new leader's own.
    voter_pledged :
        rf.state ≡ leader
        → (j : ℕ) → Has j voters
        → Pledged codec law i rf.term (put i rf c.servers j)
    voter_pledged leads j hj = elim (Bool-cases (j == i)) [
      | inl same ↦ rw same (record {
        durable = subst (IsDurable codec) (put_self i rf c.servers) (members_after i).durable;
        pledge = inr (
          refl,
          counts.vote_same ∙ (s.members i).own counts.standing ∙ ap some (s.members i).me,
          λ up. (let wrong : candidate ≡ leader = sym up ∙ leads in cc),
        );
      })
      | inr apart ↦
          let ne : j ≢ i = λ e. ground (arith, e, apart) in
          let (x, has, voter, whom, at) = grown.cast j hj ne in
          let before : Pledged codec law i rf.term (c.servers j) =
            subst₂ (λ a t. Pledged codec law a t (c.servers j)) whom (at ∙ sym counts.term_same)
              (subst (λ k. Pledged codec law x.request.candidate_id x.request.term (c.servers k))
                voter (s.given x has).1) in
          moved codec law n c i e rf s steps i rf.term j before
    ]

    new_win :
        rf.state ≡ leader
        → n / 2 + 1 ≤ length voters
        → IsWin codec law n c.votes (put i rf c.servers) win
    new_win leads enough = record {
      distinct = grown.distinct;
      self = grown.self;
      majority = enough;
      below = grown.below;
      pledged = voter_pledged leads;
      agreed = λ j a hj ha who when. agreed_before j a hj ha who (when ∙ counts.term_same);
    }

    -- An election that was won in this term before had a voter in common.
    same_leader :
        (w : Win) → n / 2 + 1 ≤ length voters → Has w c.wins → w.term ≡ rf.term → w.leader ≡ i
    same_leader w enough h when =
        let x = s.won w h in
        let (j, hj, hj') =
          quorums_meet n w.voters voters x.distinct grown.distinct x.below grown.below x.majority
            enough in
        elim (Bool-cases (j == i)) [
          | inr apart ↦
              let (a, has, voter, whom, at) = grown.cast j hj' (λ e. ground (arith, e, apart)) in
              sym (x.agreed j a hj has voter (at ∙ sym counts.term_same ∙ sym when)) ∙ whom
          | inl same ↦
              let p : Pledged codec law w.leader w.term (c.servers i) =
                subst (λ k. Pledged codec law w.leader w.term (c.servers k)) ((==_iff j i).0 same)
                  (x.pledged j hj) in
              elim p.pledge [
                | inl past ↦ absurd (omega (arith, when, past, counts.term_same))
                | inr (term, vote, idle) ↦ absurd (idle counts.standing)
              ]
        ]

    -- The candidate is elected.
    pub elected-IsSound :
        rf.state ≡ leader
        → n / 2 + 1 ≤ length voters
        → IsSound codec law n (record c {
          servers = put i rf c.servers;
          counted = put i voters c.counted;
          wins = win ∷ c.wins;
        })
    elected-IsSound leads enough = record {
      members = members_after;
      tally = λ h up. elim (Bool-cases (h == i)) [
        | inl same ↦ (let wrong : leader ≡ candidate = sym leads ∙ (rw same at up) in cc)
        | inr apart ↦ rw apart (s.tally h (rw apart at up))
      ];
      given = put-IsGiven codec law n c i e rf s steps;
      one = s.one;
      won = λ w h. elim h [
        | inl here ↦
            subst (IsWin codec law n c.votes (put i rf c.servers)) here (new_win leads enough)
        | inr later ↦ put-IsWin codec law n c i e rf s steps w later
      ];
      unique = λ v w hv hw same. elim hv [
        | inl here ↦ elim hw [
          | inl there ↦ ap (λ (x : Win). x.leader) (sym here ∙ there)
          | inr later ↦
              ap (λ (x : Win). x.leader) (sym here)
              ∙ sym (same_leader w enough later (sym same ∙ ap (λ (x : Win). x.term) (sym here)))
        ]
        | inr later ↦ elim hw [
          | inl there ↦
              same_leader v enough later (same ∙ ap (λ (x : Win). x.term) (sym there))
              ∙ ap (λ (x : Win). x.leader) there
          | inr later' ↦ s.unique v w later later' same
        ]
      ];
      leads =
          put_all
            (λ h r.
              r.state ≡ leader
              → (w : Win) × Has w (win ∷ c.wins) × (w.leader ≡ h) × (w.term ≡ r.term))
            i rf c.servers (λ up. (win, inl refl, refl, refl))
            (λ h ne up. (let (w, has, who, when) = s.leads h up in (w, inr has, who, when)));
    }
