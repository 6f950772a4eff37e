-- ===== src/Raft/Network/Invariant.antt =====
-- What is true at any time of the logs, of the messages on their way and of the entries ever made.
pub mod Begin
pub mod Steps
use distributed_database.Prelude.{
  ℕ, ◌+◌, ◌≤◌, ◌<◌, ◌≡◌, ◌≢◌, refl, ap, sym, subst, ◌∙◌, ◌⊎◌, inl, inr, List, ok, Has, arith,
}
use distributed_database.Raft.Types.{Raft, leader, candidate, AppendEntriesArgs, Codec, IsCodec}
use distributed_database.Raft.Step.{Event, step}
use distributed_database.Raft.Step.Safety.{Pledged}
use distributed_database.Raft.Cluster.{Win, Cluster, put, handled, Move, IsOther}
use distributed_database.Raft.Cluster.Own.{Keeps}
use distributed_database.Raft.Cluster.Other.{step-Keeps}
use distributed_database.Raft.Cluster.Invariant.{IsMember, IsSound, handled-IsSound, put_all}
use distributed_database.Raft.Cluster.Election.{Move-IsSound}
use distributed_database.Raft.Network.{Birth, Network, IsElection}
use distributed_database.Raft.Network.Grown.{end_of, IsGrown}
use distributed_database.Raft.Network.Agree.{OneBirth}
use distributed_database.Raft.Network.Elected.{Campaign, Electing, Move-Campaign}
use distributed_database.Raft.Network.Deliver.{IsMade}

module _ {C : Type 0} where
  -- Entries that a server has made in the term that it leads in are in its log.
  abbrev pub Newest : List (Birth C) → Raft C → Type 0
  Newest born rf =
      (b : Birth C) → rf.state ≡ leader → Has b born → b.term ≡ rf.term → b.index < end_of rf.log

  -- The message's sender was elected in its term.
  abbrev pub IsSent : List Win → AppendEntriesArgs C → Type 0
  IsSent wins args = (w : Win) × Has w wins × (w.leader ≡ args.leader_id) × (w.term ≡ args.term)

module _ {C : Type 0} (codec : Codec C) (law : IsCodec codec) (n : ℕ) where
  pub record IsMatched (net : Network C) : Type 0 where
    pub sound : IsSound codec law n net.cluster
    pub one_birth : OneBirth net.born
    pub logs : (i : ℕ) → IsGrown net.born (net.cluster.servers i).log
    pub newest : (i : ℕ) → Newest net.born (net.cluster.servers i)
    pub claimed :
        (b : Birth C) → Has b net.born → (w : Win) × Has w net.cluster.wins × (w.term ≡ b.term)
    pub made : (args : AppendEntriesArgs C) → Has args net.sent → IsMade net.born args
    pub sent : (args : AppendEntriesArgs C) → Has args net.sent → IsSent net.cluster.wins args

  -- Nobody but the winner of a term leads in it.
  pub winner_leads :
      (c : Cluster C) (i : ℕ) (w : Win)
      → IsSound codec law n c
      → (c.servers i).state ≡ leader
      → Has w c.wins
      → w.term ≡ (c.servers i).term
      → w.leader ≡ i
  winner_leads c i w s up has same =
      let (v, has', who, when) = s.leads i up in s.unique w v has has' (same ∙ sym when) ∙ who

  -- One server takes a step outside an election that makes no entry.
  pub handled-IsMatched :
      (net : Network C) (j : ℕ) (e : Event C) (rf : Raft C)
      → IsMatched net
      → IsOther e
      → step codec (net.cluster.servers j) e ≡ ok rf
      → IsGrown net.born rf.log
      → (rf.state ≡ leader → end_of (net.cluster.servers j).log ≤ end_of rf.log)
      → IsMatched (record net { cluster = handled j rf net.cluster })
  unfolding handled
  handled-IsMatched net j e rf s outside runs grown longer =
      let servers = net.cluster.servers in
      let k = step-Keeps codec (servers j) rf e outside runs in
      record {
        sound = handled-IsSound codec law n net.cluster j e rf s.sound runs k;
        one_birth = s.one_birth;
        logs = put_all (λ h r. IsGrown net.born r.log) j rf servers grown (λ h apart. s.logs h);
        newest =
            put_all (λ h r. Newest net.born r) j rf servers
              (λ b up has same.
                (let (led, term) = k.no_leader up in
                  omega (arith, longer up, s.newest j b led has (same ∙ term))))
              (λ h apart. s.newest h);
        claimed = s.claimed;
        made = s.made;
        sent = s.sent;
      }

  -- A candidate that wins has made no entry in its term yet.
  new_leader :
      (net : Network C) (c : Cluster C) (i : ℕ) (b : Birth C)
      → IsMatched net
      → IsSound codec law n c
      → Campaign net.cluster c
      → (net.cluster.servers i).state ≡ candidate
      → (c.servers i).state ≡ leader
      → (c.servers i).term ≡ (net.cluster.servers i).term
      → Has b net.born
      → b.term ≡ (net.cluster.servers i).term
      → ⊥
  new_leader net c i b s s' campaign stood up same has when =
      let (w, won, claims) = s.claimed b has in
      let who : w.leader ≡ i =
        winner_leads c i w s' up (campaign.wins w won) (claims ∙ when ∙ sym same) in
      let win = s.sound.won w won in
      let pledged : Pledged codec law i w.term (net.cluster.servers i) =
        subst (λ a. Pledged codec law a w.term (net.cluster.servers a)) who
          (win.pledged w.leader win.self) in
      elim pledged.pledge [
        | inl past ↦ omega (arith, past, claims, when)
        | inr (_, _, idle) ↦ idle stood
      ]

  pub elect-IsMatched :
      (net : Network C) (c : Cluster C) (m : Move codec n net.cluster c)
      → IsMatched net
      → IsElection codec n m
      → IsMatched (record net { cluster = c })
  elect-IsMatched net c m s e =
      let sound = Move-IsSound codec law n net.cluster c s.sound m in
      let campaign = Move-Campaign codec n net.cluster c m e in
      record {
        sound = sound;
        one_birth = s.one_birth;
        logs = λ i. subst (IsGrown net.born) (sym (campaign.each i).same_log) (s.logs i);
        newest = λ i b up has same. newer i b sound campaign up has same;
        claimed = λ b has. (let (w, won, term) = s.claimed b has in (w, campaign.wins w won, term));
        made = s.made;
        sent = λ args has.
            (let (w, won, who, when) = s.sent args has in (w, campaign.wins w won, who, when));
      }
    where
      newer :
          (i : ℕ) (b : Birth C)
          → IsSound codec law n c
          → Campaign net.cluster c
          → (c.servers i).state ≡ leader
          → Has b net.born
          → b.term ≡ (c.servers i).term
          → b.index < end_of (c.servers i).log
      newer i b sound campaign up has same =
          let (term, before) = (campaign.each i).led up in
          elim before [
            | inl led ↦
                subst (λ l. b.index < end_of l) (sym (campaign.each i).same_log)
                  (s.newest i b led has (same ∙ term))
            | inr stood ↦
                absurd (new_leader net c i b s sound campaign stood up term has (same ∙ term))
          ]
