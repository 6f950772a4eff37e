-- ===== src/Raft/Cluster/Invariant.antt =====
-- What is true of the servers, the votes and the won elections at any time.
use distributed_database.Prelude.{
  ℕ, ◌/◌, ◌+◌, ◌≤◌, ◌<◌, ◌≡◌, ◌≢◌, sym, subst, ◌∙◌, inl, inr, List, ok, Has, Distinct, length,
  arith, ◌==◌, ==_iff, ==_refl, ne→==, Bool-cases,
}
use distributed_database.Raft.Types.{Raft, candidate, leader, Codec, IsCodec}
use distributed_database.Raft.Step.{Event, step}
use distributed_database.Raft.Step.Careful.{IsDurable}
use distributed_database.Raft.Step.Safety.{Pledged, step-Pledged, step-Survives}
use distributed_database.Raft.Cluster.{Ballot, Win, Cluster, put, handled}
use distributed_database.Raft.Cluster.Own.{IsOwn, Keeps}

pub put_self {ℓ} : {A : Type ℓ} (i : ℕ) (a : A) (f : ℕ → A) → put i a f i ≡ a
put_self i a f = rw (==_refl i)

pub put_other {ℓ} : {A : Type ℓ} (i h : ℕ) (a : A) (f : ℕ → A) → h ≢ i → put i a f h ≡ f h
put_other i h a f ne = rw (ne→== h i ne)

-- What holds of a new value at `i` and of the old ones elsewhere holds everywhere.
pub put_all {ℓ κ} :
    {A : Type ℓ} (P : ℕ → A → Type κ) (i : ℕ) (a : A) (f : ℕ → A)
    → P i a
    → ((h : ℕ) → h ≢ i → P h (f h))
    → (h : ℕ) → P h (put i a f h)
put_all P i a f new old h = elim (Bool-cases (h == i)) [
  | inl same ↦ rw same (subst (λ k. P k a) (sym ((==_iff h i).0 same)) new)
  | inr apart ↦ rw apart (old h (λ e. ground (arith, e, apart)))
]

-- The votes that a candidate has counted in a term are its own and some that were given to it.
pub record Tally (votes : List Ballot) (term i : ℕ) (voters : List ℕ) (n : ℕ) : Type 0 where
  pub distinct : Distinct voters
  pub self : Has i voters
  pub below : (j : ℕ) → Has j voters → j < n
  pub cast :
      (j : ℕ)
      → Has j voters
      → j ≢ i
      → (b : Ballot) × Has b votes
        × (b.voter ≡ j)
        × (b.request.candidate_id ≡ i)
        × (b.request.term ≡ term)

module _ {ℓ} {C : Type ℓ} (codec : Codec C) (law : IsCodec codec) (n : ℕ) where
  pub record IsMember (i : ℕ) (rf : Raft C) : Type ℓ where
    pub me : rf.me ≡ i
    pub peers : rf.peers ≡ n
    pub own : IsOwn rf
    pub durable : IsDurable codec rf

  -- A majority has voted for the winner, will vote for no other in that term, and never did.
  pub record IsWin (votes : List Ballot) (servers : ℕ → Raft C) (w : Win) : Type ℓ where
    pub distinct : Distinct w.voters
    pub self : Has w.leader w.voters
    pub majority : n / 2 + 1 ≤ length w.voters
    pub below : (j : ℕ) → Has j w.voters → j < n
    pub pledged : (j : ℕ) → Has j w.voters → Pledged codec law w.leader w.term (servers j)
    pub agreed :
        (j : ℕ) (b : Ballot)
        → Has j w.voters
        → Has b votes
        → b.voter ≡ j
        → b.request.term ≡ w.term
        → b.request.candidate_id ≡ w.leader

  abbrev pub IsGiven : (ℕ → Raft C) → Ballot → Type ℓ
  IsGiven servers b =
      (b.voter < n) × Pledged codec law b.request.candidate_id b.request.term (servers b.voter)

  pub record IsSound (c : Cluster C) : Type ℓ where
    pub members : (i : ℕ) → IsMember i (c.servers i)
    pub tally :
        (i : ℕ)
        → (c.servers i).state ≡ candidate
        → Tally c.votes (c.servers i).term i (c.counted i) n
    pub given : (b : Ballot) → Has b c.votes → IsGiven c.servers b
    pub one :
        (a b : Ballot)
        → Has a c.votes
        → Has b c.votes
        → a.voter ≡ b.voter
        → a.request.term ≡ b.request.term
        → a.request.candidate_id ≡ b.request.candidate_id
    pub won : (w : Win) → Has w c.wins → IsWin c.votes c.servers w
    pub unique : (v w : Win) → Has v c.wins → Has w c.wins → v.term ≡ w.term → v.leader ≡ w.leader
    pub leads :
        (i : ℕ)
        → (c.servers i).state ≡ leader
        → (w : Win) × Has w c.wins × (w.leader ≡ i) × (w.term ≡ (c.servers i).term)

  -- One server takes a step; the pledges stay.
  module _ (c : Cluster C) (i : ℕ) (e : Event C) (rf : Raft C) (sound : IsSound c)
      (runs : step codec (c.servers i) e ≡ ok rf) where
    pub moved :
        (a t j : ℕ)
        → Pledged codec law a t (c.servers j)
        → Pledged codec law a t (put i rf c.servers j)
    moved a t =
        put_all (λ h r. Pledged codec law a t (c.servers h) → Pledged codec law a t r) i rf
          c.servers (λ p. step-Pledged codec law a t (c.servers i) rf e p runs) (λ h ne p. p)

    pub put-IsMember :
        rf.me ≡ (c.servers i).me
        → rf.peers ≡ (c.servers i).peers
        → IsOwn rf
        → (h : ℕ) → IsMember h (put i rf c.servers h)
    put-IsMember me_same peers_same own =
        let m = sound.members i in
        put_all IsMember i rf c.servers
          (record {
            me = me_same ∙ m.me;
            peers = peers_same ∙ m.peers;
            own = own;
            durable = (step-Survives codec law (c.servers i) rf e m.durable runs).durable;
          })
          (λ h ne. sound.members h)

    pub put-IsGiven : (b : Ballot) → Has b c.votes → IsGiven (put i rf c.servers) b
    put-IsGiven b h = let (lt, p) = sound.given b h in (lt, moved _ _ b.voter p)

    pub put-IsWin : (w : Win) → Has w c.wins → IsWin c.votes (put i rf c.servers) w
    put-IsWin w h =
        let s = sound.won w h in
        record {
          distinct = s.distinct;
          self = s.self;
          majority = s.majority;
          below = s.below;
          pledged = λ j hj. moved _ _ j (s.pledged j hj);
          agreed = s.agreed;
        }

    -- A step that makes neither a candidate nor a leader.
    pub handled-IsSound : Keeps (c.servers i) rf → IsSound (handled i rf c)
    unfolding handled
    handled-IsSound k = record {
      members = put-IsMember k.me_same k.peers_same (k.own (sound.members i).own);
      tally =
          put_all (λ h r. r.state ≡ candidate → Tally c.votes r.term h (c.counted h) n) i rf
            c.servers
            (λ stands.
              (let (stood, same) = k.no_new stands in
                subst (λ t. Tally c.votes t i (c.counted i) n) (sym same) (sound.tally i stood)))
            (λ h ne. sound.tally h);
      given = put-IsGiven;
      one = sound.one;
      won = put-IsWin;
      unique = sound.unique;
      leads =
          put_all
            (λ h r.
              r.state ≡ leader → (w : Win) × Has w c.wins × (w.leader ≡ h) × (w.term ≡ r.term))
            i rf c.servers
            (λ leads.
              (let (led, same) = k.no_leader leads in
                let (w, has, who, when) = sound.leads i led in (w, has, who, when ∙ sym same)))
            (λ h ne. sound.leads h);
    }
