-- ===== src/Raft/Step/Careful.antt =====
-- What an event may do to the term, the vote and the copy of both on disk.
use distributed_database.Prelude.{
  ℕ, ◌≤◌, ◌<◌, ◌≡◌, refl, subst, sym, ◌∙◌, ◌⊎◌, inl, [], ◌∷◌, none, arith,
}
use distributed_database.Raft.Types.{Raft, candidate, Saved, Codec}
use distributed_database.Raft.Node.{saved, adopt_term, reset_term, become_follower}
use distributed_database.Raft.Boot.{blank_entry}

module _ {ℓ} {C : Type ℓ} where
  abbrev pub blank_saved : Saved C
  blank_saved = record { term = 0; voted_for = none; log = blank_entry ∷ [] }

module _ {ℓ} {C : Type ℓ} (codec : Codec C) where
  -- The persister holds the server's term, vote and log; or nothing yet, and these are the first.
  abbrev pub IsDurable : Raft C → Type ℓ
  IsDurable rf =
      (rf.persister.raftstate ≡ codec.encode (saved rf))
      ⊎ ((rf.persister.raftstate ≡ []) × (saved rf ≡ blank_saved))

  -- A step that leaves the term and the vote alone, and makes no candidate.
  pub record Quiet (rf rf' : Raft C) : Type ℓ where
    pub same_term : rf'.term ≡ rf.term
    pub same_vote : rf'.voted_for ≡ rf.voted_for
    pub no_candidate : rf'.state ≡ candidate → rf.state ≡ candidate
    pub durable : IsDurable rf → IsDurable rf'

  -- What every event keeps. Only a candidate that falls back may lose its vote within a term.
  pub record Careful (rf rf' : Raft C) : Type ℓ where
    pub term_le : rf.term ≤ rf'.term
    pub vote_kept :
        rf'.term ≡ rf.term
        → (rf'.voted_for ≡ rf.voted_for) ⊎ (rf.voted_for ≡ none) ⊎ (rf.state ≡ candidate)
    pub no_candidate : rf'.term ≡ rf.term → rf'.state ≡ candidate → rf.state ≡ candidate
    pub durable : IsDurable rf → IsDurable rf'

  pub Quiet-Careful : {rf rf' : Raft C} → Quiet rf rf' → Careful rf rf'
  Quiet-Careful q = record {
    term_le = omega (arith, q.same_term);
    vote_kept = λ _. inl q.same_vote;
    no_candidate = λ _. q.no_candidate;
    durable = q.durable;
  }

  pub Careful-Quiet : {a b c : Raft C} → Careful a b → Quiet b c → Careful a c
  Careful-Quiet {a} {b} {c} s q = record {
    term_le = omega (arith, s.term_le, q.same_term);
    vote_kept = λ e.
        subst (λ v. (v ≡ a.voted_for) ⊎ (a.voted_for ≡ none) ⊎ (a.state ≡ candidate))
          (sym q.same_vote) (s.vote_kept (sym q.same_term ∙ e));
    no_candidate = λ e h. s.no_candidate (sym q.same_term ∙ e) (q.no_candidate h);
    durable = λ d. q.durable (s.durable d);
  }

  pub Quiet-refl : (rf : Raft C) → Quiet rf rf
  Quiet-refl rf = record {
    same_term = refl;
    same_vote = refl;
    no_candidate = λ h. h;
    durable = λ d. d;
  }

  pub Quiet-trans : {a b c : Raft C} → Quiet a b → Quiet b c → Quiet a c
  Quiet-trans p q = record {
    same_term = q.same_term ∙ p.same_term;
    same_vote = q.same_vote ∙ p.same_vote;
    no_candidate = λ h. p.no_candidate (q.no_candidate h);
    durable = λ d. q.durable (p.durable d);
  }

  pub Quiet-then : {a b c : Raft C} → Quiet a b → Careful b c → Careful a c
  Quiet-then {a} {b} {c} q s = record {
    term_le = omega (arith, s.term_le, q.same_term);
    vote_kept = λ e.
        ground (arith, q.same_term, q.same_vote, q.no_candidate, s.vote_kept (e ∙ sym q.same_term));
    no_candidate = λ e h. q.no_candidate (s.no_candidate (e ∙ sym q.same_term) h);
    durable = λ d. s.durable (q.durable d);
  }

  -- A higher term: the vote is free again, and that is written.
  pub reset_term-Careful :
      (t : ℕ) (rf : Raft C) → rf.term < t → Careful rf (reset_term codec t (become_follower rf))
  unfolding reset_term become_follower
  reset_term-Careful t rf h = record {
    term_le = omega arith;
    vote_kept = λ e. absurd (omega arith);
    no_candidate = λ e s. absurd (omega arith);
    durable = λ d. inl refl;
  }

  pub adopt_term-Careful : (t : ℕ) (rf : Raft C) → rf.term ≤ t → Careful rf (adopt_term codec t rf)
  unfolding adopt_term
  adopt_term-Careful t rf h = record {
    term_le = ground arith;
    vote_kept = λ e. ground arith;
    no_candidate = λ e s. ground arith;
    durable = λ d. ground arith;
  }
