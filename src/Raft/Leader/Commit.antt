-- ===== src/Raft/Leader/Commit.antt =====
-- When the leader's commit index moves.
use distributed_database.Prelude.{
  ℕ, zero, suc, ◌+◌, ◌-◌, ◌≤◌, ◌<◌, ◌≡◌, subst, sym, ◌⊎◌, inl, inr, Option, some, none, Bool, true,
  false, ok, ◌>>=◌, deref, length, set, arith, ltb, leb, ◌==◌, if◌then◌else◌, >>=-eq-ok, Bool-cases,
  ltb→lt,
}
use distributed_database.Raft.Types.{Raft, LogEntry, AppendEntriesArgs}
use distributed_database.Raft.Log.{log_tail, get_log_at_index}
use distributed_database.Raft.Node.{majority, is_majority}
use distributed_database.Raft.Election.{write}
use distributed_database.Raft.Leader.{
  count_matches, can_commit, find_commit, advance_commit, acknowledge,
}

module _ {ℓ} {C : Type ℓ} where
  -- A majority of the servers is known to have the entry at `i`, and it is of the leader's term.
  pub record Committable (rf : Raft C) (i : ℕ) : Type ℓ where
    pub count : ℕ
    pub entry : LogEntry C
    pub counted : count_matches i rf.peers rf.match_index ≡ ok count
    pub enough : majority rf ≤ count
    pub at : get_log_at_index rf.log i ≡ ok (some entry)
    pub current : entry.term ≡ rf.term

  can_commit_sound : (rf : Raft C) (i : ℕ) → can_commit rf i ≡ ok true → Committable rf i
  unfolding can_commit is_majority
  can_commit_sound rf i h =
      let (count, counted, h') = >>=-eq-ok (count_matches i rf.peers rf.match_index) _ h in
      elim (Bool-cases (leb (majority rf) count)) [
        | inr few ↦ ground arith
        | inl many ↦
            let (found, here, h'') = >>=-eq-ok (get_log_at_index rf.log i) _ (rw many at h') in
            entry_of count counted (ground arith) found here h''
      ]
    where
      entry_of :
          (count : ℕ)
          → count_matches i rf.peers rf.match_index ≡ ok count
          → majority rf ≤ count
          → (found : Option (LogEntry C)) → get_log_at_index rf.log i ≡ ok found
          → (deref found >>= λ e. ok (e.term == rf.term)) ≡ ok true
          → Committable rf i
      entry_of count counted many none here h = cc
      entry_of count counted many (some e) here h = record {
        count = count;
        entry = e;
        counted = counted;
        enough = many;
        at = here;
        current = ground arith;
      }

  can_commit_complete : (rf : Raft C) (i : ℕ) → Committable rf i → can_commit rf i ≡ ok true
  unfolding can_commit is_majority
  can_commit_complete rf i c =
      let many : leb (majority rf) c.count ≡ true = ground (arith, c.enough) in
      let same : (c.entry.term == rf.term) ≡ true = ground (arith, c.current) in
      rw (c.counted, many, c.at, same)

  -- The loop ends with the last index that can be committed, if there is one.
  find_commit_sound :
      (rf : Raft C) (i n pre c : ℕ)
      → find_commit rf i n pre ≡ ok c
      → (c ≡ pre) ⊎ ((i ≤ c) × (c < i + n) × Committable rf c)
  unfolding find_commit
  find_commit_sound rf i zero pre c h = inl (cc)
  find_commit_sound rf i (suc n) pre c h =
      let (good, tested, rest) = >>=-eq-ok (can_commit rf i) _ h in
      here good tested (find_commit_sound rf (i + 1) n _ c rest)
    where
      here :
          (good : Bool)
          → can_commit rf i ≡ ok good
          → (c ≡ (if good then i else pre)) ⊎ ((i + 1 ≤ c) × (c < i + 1 + n) × Committable rf c)
          → (c ≡ pre) ⊎ ((i ≤ c) × (c < i + suc n) × Committable rf c)
      here good tested (inr (from, to, ok')) = inr (omega arith, omega arith, ok')
      here true tested (inl e) =
          inr (
            omega arith,
            omega arith,
            subst (Committable rf) (sym e) (can_commit_sound rf i tested),
          )
      here false tested (inl e) = inl e

  find_commit_complete :
      (rf : Raft C) (i n pre c j : ℕ)
      → find_commit rf i n pre ≡ ok c
      → pre ≤ i
      → i ≤ j
      → j < i + n
      → Committable rf j
      → j ≤ c
  unfolding find_commit
  find_commit_complete rf i zero pre c j h le from to good = absurd (omega arith)
  find_commit_complete rf i (suc n) pre c j h le from to good =
      let (tested, test, rest) = >>=-eq-ok (can_commit rf i) _ h in
      elim (Bool-cases (ltb i j)) [
        | inl later ↦
            find_commit_complete rf (i + 1) n (if tested then i else pre) c j rest (ground arith)
              (omega (arith, ltb→lt i j later)) (omega arith) good
        | inr now ↦
            let here : i ≡ j = ground arith in
            let passes : tested ≡ true =
              cc (test, can_commit_complete rf i (subst (Committable rf) (sym here) good)) in
            ground (arith, find_commit_sound rf (i + 1) n (if tested then i else pre) c rest)
      ]

  pub advance_commit_sound :
      (last : ℕ) (rf r : Raft C)
      → advance_commit last rf ≡ ok r
      → (r.commit_index ≡ rf.commit_index)
        ⊎ ((rf.commit_index ≤ r.commit_index)
            × (r.commit_index ≤ last)
            × Committable rf r.commit_index)
  unfolding advance_commit
  advance_commit_sound last rf r h =
      let (commit, runs, done) = >>=-eq-ok (find_commit rf rf.commit_index _ rf.commit_index) _ h in
      let is_commit : commit ≡ r.commit_index = cc in
      subst (λ c. (c ≡ rf.commit_index) ⊎ ((rf.commit_index ≤ c) × (c ≤ last) × Committable rf c))
        is_commit (bounded commit (find_commit_sound rf _ _ _ commit runs))
    where
      bounded :
          (c : ℕ)
          → (c ≡ rf.commit_index)
            ⊎ ((rf.commit_index ≤ c)
                × (c < rf.commit_index + (last + 1 - rf.commit_index))
                × Committable rf c)
          → (c ≡ rf.commit_index) ⊎ ((rf.commit_index ≤ c) × (c ≤ last) × Committable rf c)
      bounded c (inl same) = inl same
      bounded c (inr (from, to, good)) = inr (from, omega arith, good)

  pub advance_commit_complete :
      (last j : ℕ) (rf r : Raft C)
      → advance_commit last rf ≡ ok r
      → rf.commit_index ≤ j
      → j ≤ last
      → Committable rf j
      → j ≤ r.commit_index
  unfolding advance_commit
  advance_commit_complete last j rf r h from to good =
      let (commit, runs, done) = >>=-eq-ok (find_commit rf rf.commit_index _ rf.commit_index) _ h in
      let is_commit : commit ≡ r.commit_index = cc in
      rw (← is_commit)
        (find_commit_complete rf _ _ _ commit j runs (omega arith) from (omega arith) good)

  pub advance_commit-else :
      (last : ℕ) (rf r : Raft C)
      → advance_commit last rf ≡ ok r
      → r ≡ record rf { commit_index = r.commit_index }
  unfolding advance_commit
  advance_commit-else last rf r h = ground arith

  -- The server once a peer's acknowledgement of the entries up to `last` is noted.
  abbrev pub noted : Raft C → ℕ → ℕ → Raft C
  noted rf peer last = record rf {
    match_index = set rf.match_index peer last;
    next_index = set rf.next_index peer (last + 1);
  }

  pub acknowledge-advance :
      (peer : ℕ) (args : AppendEntriesArgs C) (last : LogEntry C) (rf r : Raft C)
      → log_tail args.entries ≡ ok last
      → acknowledge peer args rf ≡ ok r
      → advance_commit last.index (noted rf peer last.index) ≡ ok r
  unfolding acknowledge
  acknowledge-advance peer args last rf r tail h =
      in_range (rw tail at h) (Bool-cases (ltb peer (length rf.match_index)))
        (Bool-cases (ltb peer (length rf.next_index)))
    where
      in_range :
          (write rf.match_index peer last.index >>= λ match_index.
          write rf.next_index peer (last.index + 1) >>= λ next_index.
          advance_commit last.index
            (record rf { match_index = match_index; next_index = next_index }))
            ≡ ok r
          → (ltb peer (length rf.match_index) ≡ true) ⊎ (ltb peer (length rf.match_index) ≡ false)
          → (ltb peer (length rf.next_index) ≡ true) ⊎ (ltb peer (length rf.next_index) ≡ false)
          → advance_commit last.index (noted rf peer last.index) ≡ ok r
      in_range e (inl a) (inl b) = rw (a, b) at e
      in_range e (inr a) b = cc (rw a at e)
      in_range e (inl a) (inr b) = cc (rw (a, b) at e)
