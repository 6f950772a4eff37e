-- ===== src/Raft/Replica/Snapshots.antt =====
-- Snapshots and the invariant.
use distributed_database.Prelude.{
  ℕ, zero, suc, ◌+◌, ◌-◌, ◌≤◌, ◌<◌, ◌≡◌, refl, ap, sym, subst, ◌∙◌, ◌⊎◌, inl, inr, List, [], ◌∷◌,
  none, true, false, ok, length, get_elem?, get_elem?-drop, length-drop, drop, arith, ltb, leb,
  ◌==◌, ge→ltb, Bool-cases, ltb→lt, ltb→ge,
}
use distributed_database.Raft.Types.{LogEntry, Raft, Codec}
use distributed_database.Raft.Log.{get_log_at_index}
use distributed_database.Raft.Log.Contiguous.{
  Contiguous, IsLog, Contiguous-drop, get_log_at_index-from, log_tail-index,
  log_index_to_subscript-from, slice_from-le, slice_to-le,
}
use distributed_database.Raft.Snapshots.{
  has_index, compacted_log, installed_log, snapshot, cond_install_snapshot, save_with_snapshot,
}
use distributed_database.Raft.Replica.{IsReplica}

module _ {ℓ} {C : Type ℓ} where
  has_index-inside :
      (n i : ℕ) (log : List (LogEntry C))
      → Contiguous n log
      → n ≤ i
      → i < n + length log
      → has_index i log ≡ true
  unfolding has_index
  has_index-inside n i [] h from to = absurd (omega arith)
  has_index-inside n i (e ∷ es) h from to = elim (Bool-cases (e.index == i)) [
    | inl here ↦ rw here
    | inr later ↦ rw later (has_index-inside (suc n) i es h.1 (ground arith) (omega arith))
  ]

  -- Behind its new head a log is the end of the old one.
  pub record IsCut (k i : ℕ) (log cut : List (LogEntry C)) : Type ℓ where
    pub is_log : IsLog i cut
    pub long : length cut + k ≡ length log
    pub rest : (j : ℕ) → 0 < j → get_elem? cut j ≡ get_elem? log (k + j)

  cut_at :
      (n i : ℕ) (log : List (LogEntry C))
      → IsLog n log
      → n ≤ i
      → i < n + length log
      → (e : LogEntry C) × (es : List (LogEntry C)) × (drop (i - n) log ≡ e ∷ es)
        × (e.index ≡ i)
        × Contiguous (suc i) es
  cut_at n i log hl from to = split (drop (i - n) log) refl
    where
      counts : Contiguous i (drop (i - n) log)
      counts =
          subst (λ j. Contiguous j (drop (i - n) log)) (omega arith)
            (Contiguous-drop (i - n) n log hl.counts)

      split :
          (xs : List (LogEntry C))
          → drop (i - n) log ≡ xs
          → (e : LogEntry C) × (es : List (LogEntry C)) × (drop (i - n) log ≡ e ∷ es)
            × (e.index ≡ i)
            × Contiguous (suc i) es
      split [] at = absurd (omega (arith, ap length at, length-drop (i - n) log))
      split (e ∷ es) at =
          let h : Contiguous i (e ∷ es) = subst (Contiguous i) at counts in (e, es, at, h.0, h.1)

  -- The head may be changed at will, but for its index.
  shortened-IsCut :
      (n i : ℕ) (log : List (LogEntry C)) (e x : LogEntry C) (es : List (LogEntry C))
      → IsLog n log
      → n ≤ i
      → i < n + length log
      → drop (i - n) log ≡ e ∷ es
      → x.index ≡ i
      → Contiguous (suc i) es
      → IsCut (i - n) i log (x ∷ es)
  shortened-IsCut n i log e x es hl from to at place counts = record {
    is_log = record { nonempty = omega arith; counts = (place, counts) };
    long = omega (arith, ap length at, length-drop (i - n) log);
    rest = λ j pos. behind j pos;
  }
    where
      behind : (j : ℕ) → 0 < j → get_elem? (x ∷ es) j ≡ get_elem? log (i - n + j)
      behind zero pos = absurd (omega arith)
      behind (suc j) pos =
          ap (λ xs. get_elem? xs (suc j)) (sym at) ∙ get_elem?-drop (i - n) log (suc j)

  compacted_log-IsCut :
      (n i : ℕ) (log : List (LogEntry C))
      → IsLog n log
      → n ≤ i
      → i < n + length log
      → (cut : List (LogEntry C)) × (compacted_log i log ≡ ok cut) × IsCut (i - n) i log cut
  unfolding compacted_log
  compacted_log-IsCut n i log hl from to =
      let (e, es, at, place, counts) = cut_at n i log hl from to in
      (
        record e { command = none } ∷ es,
        rw (
          log_index_to_subscript-from n i log hl from,
          slice_from-le (i - n) log (omega arith),
          at,
        ),
        shortened-IsCut n i log e (record e { command = none }) es hl from to at place counts,
      )

  -- The end of the log stays under its indices.
  IsCut-get :
      (n i j : ℕ) (log cut : List (LogEntry C))
      → IsLog n log
      → n ≤ i
      → IsCut (i - n) i log cut
      → i < j
      → get_log_at_index cut j ≡ get_log_at_index log j
  IsCut-get n i j log cut hl from c above =
      let place : (i - n) + (j - i) ≡ j - n = omega arith in
      get_log_at_index-from i j cut c.is_log (omega arith)
      ∙ ap ok (c.rest (j - i) (omega arith) ∙ ap (get_elem? log) place)
      ∙ sym (get_log_at_index-from n j log hl (omega arith))

  pub installed_log-within :
      (n term i : ℕ) (log : List (LogEntry C))
      → IsLog n log
      → n ≤ i
      → i + 1 < n + length log
      → (cut : List (LogEntry C)) × (installed_log term i log ≡ ok cut) × IsCut (i - n) i log cut
  unfolding installed_log
  installed_log-within n term i log hl from inside =
      let (tail, is_tail, _, end) = log_tail-index n log hl in
      let (e, es, at, place, counts) = cut_at n i log hl from (omega arith) in
      let keep : leb tail.index i ≡ false = ground arith in
      (
        record { term = term; index = i; command = none } ∷ es,
        rw (
          is_tail,
          keep,
          log_index_to_subscript-from n i log hl from,
          slice_from-le (i - n) log (omega arith),
          at,
        ),
        shortened-IsCut n i log e _ es hl from (omega arith) at refl counts,
      )

  pub installed_log-beyond :
      (n term i : ℕ) (log : List (LogEntry C))
      → IsLog n log
      → n + length log ≤ i + 1
      → installed_log term i log ≡ ok (record { term = term; index = i; command = none } ∷ [])
  unfolding installed_log
  installed_log-beyond n term i [] hl beyond = absurd (omega (arith, hl.nonempty))
  installed_log-beyond n term i (e ∷ es) hl beyond =
      let (tail, is_tail, _, end) = log_tail-index n (e ∷ es) hl in
      let drops : leb tail.index i ≡ true = ground arith in
      rw (is_tail, drops, slice_to-le 1 (e ∷ es) (omega arith))

module _ {ℓ} {C : Type ℓ} (codec : Codec C) where
  -- A snapshot of entries that are applied: the call returns, the log starts at the snapshot's
  -- index and keeps the entry at every index `j` behind it, the bytes are on the disk beside the state that belongs
  -- to them, and the invariant holds with the new base.
  pub snapshot-IsReplica :
      (n i j : ℕ) (bytes : List ℕ) (rf : Raft C)
      → IsReplica n rf
      → n ≤ i
      → i ≤ rf.last_applied
      → i < j
      → (r : Raft C) × (snapshot codec i bytes rf ≡ ok r)
        × IsReplica i r
        × (r.persister.snapshot ≡ bytes)
        × (r.commit_index ≡ rf.commit_index)
        × (get_log_at_index r.log j ≡ get_log_at_index rf.log j)
  unfolding snapshot
  snapshot-IsReplica n i j bytes rf v from applied above =
      let to : i < n + length rf.log = omega (arith, v.applied_committed, v.committed) in
      let (cut, runs, c) = compacted_log-IsCut n i rf.log v.is_log from to in
      (
        save_with_snapshot codec bytes (record rf { log = cut }),
        rw (has_index-inside n i rf.log v.is_log.counts from to, runs),
        record {
          is_log = c.is_log;
          base_applied = applied;
          applied_committed = v.applied_committed;
          committed = omega (arith, v.committed, c.long);
        },
        refl,
        refl,
        IsCut-get n i j rf.log cut v.is_log from c above,
      )

  -- The leader's snapshot, at an index that is not committed yet or just is: it is installed. The
  -- log starts at its index, everything up to there counts as applied, its bytes are on the disk,
  -- and the invariant holds with the new base. The entries behind it stay if there are any.
  pub cond_install_snapshot-IsReplica :
      (n term i j : ℕ) (bytes : List ℕ) (rf : Raft C)
      → IsReplica n rf
      → rf.commit_index ≤ i
      → i < j
      → (r : Raft C) × (cond_install_snapshot codec term i bytes rf ≡ ok (r, true))
        × IsReplica i r
        × (r.last_applied ≡ i)
        × (r.persister.snapshot ≡ bytes)
        × ((get_log_at_index r.log j ≡ get_log_at_index rf.log j) ⊎ (n + length rf.log ≤ i + 1))
  unfolding cond_install_snapshot
  cond_install_snapshot-IsReplica n term i j bytes rf v fresh above =
      elim (Bool-cases (ltb (i + 1) (n + length rf.log))) [
        | inl inside ↦
            let from : n ≤ i = omega (arith, v.base_applied, v.applied_committed) in
            let (cut, runs, c) =
              installed_log-within n term i rf.log v.is_log from (ltb→lt _ _ inside) in
            (
              installed cut,
              rw (ge→ltb i rf.commit_index fresh, runs),
              record {
                is_log = c.is_log;
                base_applied = omega arith;
                applied_committed = omega arith;
                committed = omega (arith, c.is_log.nonempty);
              },
              refl,
              refl,
              inl (IsCut-get n i j rf.log cut v.is_log from c above),
            )
        | inr beyond ↦
            let long = ltb→ge _ _ beyond in
            let runs = installed_log-beyond n term i rf.log v.is_log long in
            (
              installed (record { term = term; index = i; command = none } ∷ []),
              rw (ge→ltb i rf.commit_index fresh, runs),
              record {
                is_log = record { nonempty = omega arith; counts = (refl, tt) };
                base_applied = omega arith;
                applied_committed = omega arith;
                committed = omega arith;
              },
              refl,
              refl,
              inr long,
            )
      ]
    where
      installed : List (LogEntry C) → Raft C
      installed log =
          save_with_snapshot codec bytes
            (record rf { log = log; commit_index = i; last_applied = i })
