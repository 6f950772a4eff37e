-- ===== src/Raft/Append/Merged.antt =====
-- The reference for the merge of AppendEntries, and that the merge computes it.
use distributed_database.Prelude.{
  ℕ, zero, suc, ◌+◌, ◌-◌, ◌≤◌, ◌<◌, ◌≡◌, refl, subst, inl, inr, List, [], ◌∷◌, ◌++◌, ok, length,
  get_elem?, take, drop, arith, Bool-cases, length-append, ltb, leb, if◌then◌else◌, ◌>>=◌,
}
use distributed_database.Raft.Types.{LogEntry}
use distributed_database.Raft.Log.Contiguous.{Contiguous, IsLog, log_tail-index, log_head-index}
use distributed_database.Prelude.{
  take-append-drop, length-take, length-drop, ltb→lt, ltb→ge, lt→ltb, get_elem?-append_left,
  get_elem?-take,
}
use distributed_database.Raft.Log.Contiguous.{Contiguous-take, Contiguous-drop, Contiguous-append}
use distributed_database.Raft.Append.{find_append_left, merge}
use distributed_database.Raft.Append.Graft.{graft, Contiguous-graft, length-graft-ge}
use distributed_database.Raft.Append.Merge.{overlap, skip, drop-drop}

module _ {ℓ} {C : Type ℓ} where
  -- The log with base `n` once entries from index `m` on are merged into it.
  unfoldable pub merged : ℕ → ℕ → List (LogEntry C) → List (LogEntry C) → List (LogEntry C)
  merged n m log es =
      if ltb n (m + length es)
      then take (m - n) log ++ graft (drop (n - m) es) (drop (m - n) log)
      else log

  -- The loop and the appends, once the message's last entry reaches the log.
  appended-late :
      (n m : ℕ) (log es : List (LogEntry C))
      → IsLog n log
      → Contiguous m es
      → n ≤ m
      → m ≤ n + length log
      → (find_append_left log es 0 0 >>= λ r. ok (r.0 ++ drop r.1 es))
        ≡ ok (take (m - n) log ++ graft es (drop (m - n) log))
  appended-late n m log es hl he le close =
      let pre = take (m - n) log in
      let whole : pre ++ drop (m - n) log ≡ log = take-append-drop (m - n) log in
      let start : n + length pre ≡ m = omega (arith, length-take (m - n) log) in
      let (kept, d, runs, joins) =
        overlap n 0 0 pre (drop (m - n) log) es (rw whole hl) (rw start he) (inl refl) in
      let zero_plus : 0 + d ≡ d = omega arith in
      let runs' : find_append_left log es 0 0 ≡ ok (kept, 0 + d) = rw whole at runs in
      rw (runs', zero_plus, joins)

  appended-early :
      (n m : ℕ) (log es : List (LogEntry C))
      → IsLog n log
      → Contiguous m es
      → m < n
      → n < m + length es
      → (find_append_left log es 0 0 >>= λ r. ok (r.0 ++ drop r.1 es))
        ≡ ok (graft (drop (n - m) es) log)
  appended-early n m log es hl he lt reach =
      let k = n - m in
      let at : m + k ≡ n + 0 = omega arith in
      let rest : Contiguous (n + 0) (drop k es) = rw at at (Contiguous-drop k m es he) in
      let (kept, d, runs, joins) =
        overlap n (0 + k) 0 [] log (drop k es) hl rest
          (inr (hl.nonempty, omega (arith, length-drop k es))) in
      let skipped = skip k n m 0 log es hl he (omega arith) (omega arith) in
      let total : 0 + k + d ≡ k + d = omega arith in
      rw (skipped, runs, total, ← drop-drop k d es, joins)

  -- The merge of AppendEntries never faults when the message's entries count up and start at the log's
  -- end at the latest, and its result is the reference merge: what the log has before them, then the
  -- graft of the two.
  pub merge-merged :
      (n m : ℕ) (log es : List (LogEntry C))
      → IsLog n log
      → IsLog m es
      → m ≤ n + length log
      → merge log es ≡ ok (merged n m log es)
  unfolding merge merged
  merge-merged n m log es hl he close =
      let (last, is_last, _, end) = log_tail-index m es he in
      let (first, is_first, base) = log_head-index n log hl in
      let test : leb first.index last.index ≡ ltb n (m + length es) = ground arith in
      rw (is_last, is_first, test)
        (elim (Bool-cases (ltb n (m + length es))) [
          | inl reach ↦ rw reach (joined (ltb→lt _ _ reach))
          | inr short ↦ rw short
        ])
    where
      joined :
          n < m + length es
          → (find_append_left log es 0 0 >>= λ r. ok (r.0 ++ drop r.1 es))
            ≡ ok (take (m - n) log ++ graft (drop (n - m) es) (drop (m - n) log))
      joined reach = elim (Bool-cases (ltb m n)) [
        | inl early ↦
            let none_before : m - n ≡ 0 = omega (arith, ltb→lt m n early) in
            rw none_before (appended-early n m log es hl he.counts (ltb→lt m n early) reach)
        | inr late ↦
            let none_skipped : n - m ≡ 0 = omega (arith, ltb→ge m n late) in
            rw none_skipped (appended-late n m log es hl he.counts (ltb→ge m n late) close)
      ]

  -- A merged log is a log with the same base.
  pub IsLog-merged :
      (n m : ℕ) (log es : List (LogEntry C))
      → IsLog n log
      → Contiguous m es
      → m ≤ n + length log
      → IsLog n (merged n m log es)
  unfolding merged
  IsLog-merged n m log es hl he close = elim (Bool-cases (ltb n (m + length es))) [
    | inr short ↦ rw short hl
    | inl reach ↦ rw reach (record {
      nonempty = omega (
        arith,
        ltb→lt _ _ reach,
        length-append pre (graft es' rest),
        length-take (m - n) log,
        length-drop (n - m) es,
        length-graft-ge es' rest,
      );
      counts = Contiguous-append n pre _ (Contiguous-take (m - n) n log hl.counts) (
          Contiguous-graft _ es' rest
            (subst (λ j. Contiguous j es') from_es (Contiguous-drop (n - m) m es he))
            (subst (λ j. Contiguous j rest) from_log (Contiguous-drop (m - n) n log hl.counts)));
    })
  ]
    where
      pre : List (LogEntry C)
      pre = take (m - n) log

      es' : List (LogEntry C)
      es' = drop (n - m) es

      rest : List (LogEntry C)
      rest = drop (m - n) log

      from_es : m + (n - m) ≡ n + length pre
      from_es = omega (arith, length-take (m - n) log)

      from_log : n + (m - n) ≡ n + length pre
      from_log = omega (arith, length-take (m - n) log)

  -- In front of the message's entries nothing changes.
  pub get_elem?-merged_before :
      (n m i : ℕ) (log es : List (LogEntry C))
      → i < m - n
      → m ≤ n + length log
      → get_elem? (merged n m log es) i ≡ get_elem? log i
  unfolding merged
  get_elem?-merged_before n m i log es before close = elim (Bool-cases (ltb n (m + length es))) [
    | inr short ↦ rw short
    | inl reach ↦
        rw
          (
            reach,
            get_elem?-append_left (take (m - n) log) (graft (drop (n - m) es) (drop (m - n) log)) i
                (omega (arith, length-take (m - n) log)),
          )
          (get_elem?-take (m - n) log i before)
  ]

  -- Behind that stands the graft of what the message and the log have from there on.
  pub drop-merged :
      (n m : ℕ) (log es : List (LogEntry C))
      → m ≤ n + length log
      → n < m + length es
      → drop (m - n) (merged n m log es) ≡ graft (drop (n - m) es) (drop (m - n) log)
  unfolding merged
  drop-merged n m log es close reach =
      rw (lt→ltb n (m + length es) reach) (drop-append (m - n) log _ (omega arith))
    where
      drop-append :
          (k : ℕ) (xs ys : List (LogEntry C)) → k ≤ length xs → drop k (take k xs ++ ys) ≡ ys
      drop-append zero xs ys h = refl
      drop-append (suc k) [] ys h = absurd (omega arith)
      drop-append (suc k) (x ∷ xs) ys h = drop-append k xs ys (omega arith)
