-- ===== src/Raft/Append/Merge.antt =====
-- The merge loop of AppendEntries computes the graft of the message's entries on the log.
use mathlib.Core.List.{append-nil, append_assoc}
use distributed_database.Prelude.{
  ℕ, zero, suc, ◌+◌, ◌-◌, ◌≤◌, ◌<◌, ◌≡◌, refl, ap, sym, ◌∙◌, ◌⊎◌, inl, inr, List, [], ◌∷◌, ◌++◌,
  some, ok, length, get_elem?, take, drop, arith, ==_iff, ◌==◌, true, Bool-cases, length-append,
  get_elem?-ge, if◌then◌else◌,
}
use distributed_database.Raft.Types.{LogEntry}
use distributed_database.Raft.Log.Contiguous.{
  Contiguous, IsLog, Contiguous-right, get_log_at_index-below, get_log_at_index-from,
  log_index_to_subscript-from, slice_to-le,
}
use distributed_database.Raft.Append.{find_append_left}
use distributed_database.Raft.Append.Graft.{graft}

module _ {ℓ} {C : Type ℓ} where
  take-append : (xs ys : List (LogEntry C)) → take (length xs) (xs ++ ys) ≡ xs
  take-append [] ys = refl
  take-append (x ∷ xs) ys = ap (λ t. x ∷ t) (take-append xs ys)

  get_elem?-middle :
      (xs ys : List (LogEntry C)) (y : LogEntry C) → get_elem? (xs ++ y ∷ ys) (length xs) ≡ some y
  get_elem?-middle [] ys y = refl
  get_elem?-middle (x ∷ xs) ys y = get_elem?-middle xs ys y

  -- Entries behind the log's end find no counterpart.
  pub find_append_left-past :
      (n m i a : ℕ) (log es : List (LogEntry C))
      → IsLog n log
      → Contiguous m es
      → n + length log ≤ m
      → find_append_left log es i a ≡ ok (log, a)
  unfolding find_append_left
  find_append_left-past n m i a log [] hl he le = refl
  find_append_left-past n m i a log (e ∷ es) hl he le =
      rw
        (
          he.0,
          get_log_at_index-from n m log hl (omega arith),
          get_elem?-ge log (m - n) (omega arith),
        )
        (find_append_left-past n (suc m) (suc i) a log es hl he.1 (omega arith))

  -- One step at an entry that has a counterpart.
  find_append_left-here :
      (n i a : ℕ) (pre ls es : List (LogEntry C)) (l e : LogEntry C)
      → IsLog n (pre ++ l ∷ ls)
      → e.index ≡ n + length pre
      → find_append_left (pre ++ l ∷ ls) (e ∷ es) i a ≡ (
          if l.term == e.term
          then find_append_left (pre ++ l ∷ ls) es (suc i) (suc i)
          else ok (pre, i))
  unfolding find_append_left
  find_append_left-here n i a pre ls es l e hl he =
      let place : e.index - n ≡ length pre = omega arith in
      let at : l.index ≡ n + length pre = (Contiguous-right n pre (l ∷ ls) hl.counts).0 in
      let same : (l.index == e.index) ≡ true = (==_iff l.index e.index).1 (omega arith) in
      let short : length pre ≤ length (pre ++ l ∷ ls) = omega (arith, length-append pre (l ∷ ls)) in
      rw
        (
          get_log_at_index-from n e.index (pre ++ l ∷ ls) hl (omega arith),
          place,
          get_elem?-middle pre ls l,
          same,
        )
        (elim (Bool-cases (l.term == e.term)) [
          | inl match ↦ rw match
          | inr differ ↦ rw (
            differ,
            log_index_to_subscript-from n e.index (pre ++ l ∷ ls) hl (omega arith),
            place,
            slice_to-le (length pre) (pre ++ l ∷ ls) short,
            take-append pre (l ∷ ls),
          )
        ])

  -- From the log's base on, the loop leaves what the graft keeps, and where to append the rest.
  pub overlap :
      (n i a : ℕ) (pre ls es : List (LogEntry C))
      → IsLog n (pre ++ ls)
      → Contiguous (n + length pre) es
      → (a ≡ i) ⊎ ((0 < length ls) × (0 < length es))
      → (kept : List (LogEntry C)) × (d : ℕ) × (find_append_left (pre ++ ls) es i a
          ≡ ok (kept, i + d))
        × (kept ++ drop d es ≡ pre ++ graft es ls)
  unfolding graft
  overlap n i a pre ls [] hl he h = (
    pre ++ ls,
    0,
    unfold find_append_left in ap (λ k. ok (pre ++ ls, k)) (omega arith),
    append-nil _,
  )
  overlap n i a pre [] (e ∷ es) hl he h =
      let short : length (pre ++ []) ≡ length pre = ap length (append-nil pre) in
      (
        pre ++ [],
        0,
        find_append_left-past n (n + length pre) i a (pre ++ []) (e ∷ es) hl he (omega arith)
            ∙ ap (λ k. ok (pre ++ [], k)) (omega arith),
        rw (append-nil pre),
      )
  overlap n i a pre (l ∷ ls) (e ∷ es) hl he h = elim (Bool-cases (l.term == e.term)) [
    | inl match ↦
        let regroup : (pre ++ l ∷ []) ++ ls ≡ pre ++ l ∷ ls = append_assoc pre (l ∷ []) ls in
        let next : n + length (pre ++ l ∷ []) ≡ suc (n + length pre) =
          omega (arith, length-append pre (l ∷ [])) in
        let (kept, d, runs, joins) =
          overlap n (suc i) (suc i) (pre ++ l ∷ []) ls es (rw regroup hl) (rw next he.1)
            (inl refl) in
        (
          kept,
          suc d,
          find_append_left-here n i a pre ls es l e hl he.0
              ∙ rw (match, ← regroup, runs) (ap (λ k. ok (kept, k)) (omega arith)),
          rw match (joins ∙ append_assoc pre (l ∷ []) (graft es ls)),
        )
    | inr differ ↦ (
      pre,
      0,
      find_append_left-here n i a pre ls es l e hl he.0
          ∙ rw differ (ap (λ k. ok (pre, k)) (omega arith)),
      rw differ,
    )
  ]

  -- Entries in front of the base find no counterpart either.
  pub skip :
      (k n m i : ℕ) (log es : List (LogEntry C))
      → IsLog n log
      → Contiguous m es
      → m + k ≤ n
      → k ≤ length es
      → find_append_left log es i 0 ≡ find_append_left log (drop k es) (i + k) 0
  skip zero n m i log es hl he le short = ap (λ j. find_append_left log es j 0) (omega arith)
  skip (suc k) n m i log [] hl he le short = absurd (omega arith)
  skip (suc k) n m i log (e ∷ es) hl he le short =
      below
      ∙ skip k n (suc m) (suc i) log es hl he.1 (omega arith) (omega arith)
      ∙ ap (λ j. find_append_left log (drop k es) j 0) (omega arith)
    where
      below : find_append_left log (e ∷ es) i 0 ≡ find_append_left log es (suc i) 0
      below =
          unfold find_append_left in
          rw (get_log_at_index-below n e.index log hl (omega (arith, he.0)))

  drop-nil : (k : ℕ) → drop {A = LogEntry C} k [] ≡ []
  drop-nil zero = refl
  drop-nil (suc k) = refl

  pub drop-drop : (k d : ℕ) (xs : List (LogEntry C)) → drop d (drop k xs) ≡ drop (k + d) xs
  drop-drop zero d xs = ap (λ j. drop j xs) (omega arith)
  drop-drop (suc k) d [] = drop-nil d ∙ sym (drop-nil (suc k + d))
  drop-drop (suc k) d (x ∷ xs) =
      let e : suc (k + d) ≡ suc k + d = omega arith in
      drop-drop k d xs ∙ ap (λ j. drop j (x ∷ xs)) e
