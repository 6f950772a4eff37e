-- ===== src/Raft/Log/Contiguous.antt =====
-- Logs whose indices count up, and what the log's functions do on them.
use distributed_database.Prelude.{
  ℕ, zero, suc, ◌+◌, ◌-◌, ◌≤◌, ◌<◌, ◌≡◌, refl, subst, List, [], ◌∷◌, ◌++◌, none, some, ok, length,
  get_elem?, take, drop, arith, ge→ltb, get_elem?-lt,
}
use distributed_database.Raft.Types.{LogEntry}
use distributed_database.Raft.Log.{
  log_head, log_tail, log_index_to_subscript, get_log_at_index, slice_from, slice_to,
}

module _ {ℓ} {C : Type ℓ} where
  -- The indices are `n`, `n + 1`, and so on.
  abbrev pub Contiguous : ℕ → List (LogEntry C) → Type 0
  Contiguous n [] = Unit
  Contiguous n (e ∷ es) = (e.index ≡ n) × Contiguous (suc n) es

  -- A log with base `n`: not empty, and its indices count up from `n`.
  pub record IsLog (n : ℕ) (log : List (LogEntry C)) : Type 0 where
    pub nonempty : 0 < length log
    pub counts : Contiguous n log

  pub Contiguous-append :
      (n : ℕ) (xs ys : List (LogEntry C))
      → Contiguous n xs
      → Contiguous (n + length xs) ys
      → Contiguous n (xs ++ ys)
  Contiguous-append n [] ys hx hy =
      let e : n + 0 ≡ n = omega arith in subst (λ k. Contiguous k ys) e hy
  Contiguous-append n (x ∷ xs) ys hx hy =
      let e : n + suc (length xs) ≡ suc n + length xs = omega arith in
      (hx.0, Contiguous-append (suc n) xs ys hx.1 (subst (λ k. Contiguous k ys) e hy))

  pub Contiguous-take :
      (k n : ℕ) (xs : List (LogEntry C)) → Contiguous n xs → Contiguous n (take k xs)
  Contiguous-take zero n xs h = tt
  Contiguous-take (suc k) n [] h = tt
  Contiguous-take (suc k) n (x ∷ xs) h = (h.0, Contiguous-take k (suc n) xs h.1)

  pub Contiguous-drop :
      (k n : ℕ) (xs : List (LogEntry C)) → Contiguous n xs → Contiguous (n + k) (drop k xs)
  Contiguous-drop zero n xs h = let e : n ≡ n + 0 = omega arith in subst (λ j. Contiguous j xs) e h
  Contiguous-drop (suc k) n [] h = tt
  Contiguous-drop (suc k) n (x ∷ xs) h =
      let e : suc n + k ≡ n + suc k = omega arith in
      subst (λ j. Contiguous j (drop k xs)) e (Contiguous-drop k (suc n) xs h.1)

  pub Contiguous-right :
      (n : ℕ) (xs ys : List (LogEntry C)) → Contiguous n (xs ++ ys) → Contiguous (n + length xs) ys
  Contiguous-right n [] ys h = let e : n ≡ n + 0 = omega arith in subst (λ k. Contiguous k ys) e h
  Contiguous-right n (x ∷ xs) ys h =
      let e : suc n + length xs ≡ n + suc (length xs) = omega arith in
      subst (λ k. Contiguous k ys) e (Contiguous-right (suc n) xs ys h.1)

  -- The entry at place `k` has the index `n + k`.
  pub index-get_elem? :
      (n k : ℕ) (xs : List (LogEntry C)) (e : LogEntry C)
      → Contiguous n xs
      → get_elem? xs k ≡ some e
      → e.index ≡ n + k
  index-get_elem? n k [] e h g = cc
  index-get_elem? n zero (x ∷ xs) e h g = ground arith
  index-get_elem? n (suc k) (x ∷ xs) e h g = omega (arith, index-get_elem? (suc n) k xs e h.1 g)

  -- The indices of a contiguous list are all below its end.
  pub head-index :
      (n : ℕ) (x : LogEntry C) (xs : List (LogEntry C)) → IsLog n (x ∷ xs) → x.index ≡ n
  head-index n x xs h = h.counts.0

module _ {ℓ} {C : Type ℓ} where
  pub get_log_at_index-below :
      (n i : ℕ) (log : List (LogEntry C)) → IsLog n log → i < n → get_log_at_index log i ≡ ok none
  unfolding get_log_at_index
  get_log_at_index-below n i [] h lt = absurd (omega arith)
  get_log_at_index-below n i (x ∷ xs) h lt = ground (arith, h.counts.0)

  pub get_log_at_index-from :
      (n i : ℕ) (log : List (LogEntry C))
      → IsLog n log
      → n ≤ i
      → get_log_at_index log i ≡ ok (get_elem? log (i - n))
  unfolding get_log_at_index
  get_log_at_index-from n i [] h le = absurd (omega arith)
  get_log_at_index-from n i (x ∷ xs) h le = rw (h.counts.0, ge→ltb i n le)

  pub log_index_to_subscript-from :
      (n i : ℕ) (log : List (LogEntry C))
      → IsLog n log
      → n ≤ i
      → log_index_to_subscript log i ≡ ok (i - n)
  unfolding log_index_to_subscript
  log_index_to_subscript-from n i [] h le = absurd (omega arith)
  log_index_to_subscript-from n i (x ∷ xs) h le = rw (h.counts.0, ge→ltb i n le)

  -- The last entry is there, and has the index of the end.
  pub log_tail-index :
      (n : ℕ) (log : List (LogEntry C))
      → IsLog n log
      → (t : LogEntry C) × (log_tail log ≡ ok t)
        × (get_elem? log (length log - 1) ≡ some t)
        × (t.index + 1 ≡ n + length log)
  unfolding log_tail
  log_tail-index n [] h = absurd (omega arith)
  log_tail-index n (x ∷ xs) h =
      let (t, at) = get_elem?-lt (x ∷ xs) (length xs) (omega arith) in
      let place : suc (length xs) - 1 ≡ length xs = omega arith in
      (t, rw at, rw place at, omega (arith, index-get_elem? n (length xs) (x ∷ xs) t h.counts at))

  pub log_head-index :
      (n : ℕ) (log : List (LogEntry C))
      → IsLog n log
      → (t : LogEntry C) × (log_head log ≡ ok t) × (t.index ≡ n)
  log_head-index n [] h = absurd (omega arith)
  log_head-index n (x ∷ xs) h = (x, refl, h.counts.0)

  pub slice_to-le :
      (k : ℕ) (log : List (LogEntry C)) → k ≤ length log → slice_to log k ≡ ok (take k log)
  unfolding slice_to
  slice_to-le k log h = ground arith

  pub slice_from-le :
      (k : ℕ) (log : List (LogEntry C)) → k ≤ length log → slice_from log k ≡ ok (drop k log)
  unfolding slice_from
  slice_from-le k log h = ground arith
