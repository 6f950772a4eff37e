-- ===== src/Raft/Append/Graft.antt =====
-- What a merge of entries into a log means, told without subscripts: both lists start at one index.
use distributed_database.Prelude.{
  ℕ, zero, suc, ◌+◌, ◌≤◌, ◌≡◌, refl, ap, List, [], ◌∷◌, length, take, arith, ==_iff, ◌==◌,
  if◌then◌else◌, Bool-cases, inl, inr,
}
use distributed_database.Raft.Types.{LogEntry}
use distributed_database.Raft.Log.Contiguous.{Contiguous}

module _ {ℓ} {C : Type ℓ} where
  -- The local entries stay as long as the terms agree; from the first that does not, they give way.
  unfoldable pub graft : List (LogEntry C) → List (LogEntry C) → List (LogEntry C)
  graft [] local = local
  graft (e ∷ es) [] = e ∷ es
  graft (e ∷ es) (l ∷ ls) = let rest = graft es ls in if l.term == e.term then l ∷ rest else e ∷ es

  pub Contiguous-graft :
      (n : ℕ) (es ls : List (LogEntry C))
      → Contiguous n es
      → Contiguous n ls
      → Contiguous n (graft es ls)
  unfolding graft
  Contiguous-graft n [] ls he hl = hl
  Contiguous-graft n (e ∷ es) [] he hl = he
  Contiguous-graft n (e ∷ es) (l ∷ ls) he hl = elim (Bool-cases (l.term == e.term)) [
    | inl same ↦ rw same (hl.0, Contiguous-graft (suc n) es ls he.1 hl.1)
    | inr differ ↦ rw differ he
  ]

  pub length-graft-ge : (es ls : List (LogEntry C)) → length es ≤ length (graft es ls)
  unfolding graft
  length-graft-ge [] ls = omega arith
  length-graft-ge (e ∷ es) [] = omega arith
  length-graft-ge (e ∷ es) (l ∷ ls) = ground (arith, length-graft-ge es ls)

  pub length-graft-le : (es ls : List (LogEntry C)) → length (graft es ls) ≤ length es + length ls
  unfolding graft
  length-graft-le [] ls = omega arith
  length-graft-le (e ∷ es) [] = omega arith
  length-graft-le (e ∷ es) (l ∷ ls) = ground (arith, length-graft-le es ls)

  -- Two entries at one index agree as the Log Matching Property has it: if their terms are the same,
  -- so are they.
  abbrev pub Matching : List (LogEntry C) → List (LogEntry C) → Type ℓ
  Matching [] ls = Unit
  Matching (e ∷ es) [] = Unit
  Matching (e ∷ es) (l ∷ ls) = (l.term ≡ e.term → l ≡ e) × Matching es ls

  -- Then the merged list begins with the message's entries.
  pub take-graft :
      (es ls : List (LogEntry C)) → Matching es ls → take (length es) (graft es ls) ≡ es
  unfolding graft
  take-graft [] ls h = refl
  take-graft (e ∷ es) [] h = ap (λ t. e ∷ t) (take-length es)
    where
      take-length : (xs : List (LogEntry C)) → take (length xs) xs ≡ xs
      take-length [] = refl
      take-length (x ∷ xs) = ap (λ t. x ∷ t) (take-length xs)
  take-graft (e ∷ es) (l ∷ ls) h = elim (Bool-cases (l.term == e.term)) [
    | inl same ↦ rw same (cc (h.0 ((==_iff _ _).0 same), take-graft es ls h.1))
    | inr differ ↦ rw differ (ap (λ t. e ∷ t) (take-length es))
  ]
    where
      take-length : (xs : List (LogEntry C)) → take (length xs) xs ≡ xs
      take-length [] = refl
      take-length (x ∷ xs) = ap (λ t. x ∷ t) (take-length xs)

  -- The first `k` local entries have the terms of the message's entries at their places.
  abbrev pub SameTerms : ℕ → List (LogEntry C) → List (LogEntry C) → Type 0
  SameTerms zero es ls = Unit
  SameTerms (suc k) [] ls = Unit
  SameTerms (suc k) (e ∷ es) [] = Unit
  SameTerms (suc k) (e ∷ es) (l ∷ ls) = (l.term ≡ e.term) × SameTerms k es ls

  -- A merge gives up no entry of such a prefix.
  pub take-graft_local :
      (k : ℕ) (es ls : List (LogEntry C))
      → SameTerms k es ls
      → k ≤ length ls
      → take k (graft es ls) ≡ take k ls
  unfolding graft
  take-graft_local zero es ls h le = refl
  take-graft_local (suc k) [] ls h le = refl
  take-graft_local (suc k) (e ∷ es) [] h le = absurd (omega arith)
  take-graft_local (suc k) (e ∷ es) (l ∷ ls) h le =
      rw ((==_iff l.term e.term).1 h.0)
        (ap (λ t. l ∷ t) (take-graft_local k es ls h.1 (omega arith)))

  -- If all the terms agree, no local entry is lost.
  pub graft-keeps :
      (es ls : List (LogEntry C)) → SameTerms (length ls) es ls → length ls ≤ length (graft es ls)
  unfolding graft
  graft-keeps [] ls h = omega arith
  graft-keeps (e ∷ es) [] h = omega arith
  graft-keeps (e ∷ es) (l ∷ ls) h = ground (arith, graft-keeps es ls h.1)
