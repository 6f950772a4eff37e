-- ===== src/Raft/Append/Agreement.antt =====
-- What AppendEntries does to single entries of the log.
use distributed_database.Prelude.{
  ℕ, zero, suc, ◌+◌, ◌-◌, ◌≤◌, ◌<◌, ◌≡◌, refl, ap, sym, ◌∙◌, List, [], ◌∷◌, some, inl, inr, length,
  get_elem?, get_elem?-drop, lt_of_get_elem?, drop, arith, ==_iff, ◌==◌, Bool-cases, ltb, ltb→lt,
  ltb→ge,
}
use distributed_database.Raft.Types.{LogEntry}
use distributed_database.Raft.Append.Graft.{graft}
use distributed_database.Raft.Append.Merged.{merged, drop-merged, get_elem?-merged_before}

module _ {ℓ} {C : Type ℓ} where
  -- Where both lists have an entry, at place `k`, in one term, it is one entry.
  abbrev Agree : List (LogEntry C) → List (LogEntry C) → Type ℓ
  Agree es ls =
      (k : ℕ) (l e : LogEntry C)
      → get_elem? ls k ≡ some l
      → get_elem? es k ≡ some e
      → l.term ≡ e.term
      → l ≡ e

  -- Up to place `j`, where both have an entry, it is in one term.
  abbrev OneTerm : ℕ → List (LogEntry C) → List (LogEntry C) → Type ℓ
  OneTerm j es ls =
      (k : ℕ) (l e : LogEntry C)
      → k ≤ j
      → get_elem? ls k ≡ some l
      → get_elem? es k ≡ some e
      → l.term ≡ e.term

  get_elem?-graft :
      (es ls : List (LogEntry C)) (j : ℕ) (e : LogEntry C)
      → Agree es ls
      → get_elem? es j ≡ some e
      → get_elem? (graft es ls) j ≡ some e
  unfolding graft
  get_elem?-graft [] ls j e h at = cc
  get_elem?-graft (x ∷ es) [] j e h at = at
  get_elem?-graft (x ∷ es) (l ∷ ls) j e h at = elim (Bool-cases (l.term == x.term)) [
    | inr differ ↦ rw differ at
    | inl match ↦ rw match (
        under j (h 0 l x refl refl ((==_iff l.term x.term).0 match)) at
          (λ k at'. get_elem?-graft es ls k e (λ k'. h (suc k')) at'))
  ]
    where
      under :
          (j : ℕ)
          → l ≡ x
          → get_elem? (x ∷ es) j ≡ some e
          → ((k : ℕ) → get_elem? es k ≡ some e → get_elem? (graft es ls) k ≡ some e)
          → get_elem? (l ∷ graft es ls) j ≡ some e
      under zero same at rest = cc
      under (suc j) same at rest = rest j at

  get_elem?-graft_local :
      (es ls : List (LogEntry C)) (j : ℕ) (l : LogEntry C)
      → OneTerm j es ls
      → get_elem? ls j ≡ some l
      → get_elem? (graft es ls) j ≡ some l
  unfolding graft
  get_elem?-graft_local [] ls j l h at = at
  get_elem?-graft_local (x ∷ es) [] j l h at = cc
  get_elem?-graft_local (x ∷ es) (y ∷ ls) zero l h at =
      rw ((==_iff y.term x.term).1 (h 0 y x (omega arith) refl refl)) at
  get_elem?-graft_local (x ∷ es) (y ∷ ls) (suc j) l h at =
      rw ((==_iff y.term x.term).1 (h 0 y x (omega arith) refl refl))
        (get_elem?-graft_local es ls j l (λ k l' e' le. h (suc k) l' e' (omega arith)) at)

  -- The Log Matching Property between a log with base `n` and entries from index `m` on: two
  -- entries of one index and one term are the same entry.
  abbrev pub LogMatching : ℕ → ℕ → List (LogEntry C) → List (LogEntry C) → Type ℓ
  LogMatching n m log es =
      (i : ℕ) (l e : LogEntry C)
      → n ≤ i
      → m ≤ i
      → get_elem? log (i - n) ≡ some l
      → get_elem? es (i - m) ≡ some e
      → l.term ≡ e.term
      → l ≡ e

  -- Up to index `c` the entries from index `m` on have the terms of those that the log has there.
  abbrev pub SameTermsTo : ℕ → ℕ → ℕ → List (LogEntry C) → List (LogEntry C) → Type ℓ
  SameTermsTo c n m log es =
      (i : ℕ) (l e : LogEntry C)
      → i ≤ c
      → n ≤ i
      → m ≤ i
      → get_elem? log (i - n) ≡ some l
      → get_elem? es (i - m) ≡ some e
      → l.term ≡ e.term

  -- With the Log Matching Property, every entry of the message that the log reaches is in it after
  -- the merge.
  pub get_elem?-merged :
      (n m i : ℕ) (log es : List (LogEntry C)) (e : LogEntry C)
      → m ≤ n + length log
      → LogMatching n m log es
      → n ≤ i
      → m ≤ i
      → get_elem? es (i - m) ≡ some e
      → get_elem? (merged n m log es) (i - n) ≡ some e
  get_elem?-merged n m i log es e close matching from from' at =
      let j = (i - n) - (m - n) in
      let reach : n < m + length es = omega (arith, lt_of_get_elem? es (i - m) e at) in
      let place : i - n ≡ (m - n) + j = omega arith in
      let at' : get_elem? (drop (n - m) es) j ≡ some e =
        get_elem?-drop (n - m) es j ∙ ap (get_elem? es) (index_of j) ∙ at in
      rw place (
        sym (get_elem?-drop (m - n) (merged n m log es) j)
        ∙ ap (λ xs. get_elem? xs j) (drop-merged n m log es close reach)
        ∙ get_elem?-graft (drop (n - m) es) (drop (m - n) log) j e aligned at')
    where
      index_of : (j : ℕ) → (n - m) + ((i - n) - (m - n)) ≡ i - m
      index_of j = omega arith

      aligned : Agree (drop (n - m) es) (drop (m - n) log)
      aligned k l e' is_l is_e same =
          matching (n + ((m - n) + k)) l e' (omega arith) (omega arith)
            (ap (get_elem? log) (let p : n + ((m - n) + k) - n ≡ (m - n) + k = omega arith in p)
              ∙ sym (get_elem?-drop (m - n) log k)
              ∙ is_l)
            (ap (get_elem? es) (let p : n + ((m - n) + k) - m ≡ (n - m) + k = omega arith in p)
              ∙ sym (get_elem?-drop (n - m) es k)
              ∙ is_e)
            same

  -- What the log has up to index `c` stays, if the message has the same terms there.
  pub get_elem?-merged_kept :
      (n m c i : ℕ) (log es : List (LogEntry C)) (l : LogEntry C)
      → m ≤ n + length log
      → SameTermsTo c n m log es
      → i ≤ c
      → n ≤ i
      → get_elem? log (i - n) ≡ some l
      → get_elem? (merged n m log es) (i - n) ≡ some l
  get_elem?-merged_kept n m c i log es l close agrees known from at =
      elim (Bool-cases (ltb n (m + length es))) [
        | inr short ↦ unfold merged in rw short at
        | inl reach ↦ elim (Bool-cases (ltb (i - n) (m - n))) [
          | inl before ↦ get_elem?-merged_before n m (i - n) log es (ltb→lt _ _ before) close ∙ at
          | inr late ↦
              let j = (i - n) - (m - n) in
              let place : i - n ≡ (m - n) + j = omega (arith, ltb→ge _ _ late) in
              let at' : get_elem? (drop (m - n) log) j ≡ some l =
                get_elem?-drop (m - n) log j ∙ ap (get_elem? log) (sym place) ∙ at in
              rw place (
                sym (get_elem?-drop (m - n) (merged n m log es) j)
                ∙ ap (λ xs. get_elem? xs j) (drop-merged n m log es close (ltb→lt _ _ reach))
                ∙ get_elem?-graft_local (drop (n - m) es) (drop (m - n) log) j l
                    (aligned j (omega arith)) at')
        ]
      ]
    where
      aligned : (j : ℕ) → (m - n) + j ≤ i - n → OneTerm j (drop (n - m) es) (drop (m - n) log)
      aligned j bound k l' e' le is_l is_e =
          agrees (n + ((m - n) + k)) l' e' (omega arith) (omega arith) (omega arith)
            (ap (get_elem? log) (let p : n + ((m - n) + k) - n ≡ (m - n) + k = omega arith in p)
              ∙ sym (get_elem?-drop (m - n) log k)
              ∙ is_l)
            (ap (get_elem? es) (let p : n + ((m - n) + k) - m ≡ (n - m) + k = omega arith in p)
              ∙ sym (get_elem?-drop (n - m) es k)
              ∙ is_e)
