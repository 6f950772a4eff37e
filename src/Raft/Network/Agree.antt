-- ===== src/Raft/Network/Agree.antt =====
-- Two logs whose entries were each made behind the one before: where they have one term at one
-- index, they are the same up to there.
use distributed_database.Prelude.{
  ℕ, zero, suc, ◌+◌, ◌-◌, ◌≤◌, ◌≡◌, refl, ap, sym, subst, ◌∙◌, ◌⊎◌, inl, inr, List, [], ◌∷◌, some,
  ok, get_elem?, get_elem?-drop, drop, arith, Has, Bool-cases, ltb, ltb→lt, ltb→ge,
}
use distributed_database.Raft.Types.{LogEntry}
use distributed_database.Raft.Log.{get_log_at_index, log_head}
use distributed_database.Raft.Log.Contiguous.{
  Contiguous, IsLog, Contiguous-drop, get_log_at_index-from, get_log_at_index-below,
}
use distributed_database.Raft.Network.{Birth, birth_of}
use distributed_database.Raft.Network.Chain.{Linked, Chain-Linked, Linked-drop}
use distributed_database.Raft.Network.Grown.{IsGrown}

module _ {C : Type 0} where
  -- No two entries were made at one index in one term.
  abbrev pub OneBirth : List (Birth C) → Type 0
  OneBirth born =
      (a b : Birth C) → Has a born → Has b born → a.index ≡ b.index → a.term ≡ b.term → a ≡ b

  same_entry : (e l : LogEntry C) (p q : ℕ) → birth_of e p ≡ birth_of l q → (e ≡ l) × (p ≡ q)
  same_entry e l p q h = (
    entry_eq e l (ap (λ (b : Birth C). b.term) h) (ap (λ (b : Birth C). b.index) h)
        (ap (λ (b : Birth C). b.command) h),
    ap (λ (b : Birth C). b.prev) h,
  )
    where
      entry_eq :
          (x y : LogEntry C) → x.term ≡ y.term → x.index ≡ y.index → x.command ≡ y.command → x ≡ y
      entry_eq x y a b c = cc

  heads_agree :
      (k n : ℕ) (born : List (Birth C)) (x y a b : LogEntry C) (es ls : List (LogEntry C))
      → OneBirth born
      → Contiguous n es
      → Contiguous n ls
      → Linked born (x ∷ es)
      → Linked born (y ∷ ls)
      → get_elem? (x ∷ es) k ≡ some a
      → get_elem? (y ∷ ls) k ≡ some b
      → a.term ≡ b.term
      → x.term ≡ y.term
  heads_agree zero n born x y a b es ls one ce cl he hl ae bl same = ground arith
  heads_agree (suc k) n born x y a b [] ls one ce cl he hl ae bl same = cc
  heads_agree (suc k) n born x y a b (e ∷ es) [] one ce cl he hl ae bl same = cc
  heads_agree (suc k) n born x y a b (e ∷ es) (l ∷ ls) one ce cl he hl ae bl same =
      let next = heads_agree k (suc n) born e l a b es ls one ce.1 cl.1 he.1 hl.1 ae bl same in
      (same_entry e l x.term y.term (one _ _ he.0 hl.0 (ce.0 ∙ sym cl.0) next)).1

  -- At every place `j` up to `k`, where they have one term, the terms are the same, and behind the heads the
  -- entries are.
  pub places_agree :
      (j k n : ℕ) (born : List (Birth C)) (a b x y : LogEntry C) (es ls : List (LogEntry C))
      → OneBirth born
      → Contiguous n es
      → Contiguous n ls
      → Linked born es
      → Linked born ls
      → j ≤ k
      → get_elem? es k ≡ some a
      → get_elem? ls k ≡ some b
      → a.term ≡ b.term
      → get_elem? es j ≡ some x
      → get_elem? ls j ≡ some y
      → (x.term ≡ y.term) × ((j ≡ 0) ⊎ (x ≡ y))
  places_agree j k n born a b x y [] ls one ce cl he hl le ae bl same xe yl = cc
  places_agree j k n born a b x y (e ∷ es) [] one ce cl he hl le ae bl same xe yl = cc
  places_agree zero k n born a b x y (e ∷ es) (l ∷ ls) one ce cl he hl le ae bl same xe yl =
      let heads = heads_agree k (suc n) born e l a b es ls one ce.1 cl.1 he hl ae bl same in
      (ground arith, inl refl)
  places_agree (suc j) zero n born a b x y (e ∷ es) (l ∷ ls) one ce cl he hl le ae bl same xe yl =
      absurd (omega arith)
  places_agree (suc zero) (suc k) n born a b x y (e ∷ []) (l ∷ ls) one ce cl he hl le ae bl same xe
        yl =
      cc
  places_agree (suc zero) (suc k) n born a b x y (e ∷ e' ∷ es) (l ∷ []) one ce cl he hl le ae bl
        same xe yl =
      cc
  places_agree (suc zero) (suc k) n born a b x y (e ∷ e' ∷ es) (l ∷ l' ∷ ls) one ce cl he hl le ae
        bl same xe yl =
      let next =
        heads_agree k (suc (suc n)) born e' l' a b es ls one ce.1.1 cl.1.1 he.1 hl.1 ae bl same in
      let (entries, _) =
        same_entry e' l' e.term l.term (one _ _ he.0 hl.0 (ce.1.0 ∙ sym cl.1.0) next) in
      let whole : x ≡ y = cc in (ap (λ (v : LogEntry C). v.term) whole, inr whole)
  places_agree (suc (suc j)) (suc k) n born a b x y (e ∷ es) (l ∷ ls) one ce cl he hl le ae bl same
        xe yl =
      let (terms, rest) =
        places_agree (suc j) k (suc n) born a b x y es ls one ce.1 cl.1
          (Chain-Linked born e.term es he) (Chain-Linked born l.term ls hl) (omega arith) ae bl same
          xe yl in
      (terms, ground (arith, rest))

  -- Where an entry that is found under an index stands.
  pub place_of :
      (n k : ℕ) (log : List (LogEntry C)) (a : LogEntry C)
      → IsLog n log
      → get_log_at_index log k ≡ ok (some a)
      → (n ≤ k) × (get_elem? log (k - n) ≡ some a)
  place_of n k log a l found = elim (Bool-cases (ltb k n)) [
    | inl below ↦ cc (get_log_at_index-below n k log l (ltb→lt k n below))
    | inr from ↦ let le = ltb→ge k n from in (le, cc (get_log_at_index-from n k log l le))
  ]

  head_of :
      (n k : ℕ) (log : List (LogEntry C)) (a : LogEntry C)
      → k ≡ n
      → get_elem? log (k - n) ≡ some a
      → log_head log ≡ ok a
  head_of n k [] a first at = cc
  head_of n k (x ∷ xs) a first at =
      let nothing : k - n ≡ 0 = omega arith in
      let same : x ≡ a = head_is (subst (λ d. get_elem? (x ∷ xs) d ≡ some a) nothing at) in
      ap ok same
    where
      head_is : get_elem? (x ∷ xs) 0 ≡ some a → x ≡ a
      head_is h = ground arith

  moved_place :
      (n c k : ℕ) (log : List (LogEntry C)) (a : LogEntry C)
      → n ≤ c
      → c ≤ k
      → get_elem? log (k - n) ≡ some a
      → get_elem? (drop (c - n) log) (k - c) ≡ some a
  moved_place n c k log a le le' at =
      let place : (c - n) + (k - c) ≡ k - n = omega arith in
      get_elem?-drop (c - n) log (k - c) ∙ ap (get_elem? log) place ∙ at

  moved_counts :
      (n c : ℕ) (log : List (LogEntry C)) → IsLog n log → n ≤ c → Contiguous c (drop (c - n) log)
  moved_counts n c log l le =
      let place : n + (c - n) ≡ c = omega arith in
      subst (λ d. Contiguous d (drop (c - n) log)) place (Contiguous-drop (c - n) n log l.counts)

  -- Two logs of entries that were made one behind the other, from the index `c` on, which is the
  -- base of one of them.
  pub logs_agree :
      (c k m : ℕ) (born : List (Birth C)) (log log' : List (LogEntry C)) (a b x y : LogEntry C)
      → OneBirth born
      → (g : IsGrown born log) → (g' : IsGrown born log') → g.base ≤ c
      → g'.base ≤ c
      → (c ≡ g.base) ⊎ (c ≡ g'.base)
      → c ≤ m
      → m ≤ k
      → get_elem? log (k - g.base) ≡ some a
      → get_elem? log' (k - g'.base) ≡ some b
      → a.term ≡ b.term
      → get_elem? log (m - g.base) ≡ some x
      → get_elem? log' (m - g'.base) ≡ some y
      → (x.term ≡ y.term) × ((log_head log ≡ ok x) ⊎ (log_head log' ≡ ok y) ⊎ (x ≡ y))
  logs_agree c k m born log log' a b x y one g g' le le' which from up at at' same here here' =
      let es = drop (c - g.base) log in
      let ls = drop (c - g'.base) log' in
      let (terms, rest) =
        places_agree (m - c) (k - c) c born a b x y es ls one
          (moved_counts g.base c log g.is_log le) (moved_counts g'.base c log' g'.is_log le')
          (Linked-drop (c - g.base) born log g.linked)
          (Linked-drop (c - g'.base) born log' g'.linked) (omega arith)
          (moved_place g.base c k log a le (omega arith) at)
          (moved_place g'.base c k log' b le' (omega arith) at') same
          (moved_place g.base c m log x le from here)
          (moved_place g'.base c m log' y le' from here') in
      (
        terms,
        elim rest [
          | inr whole ↦ inr (inr whole)
          | inl first ↦ elim which [
            | inl mine ↦ inl (head_of g.base m log x (omega arith) here)
            | inr other ↦ inr (inl (head_of g'.base m log' y (omega arith) here'))
          ]
        ],
      )
