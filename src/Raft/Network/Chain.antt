-- ===== src/Raft/Network/Chain.antt =====
-- Entries each of which was made behind the one before it.
use distributed_database.Prelude.{
  ℕ, zero, suc, ◌≡◌, sym, subst, inl, inr, List, [], ◌∷◌, ◌++◌, some, get_elem?, take, drop, arith,
  ==_iff, ◌==◌, Bool-cases, Has,
}
use distributed_database.Raft.Types.{LogEntry}
use distributed_database.Raft.Append.Graft.{graft}
use distributed_database.Raft.Network.{Birth, birth_of, end_term}

module _ {C : Type 0} where
  -- The entries, behind one of term `p`.
  abbrev pub Chain : List (Birth C) → ℕ → List (LogEntry C) → Type 0
  Chain born p [] = Unit
  Chain born p (e ∷ es) = Has (birth_of e p) born × Chain born e.term es

  -- A log, or any entries, of which each but the first was made behind the one before it.
  abbrev pub Linked : List (Birth C) → List (LogEntry C) → Type 0
  Linked born [] = Unit
  Linked born (e ∷ es) = Chain born e.term es

  pub Chain-more :
      (b : Birth C) (born : List (Birth C)) (p : ℕ) (es : List (LogEntry C))
      → Chain born p es
      → Chain (b ∷ born) p es
  Chain-more b born p [] h = tt
  Chain-more b born p (e ∷ es) h = (inr h.0, Chain-more b born e.term es h.1)

  -- Entries that were made stay made.
  Chain-later :
      (born later : List (Birth C)) (p : ℕ) (es : List (LogEntry C))
      → ((b : Birth C) → Has b born → Has b later)
      → Chain born p es
      → Chain later p es
  Chain-later born later p [] more h = tt
  Chain-later born later p (e ∷ es) more h =
      (more (birth_of e p) h.0, Chain-later born later e.term es more h.1)

  pub Linked-later :
      (born later : List (Birth C)) (es : List (LogEntry C))
      → ((b : Birth C) → Has b born → Has b later)
      → Linked born es
      → Linked later es
  Linked-later born later [] more h = tt
  Linked-later born later (e ∷ es) more h = Chain-later born later e.term es more h

  pub Chain-append :
      (born : List (Birth C)) (p : ℕ) (es : List (LogEntry C)) (e : LogEntry C)
      → Chain born p es
      → Has (birth_of e (end_term p es)) born
      → Chain born p (es ++ e ∷ [])
  Chain-append born p [] e h new = (new, tt)
  Chain-append born p (x ∷ es) e h new = (h.0, Chain-append born x.term es e h.1 new)

  pub Chain-Linked :
      (born : List (Birth C)) (p : ℕ) (es : List (LogEntry C)) → Chain born p es → Linked born es
  Chain-Linked born p [] h = tt
  Chain-Linked born p (e ∷ es) h = h.1

  pub Linked-drop :
      (k : ℕ) (born : List (Birth C)) (es : List (LogEntry C))
      → Linked born es
      → Linked born (drop k es)
  Linked-drop zero born es h = h
  Linked-drop (suc k) born [] h = tt
  Linked-drop (suc k) born (e ∷ es) h = Linked-drop k born es (Chain-Linked born e.term es h)

  -- What stands behind the entry at place `k`.
  pub Chain-behind :
      (k : ℕ) (born : List (Birth C)) (es : List (LogEntry C)) (e : LogEntry C)
      → Linked born es
      → get_elem? es k ≡ some e
      → Chain born e.term (drop (suc k) es)
  Chain-behind k born [] e h at = cc
  Chain-behind zero born (x ∷ es) e h at =
      let same : x ≡ e = ground arith in subst (λ (y : LogEntry C). Chain born y.term es) same h
  Chain-behind (suc k) born (x ∷ es) e h at =
      Chain-behind k born es e (Chain-Linked born x.term es h) at

  Chain-graft :
      (born : List (Birth C)) (p : ℕ) (es ls : List (LogEntry C))
      → Chain born p es
      → Chain born p ls
      → Chain born p (graft es ls)
  unfolding graft
  Chain-graft born p [] ls he hl = hl
  Chain-graft born p (e ∷ es) [] he hl = he
  Chain-graft born p (e ∷ es) (l ∷ ls) he hl = elim (Bool-cases (l.term == e.term)) [
    | inr differ ↦ rw differ he
    | inl match ↦
        let same : e.term ≡ l.term = sym ((==_iff l.term e.term).0 match) in
        rw match (hl.0, Chain-graft born l.term es ls (subst (λ t. Chain born t es) same he.1) hl.1)
  ]

  -- The graft on the very first entry, which the other side may replace.
  pub Linked-graft :
      (born : List (Birth C)) (es ls : List (LogEntry C))
      → Linked born es
      → Linked born ls
      → Linked born (graft es ls)
  unfolding graft
  Linked-graft born [] ls he hl = hl
  Linked-graft born (e ∷ es) [] he hl = he
  Linked-graft born (e ∷ es) (l ∷ ls) he hl = elim (Bool-cases (l.term == e.term)) [
    | inr differ ↦ rw differ he
    | inl match ↦
        let same : e.term ≡ l.term = sym ((==_iff l.term e.term).0 match) in
        rw match (Chain-graft born l.term es ls (subst (λ t. Chain born t es) same he) hl)
  ]

  -- The graft behind the first `k` entries.
  pub Chain-splice :
      (k : ℕ) (born : List (Birth C)) (p q : ℕ) (es ls : List (LogEntry C))
      → Chain born p ls
      → Chain born q es
      → end_term p (take k ls) ≡ q
      → Chain born p (take k ls ++ graft es (drop k ls))
  Chain-splice zero born p q es ls hl he last =
      Chain-graft born p es ls (subst (λ t. Chain born t es) (sym last) he) hl
  Chain-splice (suc k) born p q es [] hl he last =
      Chain-graft born p es [] (subst (λ t. Chain born t es) (sym last) he) tt
  Chain-splice (suc k) born p q es (l ∷ ls) hl he last =
      (hl.0, Chain-splice k born l.term q es ls hl.1 he last)

  pub end_term-take :
      (k : ℕ) (x e : LogEntry C) (ls : List (LogEntry C))
      → get_elem? (x ∷ ls) k ≡ some e
      → end_term x.term (take k ls) ≡ e.term
  end_term-take zero x e ls at = ground arith
  end_term-take (suc k) x e [] at = cc
  end_term-take (suc k) x e (l ∷ ls) at = end_term-take k l e ls at
