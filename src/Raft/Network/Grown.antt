-- ===== src/Raft/Network/Grown.antt =====
-- Logs that only AppendEntries, Start and snapshots have built.
use distributed_database.Prelude.{
  ℕ, suc, ◌+◌, ◌-◌, ◌≤◌, ◌<◌, ◌≡◌, ◌∙◌, inl, inr, List, [], ◌∷◌, ◌++◌, some, length, get_elem?,
  get_elem?-lt, take, drop, arith, ltb, Bool-cases, ltb→lt, ltb→ge, Has,
}
use distributed_database.Raft.Types.{LogEntry, AppendEntriesArgs}
use distributed_database.Raft.Log.Contiguous.{Contiguous, IsLog, Contiguous-append}
use distributed_database.Raft.Append.Graft.{graft}
use distributed_database.Raft.Append.Merged.{merged, IsLog-merged, get_elem?-merged_before}
use distributed_database.Raft.Append.Handler.{HasPrev, HasPrev-close}
use distributed_database.Raft.Network.{Birth, birth_of, tail_term}
use distributed_database.Raft.Network.Chain.{
  Chain, Linked, Chain-Linked, Linked-later, Chain-append, Linked-drop, Linked-graft, Chain-splice,
  end_term-take,
}

module _ {C : Type 0} where
  abbrev pub head_term : List (LogEntry C) → ℕ
  head_term [] = 0
  head_term (e ∷ es) = e.term

  -- The index behind the last entry.
  abbrev pub end_of : List (LogEntry C) → ℕ
  end_of [] = 0
  end_of (e ∷ es) = suc (e.index + length es)

  -- A log that counts up, and of which each entry but the first was made behind the one before it.
  pub record IsGrown (born : List (Birth C)) (log : List (LogEntry C)) : Type 0 where
    pub base : ℕ
    pub is_log : IsLog base log
    pub linked : Linked born log
    pub blank : base ≡ 0 → head_term log ≡ 0

  pub end_of_lem : (n : ℕ) (log : List (LogEntry C)) → IsLog n log → end_of log ≡ n + length log
  end_of_lem n [] h = absurd (omega (arith, h.nonempty))
  end_of_lem n (e ∷ es) h = omega (arith, h.counts.0)

  pub IsGrown-later :
      (born later : List (Birth C)) (log : List (LogEntry C))
      → ((b : Birth C) → Has b born → Has b later)
      → IsGrown born log
      → IsGrown later log
  IsGrown-later born later log more g = record {
    base = g.base;
    is_log = g.is_log;
    linked = Linked-later born later log more g.linked;
    blank = g.blank;
  }

  -- A new entry at the end.
  pub append-IsGrown :
      (born : List (Birth C)) (log : List (LogEntry C)) (e : LogEntry C)
      → IsGrown born log
      → e.index ≡ end_of log
      → Has (birth_of e (tail_term log)) born
      → IsGrown born (log ++ e ∷ [])
  append-IsGrown born [] e g place new = absurd (omega (arith, g.is_log.nonempty))
  append-IsGrown born (x ∷ xs) e g place new =
      let end : e.index ≡ g.base + length (x ∷ xs) = place ∙ end_of_lem g.base (x ∷ xs) g.is_log in
      record {
        base = g.base;
        is_log = record {
          nonempty = omega arith;
          counts = Contiguous-append g.base (x ∷ xs) (e ∷ []) g.is_log.counts (end, tt);
        };
        linked = Chain-append born x.term xs e g.linked new;
        blank = g.blank;
      }

  -- The merge behind an entry of the log that has the term of the message's previous one.
  late-Linked :
      (k prev n m : ℕ) (born : List (Birth C)) (log es : List (LogEntry C))
      → Linked born log
      → Chain born prev es
      → m - n ≡ suc k
      → ((e : LogEntry C) → get_elem? log k ≡ some e → e.term ≡ prev)
      → k < length log
      → Linked born (take (m - n) log ++ graft (drop (n - m) es) (drop (m - n) log))
  late-Linked k prev n m born [] es hl he late at lt = absurd (omega arith)
  late-Linked k prev n m born (x ∷ ls) es hl he late at lt =
      let whole : n - m ≡ 0 = omega arith in
      let (e, here) = get_elem?-lt (x ∷ ls) k lt in
      rw (late, whole)
        (Chain-splice k born x.term prev es ls hl he (end_term-take k x e ls here ∙ at e here))

  early-Linked :
      (n m : ℕ) (born : List (Birth C)) (log es : List (LogEntry C))
      → Linked born log
      → Linked born es
      → m ≤ n
      → Linked born (take (m - n) log ++ graft (drop (n - m) es) (drop (m - n) log))
  early-Linked n m born log es hl he early =
      let none_before : m - n ≡ 0 = omega arith in
      rw none_before (Linked-graft born (drop (n - m) es) log (Linked-drop (n - m) born es he) hl)

  pub head_term-get :
      (log : List (LogEntry C)) (e : LogEntry C) → get_elem? log 0 ≡ some e → head_term log ≡ e.term
  head_term-get [] e at = cc
  head_term-get (x ∷ xs) e at = ground arith

  merged-Linked :
      (n : ℕ) (born : List (Birth C)) (log : List (LogEntry C)) (args : AppendEntriesArgs C)
      → IsLog n log
      → Linked born log
      → (n ≡ 0 → head_term log ≡ 0)
      → Chain born args.prev_log_term args.entries
      → (args.prev_log_index ≡ 0 → args.prev_log_term ≡ 0)
      → HasPrev n log args
      → Linked born (merged n (suc args.prev_log_index) log args.entries)
  unfolding merged
  merged-Linked n born log args l linked blank chain start prev =
      let m = suc args.prev_log_index in
      let close = HasPrev-close n log args l prev in
      elim (Bool-cases (ltb n (m + length args.entries))) [
        | inr short ↦ rw short linked
        | inl reach ↦ rw reach (elim (Bool-cases (ltb n m)) [
          | inr early ↦
              early-Linked n m born log args.entries linked
                (Chain-Linked born args.prev_log_term args.entries chain) (ltb→ge n m early)
          | inl late ↦
              late-Linked (args.prev_log_index - n) args.prev_log_term n m born log args.entries
                linked chain (omega (arith, ltb→lt n m late))
                (same prev (omega (arith, ltb→lt n m late))) (omega (arith, ltb→lt n m late))
        ])
      ]
    where
      same :
          HasPrev n log args
          → n ≤ args.prev_log_index
          → (e : LogEntry C) → get_elem? log (args.prev_log_index - n) ≡ some e
          → e.term ≡ args.prev_log_term
      same (inl nothing) le e at =
          let at_head : args.prev_log_index - n ≡ 0 = omega arith in
          let term_of : head_term log ≡ e.term = head_term-get log e (rw at_head at at) in
          omega (arith, term_of, blank (omega arith), start nothing)
      same (inr (inl below)) le e at = absurd (omega arith)
      same (inr (inr (from, x, there, term_of))) le e at = cc

  pub merged-IsGrown :
      (born : List (Birth C)) (log : List (LogEntry C)) (args : AppendEntriesArgs C)
      → (g : IsGrown born log) → Contiguous (suc args.prev_log_index) args.entries
      → Chain born args.prev_log_term args.entries
      → (args.prev_log_index ≡ 0 → args.prev_log_term ≡ 0)
      → HasPrev g.base log args
      → IsGrown born (merged g.base (suc args.prev_log_index) log args.entries)
  merged-IsGrown born log args g counts chain start prev = record {
    base = g.base;
    is_log =
        IsLog-merged g.base (suc args.prev_log_index) log args.entries g.is_log counts
          (HasPrev-close g.base log args g.is_log prev);
    linked = merged-Linked g.base born log args g.is_log g.linked g.blank chain start prev;
    blank = λ at_zero.
        same_head g.base args.prev_log_index log args.entries g.is_log at_zero
          (HasPrev-close g.base log args g.is_log prev)
        ∙ g.blank at_zero;
  }
    where
      same_head :
          (n m : ℕ) (xs es : List (LogEntry C))
          → IsLog n xs
          → n ≡ 0
          → suc m ≤ n + length xs
          → head_term (merged n (suc m) xs es) ≡ head_term xs
      same_head n m [] es l at_zero close = absurd (omega (arith, l.nonempty))
      same_head n m (x ∷ xs) es l at_zero close =
          head_term-get (merged n (suc m) (x ∷ xs) es) x
            (get_elem?-merged_before n (suc m) 0 (x ∷ xs) es (omega arith) close)
