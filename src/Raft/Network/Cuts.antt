-- ===== src/Raft/Network/Cuts.antt =====
-- What a snapshot leaves of such a log.
use distributed_database.Prelude.{
  Go, ℕ, suc, ◌+◌, ◌-◌, ◌≤◌, ◌<◌, ◌≡◌, refl, ap, sym, subst, ◌∙◌, inl, inr, List, [], ◌∷◌, none,
  some, false, ok, panic, ◌>>=◌, length, length-drop, get_elem?, get_elem?-lt, drop, arith, ltb,
  leb, Bool-cases, ltb→lt, ltb→ge,
}
use distributed_database.Raft.Types.{LogEntry}
use distributed_database.Raft.Log.{get_log_at_index, log_index_to_subscript, slice_from}
use distributed_database.Raft.Log.Contiguous.{
  Contiguous, IsLog, Contiguous-drop, get_log_at_index-from, index-get_elem?,
  log_index_to_subscript-from, slice_from-le, log_tail-index,
}
use distributed_database.Raft.Leader.Messages.{drop-cons, drop-all}
use distributed_database.Raft.Snapshots.{
  clear_head, set_head, cut_log, installed_log, compacted_log,
}
use distributed_database.Raft.Replica.Snapshots.{installed_log-beyond}
use distributed_database.Raft.Network.{Birth}
use distributed_database.Raft.Network.Chain.{Chain, Chain-behind}
use distributed_database.Raft.Network.Grown.{head_term, head_term-get, end_of, end_of_lem, IsGrown}

module _ {C : Type 0} where
  -- A log with a head of index `i` and term `t` in place of what it had up to there.
  cut-IsGrown :
      (born : List (Birth C)) (log : List (LogEntry C)) (i : ℕ) (x : LogEntry C)
      → (g : IsGrown born log) → g.base ≤ i
      → i < g.base + length log
      → x.index ≡ i
      → ((e : LogEntry C) → get_elem? log (i - g.base) ≡ some e → e.term ≡ x.term)
      → IsGrown born (x ∷ drop (suc (i - g.base)) log)
        × (end_of (x ∷ drop (suc (i - g.base)) log) ≡ end_of log)
  cut-IsGrown born log i x g from to place term_of =
      let k = i - g.base in
      let (e, at) = get_elem?-lt log k (omega arith) in
      let same = term_of e at in
      let start : g.base + suc k ≡ suc i = omega arith in
      (
        record {
          base = i;
          is_log = record {
            nonempty = omega arith;
            counts = (
              place,
              subst (λ j. Contiguous j (drop (suc k) log)) start
                  (Contiguous-drop (suc k) g.base log g.is_log.counts),
            );
          };
          linked =
              subst (λ t. Chain born t (drop (suc k) log)) same
                (Chain-behind k born log e g.linked at);
          blank = λ nothing.
              (let first : k ≡ 0 = omega arith in
                let head : head_term log ≡ e.term =
                  head_term-get log e (subst (λ j. get_elem? log j ≡ some e) first at) in
                omega (arith, head, same, g.blank (omega arith)));
        },
        omega (arith, end_of_lem g.base log g.is_log, length-drop (suc k) log),
      )

  bind_assoc :
      (m : Go ℕ) (f : ℕ → Go (List (LogEntry C))) (g : List (LogEntry C) → Go (List (LogEntry C)))
      → (m >>= f >>= g) ≡ (m >>= λ k. f k >>= g)
  bind_assoc (ok k) f g = refl
  bind_assoc panic f g = refl

  log_index_to_subscript-below :
      (n i : ℕ) (log : List (LogEntry C))
      → IsLog n log
      → i < n
      → log_index_to_subscript log i ≡ panic
  unfolding log_index_to_subscript
  log_index_to_subscript-below n i [] l lt = absurd (omega (arith, l.nonempty))
  log_index_to_subscript-below n i (x ∷ xs) l lt = ground (arith, l.counts.0)

  nothing_left :
      (k : ℕ) (log : List (LogEntry C)) (set : List (LogEntry C) → Go (List (LogEntry C)))
      (cut : List (LogEntry C))
      → length log ≤ k
      → set [] ≡ panic
      → (slice_from log k >>= set) ≡ ok cut
      → ⊥
  unfolding slice_from
  nothing_left k log set cut long empty h = elim (Bool-cases (leb k (length log))) [
    | inr out ↦ cc (rw out at h)
    | inl all ↦ cc (rw (all, drop-all k log long, empty) at h)
  ]

  -- Both cuts keep the log from the subscript of an index on, and fault if it has none.
  subscript_from :
      (n i : ℕ) (log : List (LogEntry C))
      → IsLog n log
      → (set : List (LogEntry C) → Go (List (LogEntry C))) → set [] ≡ panic
      → (cut : List (LogEntry C))
      → (log_index_to_subscript log i >>= λ k. slice_from log k >>= set) ≡ ok cut
      → (n ≤ i) × (i < n + length log) × (set (drop (i - n) log) ≡ ok cut)
  subscript_from n i log l set empty cut h = elim (Bool-cases (ltb i n)) [
    | inl below ↦ cc (rw (log_index_to_subscript-below n i log l (ltb→lt i n below)) at h)
    | inr from ↦
        let le = ltb→ge i n from in
        let h' = rw (log_index_to_subscript-from n i log l le) at h in
        elim (Bool-cases (ltb (i - n) (length log))) [
          | inl within ↦
              let lt = ltb→lt (i - n) (length log) within in
              (le, omega (arith, le), rw (slice_from-le (i - n) log (omega (arith, lt))) at h')
          | inr beyond ↦
              absurd
                (nothing_left (i - n) log set cut (ltb→ge (i - n) (length log) beyond) empty h')
        ]
  ]

  pub compacted_log-IsGrown :
      (born : List (Birth C)) (log cut : List (LogEntry C)) (i : ℕ)
      → IsGrown born log
      → compacted_log i log ≡ ok cut
      → IsGrown born cut × (end_of cut ≡ end_of log)
  unfolding compacted_log clear_head
  compacted_log-IsGrown born log cut i g h =
      let (le, lt, h') = subscript_from g.base i log g.is_log clear_head refl cut h in
      let (e, at) = get_elem?-lt log (i - g.base) (omega arith) in
      let x : LogEntry C = record e { command = none } in
      let same : x ∷ drop (suc (i - g.base)) log ≡ cut =
        cc (rw (drop-cons (i - g.base) log e at) at h') in
      subst (λ c. IsGrown born c × (end_of c ≡ end_of log)) same
        (cut-IsGrown born log i x g le lt
          (omega (arith, index-get_elem? g.base (i - g.base) log e g.is_log.counts at))
          (λ y here. cc))

  pub installed_log-IsGrown :
      (born : List (Birth C)) (log cut : List (LogEntry C)) (term i : ℕ)
      → IsGrown born log
      → ((e : LogEntry C) → get_log_at_index log i ≡ ok (some e) → e.term ≡ term)
      → installed_log term i log ≡ ok cut
      → IsGrown born cut × (end_of log ≤ end_of cut)
  unfolding installed_log cut_log set_head
  installed_log-IsGrown born log cut term i g known h =
      elim (Bool-cases (ltb (i + 1) (g.base + length log))) [
        | inr past ↦
            let long = ltb→ge _ _ past in
            let same : x ∷ [] ≡ cut = cc (installed_log-beyond g.base term i log g.is_log long) in
            subst (λ c. IsGrown born c × (end_of log ≤ end_of c)) same (alone long)
        | inl inside ↦
            let short = ltb→lt _ _ inside in
            let (tail, is_tail, _, end) = log_tail-index g.base log g.is_log in
            let keep : leb tail.index i ≡ false = ground arith in
            let h' = rw (is_tail, keep) at h in
            let (le, lt, h'') = subscript_from g.base i log g.is_log (set_head i term) refl cut (
              sym (bind_assoc (log_index_to_subscript log i) (slice_from log) (set_head i term))
              ∙ h') in
            let (e, at) = get_elem?-lt log (i - g.base) (omega arith) in
            let same : x ∷ drop (suc (i - g.base)) log ≡ cut =
              cc (rw (drop-cons (i - g.base) log e at) at h'') in
            let (grown, end') =
              cut-IsGrown born log i x g le lt refl
                (λ y here. known y (get_log_at_index-from g.base i log g.is_log le ∙ ap ok here)) in
            subst (λ c. IsGrown born c × (end_of log ≤ end_of c)) same (grown, omega (arith, end'))
      ]
    where
      x : LogEntry C
      x = record { term = term; index = i; command = none }

      first : g.base + length log ≤ i + 1 → i ≡ 0 → term ≡ 0
      first long nothing =
          let (e, at) = get_elem?-lt log 0 g.is_log.nonempty in
          let start : g.base ≡ 0 = omega (arith, g.is_log.nonempty) in
          let place : i - g.base ≡ 0 = omega arith in
          omega (
            arith,
            head_term-get log e at,
            g.blank start,
            known e (
                get_log_at_index-from g.base i log g.is_log (omega arith)
                ∙ ap ok (ap (get_elem? log) place ∙ at)),
          )

      alone : g.base + length log ≤ i + 1 → IsGrown born (x ∷ []) × (end_of log ≤ end_of (x ∷ []))
      alone long = (
        record {
          base = i;
          is_log = record { nonempty = omega arith; counts = (refl, tt) };
          linked = tt;
          blank = first long;
        },
        omega (arith, end_of_lem g.base log g.is_log),
      )
