-- ===== src/Raft/Network/Invariant/Begin.antt =====
-- Start keeps the invariant: the new entry is the first of its index and term.
use distributed_database.Prelude.{
  ℕ, suc, ◌+◌, ◌<◌, ◌≡◌, ◌≢◌, refl, ap, sym, subst, ◌∙◌, inl, inr, List, [], ◌∷◌, ◌++◌, Option, ok,
  length, length-append, Has, arith,
}
use distributed_database.Raft.Types.{Raft, leader, LogEntry, AppendEntriesArgs, Codec, IsCodec}
use distributed_database.Raft.Log.Contiguous.{log_tail-index}
use distributed_database.Raft.Leader.{start_append}
use distributed_database.Raft.Step.{Event, started, step}
use distributed_database.Raft.Cluster.{handled}
use distributed_database.Raft.Cluster.Other.{step-Keeps}
use distributed_database.Raft.Cluster.Invariant.{handled-IsSound, put_all}
use distributed_database.Raft.Network.{Birth, Network, birth_of, tail_term, begun}
use distributed_database.Raft.Network.Chain.{Chain-more}
use distributed_database.Raft.Network.Grown.{
  end_of, end_of_lem, IsGrown, IsGrown-later, append-IsGrown,
}
use distributed_database.Raft.Network.Agree.{OneBirth}
use distributed_database.Raft.Network.Effects.{start_append-log}
use distributed_database.Raft.Network.Deliver.{IsMade}
use distributed_database.Raft.Network.Invariant.{Newest, IsMatched, winner_leads, handled-IsMatched}

module _ {C : Type 0} where
  end_of-append :
      (log : List (LogEntry C)) (e : LogEntry C)
      → 0 < length log
      → end_of (log ++ e ∷ []) ≡ suc (end_of log)
  end_of-append [] e h = absurd (omega arith)
  end_of-append (x ∷ xs) e h = omega (arith, length-append xs (e ∷ []))

  IsMade-more :
      (b : Birth C) (born : List (Birth C)) (args : AppendEntriesArgs C)
      → IsMade born args
      → IsMade (b ∷ born) args
  IsMade-more b born args m = record {
    counts = m.counts;
    chain = Chain-more b born args.prev_log_term args.entries m.chain;
    blank = m.blank;
  }

  OneBirth-more :
      (b : Birth C) (born : List (Birth C))
      → OneBirth born
      → ((a : Birth C) → Has a born → a.index ≡ b.index → a.term ≢ b.term)
      → OneBirth (b ∷ born)
  OneBirth-more b born one new x y (inl hx) (inl hy) place term = sym hx ∙ hy
  OneBirth-more b born one new x y (inl hx) (inr hy) place term =
      absurd (new y hy (sym place ∙ index_of (sym hx)) (sym term ∙ term_of (sym hx)))
    where
      index_of : {a c : Birth C} → a ≡ c → a.index ≡ c.index
      index_of e = ap (λ (z : Birth C). z.index) e

      term_of : {a c : Birth C} → a ≡ c → a.term ≡ c.term
      term_of e = ap (λ (z : Birth C). z.term) e
  OneBirth-more b born one new x y (inr hx) (inl hy) place term = absurd (
      new x hx (place ∙ ap (λ (z : Birth C). z.index) (sym hy))
        (term ∙ ap (λ (z : Birth C). z.term) (sym hy)))
  OneBirth-more b born one new x y (inr hx) (inr hy) place term = one x y hx hy place term

module _ {C : Type 0} (codec : Codec C) (law : IsCodec codec) (n : ℕ) where
  -- A leader makes an entry behind its log's end.
  made-IsMatched :
      (net : Network C) (i : ℕ) (command : Option C) (rf : Raft C) (b : Birth C)
      → IsMatched codec law n net
      → step codec (net.cluster.servers i) (started command) ≡ ok rf
      → (net.cluster.servers i).state ≡ leader
      → rf.term ≡ (net.cluster.servers i).term
      → b.term ≡ rf.term
      → b.index ≡ end_of (net.cluster.servers i).log
      → b.prev ≡ tail_term (net.cluster.servers i).log
      → rf.log
        ≡ (net.cluster.servers i).log
          ++ record { term = b.term; index = b.index; command = b.command } ∷ []
      → IsMatched codec law n
          (record net { cluster = handled i rf net.cluster; born = b ∷ net.born })
  unfolding handled
  made-IsMatched net i command rf b s steps leads same_term term place prev log =
      let old = net.cluster.servers i in
      let servers = net.cluster.servers in
      let born = b ∷ net.born in
      let e : LogEntry C = record { term = b.term; index = b.index; command = b.command } in
      let k = step-Keeps codec old rf (started command) tt steps in
      let (w, won, who, when) = s.sound.leads i leads in
      let longer : end_of rf.log ≡ suc (end_of old.log) =
        ap end_of log ∙ end_of-append old.log e (s.logs i).is_log.nonempty in
      let birth : birth_of e (tail_term old.log) ≡ b = ap (λ p. birth_of e p) (sym prev) in
      record {
        sound = handled-IsSound codec law n net.cluster i (started command) rf s.sound steps k;
        one_birth = OneBirth-more b net.born s.one_birth (λ a has at same.
            (let early : a.index < end_of old.log =
                s.newest i a leads has (same ∙ term ∙ same_term) in
              omega (arith, early, at, place)));
        logs =
            put_all (λ h r. IsGrown born r.log) i rf servers
              (subst (IsGrown born) (sym log) (
                append-IsGrown born old.log e
                  (IsGrown-later net.born born old.log (λ a. inr) (s.logs i)) place
                  (inl (sym birth))))
              (λ h apart. IsGrown-later net.born born (servers h).log (λ a. inr) (s.logs h));
        newest =
            put_all (λ h r. Newest born r) i rf servers
              (λ a up has same. elim has [
                | inl here ↦ omega (arith, ap (λ (z : Birth C). z.index) here, place, longer)
                | inr later ↦ omega (arith, longer, s.newest i a leads later (same ∙ same_term))
              ])
              (λ h apart a up has same. elim has [
                | inl here ↦ absurd (
                    apart (
                      sym (
                        winner_leads codec law n net.cluster h w s.sound up won (
                          when
                          ∙ sym same_term
                          ∙ sym term
                          ∙ ap (λ (z : Birth C). z.term) here
                          ∙ same))
                      ∙ who))
                | inr later ↦ s.newest h a up later same
              ]);
        claimed = λ a has. elim has [
          | inl here ↦ (w, won, when ∙ sym same_term ∙ sym term ∙ ap (λ (z : Birth C). z.term) here)
          | inr later ↦ s.claimed a later
        ];
        made = λ args has. IsMade-more b net.born args (s.made args has);
        sent = s.sent;
      }

  pub begin-IsMatched :
      (net : Network C) (i : ℕ) (command : Option C) (rf : Raft C) (index : Option ℕ)
      → IsMatched codec law n net
      → start_append codec command (net.cluster.servers i) ≡ ok (rf, index)
      → IsMatched codec law n (begun i command rf index net)
  unfolding begun
  begin-IsMatched net i command rf index s runs =
      let old = net.cluster.servers i in
      let e : Event C = started command in
      let steps : step codec old e ≡ ok rf = unfold step in rw runs refl in
      let g = s.logs i in
      let (tail, is_tail, _, end) = log_tail-index g.base old.log g.is_log in
      elim (start_append-log codec command old rf index tail is_tail runs) [
        | inl (nothing, same) ↦ rw nothing (
            handled-IsMatched codec law n net i e rf s tt steps
              (subst (IsGrown net.born) (sym same) g) (λ up. omega (arith, ap end_of same)))
        | inr (leads, term, at, log) ↦ rw at (
            made-IsMatched net i command rf
              (record {
                term = rf.term;
                index = tail.index + 1;
                command = command;
                prev = tail_term old.log;
              })
              s steps leads term refl (end ∙ sym (end_of_lem g.base old.log g.is_log)) refl log)
      ]
