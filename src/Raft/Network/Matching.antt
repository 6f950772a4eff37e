-- ===== src/Raft/Network/Matching.antt =====
-- Log Matching between any two servers.
use distributed_database.Prelude.{
  ℕ, ◌≤◌, ◌≡◌, refl, sym, subst, ◌⊎◌, inl, inr, [], ◌∷◌, Option, none, some, ok, arith, Has,
  Bool-cases, ltb, ltb→lt, ltb→ge,
}
use distributed_database.Raft.Types.{Raft, LogEntry, AppendEntriesArgs, Codec, IsCodec}
use distributed_database.Raft.Log.{get_log_at_index, log_head}
use distributed_database.Raft.Boot.{blank_entry}
use distributed_database.Raft.Cluster.Election.{IsStart, start-IsSound}
use distributed_database.Raft.Network.{
  Birth, Network, tail_term, begun, Pass, elect, begin, send, deliver, install, quiet, Passes,
  none_yet, and_then,
}
use distributed_database.Raft.Network.Grown.{IsGrown, IsGrown-later}
use distributed_database.Raft.Network.Agree.{place_of, logs_agree}
use distributed_database.Raft.Network.Invariant.{IsMatched}
use distributed_database.Raft.Network.Invariant.Steps.{Passes-IsMatched}

module _ {C : Type 0} (codec : Codec C) (law : IsCodec codec) (n : ℕ) where
  -- The servers start with empty logs, and nothing is sent or made yet.
  pub record IsBlank (net : Network C) : Type 0 where
    pub start : IsStart codec law n net.cluster
    pub logs : (i : ℕ) → (net.cluster.servers i).log ≡ blank_entry ∷ []
    pub no_sent : net.sent ≡ []
    pub no_born : net.born ≡ []

  pub blank-IsMatched : (net : Network C) → IsBlank net → IsMatched codec law n net
  unfolding blank_entry
  blank-IsMatched net s =
      let none_sent : (a : AppendEntriesArgs C) → ¬ Has a net.sent =
        λ a. subst (λ as'. ¬ Has a as') (sym s.no_sent) (λ h. h) in
      let none_born : (b : Birth C) → ¬ Has b net.born =
        λ b. subst (λ bs. ¬ Has b bs) (sym s.no_born) (λ h. h) in
      record {
        sound = start-IsSound codec law n net.cluster s.start;
        one_birth = λ a b h. absurd (none_born a h);
        logs = λ i. subst (IsGrown net.born) (sym (s.logs i)) (record {
          base = 0;
          is_log = record { nonempty = omega arith; counts = (refl, tt) };
          linked = tt;
          blank = λ e. refl;
        });
        newest = λ i b up h. absurd (none_born b h);
        claimed = λ b h. absurd (none_born b h);
        made = λ a h. absurd (none_sent a h);
        sent = λ a h. absurd (none_sent a h);
      }

  begun_later :
      (i : ℕ) (command : Option C) (rf : Raft C) (index : Option ℕ) (net : Network C) (b : Birth C)
      → Has b net.born
      → Has b (begun i command rf index net).born
  unfolding begun
  begun_later i command rf index net b h = new index
    where
      new :
          (index' : Option ℕ)
          → Has b (elim index' [
            | none ↦ net.born
            | some k ↦
                record {
                  term = rf.term;
                  index = k;
                  command = command;
                  prev = tail_term (net.cluster.servers i).log;
                }
                ∷ net.born
          ])
      new none = h
      new (some k) = inr h

  Pass-later :
      (net net' : Network C) (b : Birth C)
      → Pass codec n net net'
      → Has b net.born
      → Has b net'.born
  Pass-later _ _ b (elect net c m e) h = h
  Pass-later _ _ b (begin net i command rf index lt runs) h = begun_later i command rf index net b h
  Pass-later _ _ b (send net i peer args lt runs) h = h
  Pass-later _ _ b (deliver net j now args rf reply lt has apart runs) h = h
  Pass-later _ _ b (install net j term index bytes rf done lt known runs) h = h
  Pass-later _ _ b (quiet net i e rf lt q runs) h = h

  Passes-later :
      (net net' : Network C) (b : Birth C)
      → Passes codec n net net'
      → Has b net.born
      → Has b net'.born
  Passes-later _ _ b (none_yet net) h = h
  Passes-later _ _ b (and_then a c d r p) h = Pass-later c d b p (Passes-later a c b r h)

  Pass-sent :
      (net net' : Network C) (a : AppendEntriesArgs C)
      → Pass codec n net net'
      → Has a net.sent
      → Has a net'.sent
  unfolding begun
  Pass-sent _ _ a (elect net c m e) h = h
  Pass-sent _ _ a (begin net i command rf index lt runs) h = h
  Pass-sent _ _ a (send net i peer args lt runs) h = inr h
  Pass-sent _ _ a (deliver net j now args rf reply lt has apart runs) h = h
  Pass-sent _ _ a (install net j term index bytes rf done lt known runs) h = h
  Pass-sent _ _ a (quiet net i e rf lt q runs) h = h

  pub Passes-sent :
      (net net' : Network C) (a : AppendEntriesArgs C)
      → Passes codec n net net'
      → Has a net.sent
      → Has a net'.sent
  Passes-sent _ _ a (none_yet net) h = h
  Passes-sent _ _ a (and_then b c d r p) h = Pass-sent c d a p (Passes-sent b c a r h)

  -- Log Matching, between any two servers and any two moments. The servers start with empty logs,
  -- and anything happens to them and to the messages between them, crashes and restarts included; a
  -- snapshot that is installed ends in an entry of the log's own term at its index, where the log
  -- has one. If the log of one server has an entry at an index `k`, and that of another, or of the
  -- same one, has an entry of the same term there then or later, the two agree at every index `m`
  -- up to there where both have an entry: the terms are the same, and so are the entries, unless
  -- one of the two is the head of its log, which stands for a snapshot.
  pub log_matching :
      (first net net' : Network C) (i j k m : ℕ) (a b x y : LogEntry C)
      → IsBlank first
      → Passes codec n first net
      → Passes codec n net net'
      → get_log_at_index (net.cluster.servers i).log k ≡ ok (some a)
      → get_log_at_index (net'.cluster.servers j).log k ≡ ok (some b)
      → a.term ≡ b.term
      → m ≤ k
      → get_log_at_index (net.cluster.servers i).log m ≡ ok (some x)
      → get_log_at_index (net'.cluster.servers j).log m ≡ ok (some y)
      → (x.term ≡ y.term)
        × ((log_head (net.cluster.servers i).log ≡ ok x)
            ⊎ (log_head (net'.cluster.servers j).log ≡ ok y)
            ⊎ (x ≡ y))
  log_matching first net net' i j k m a b x y blank passes later at at' same le here here' =
      let s = Passes-IsMatched codec law n first net (blank-IsMatched first blank) passes in
      let s' = Passes-IsMatched codec law n net net' s later in
      let log = (net.cluster.servers i).log in
      let log' = (net'.cluster.servers j).log in
      let g =
        IsGrown-later net.born net'.born log (λ c. Passes-later net net' c later) (s.logs i) in
      let g' = s'.logs j in
      let (_, p) = place_of g.base k log a g.is_log at in
      let (_, p') = place_of g'.base k log' b g'.is_log at' in
      let (from, q) = place_of g.base m log x g.is_log here in
      let (from', q') = place_of g'.base m log' y g'.is_log here' in
      elim (Bool-cases (ltb g.base g'.base)) [
        | inl less ↦
            logs_agree g'.base k m net'.born log log' a b x y s'.one_birth g g'
              (omega (arith, ltb→lt g.base g'.base less)) (omega arith) (inr refl) from' le p p'
              same q q'
        | inr more ↦
            logs_agree g.base k m net'.born log log' a b x y s'.one_birth g g' (omega arith)
              (ltb→ge g.base g'.base more) (inl refl) from le p p' same q q'
      ]
