-- ===== src/Raft/Network/Acknowledged.antt =====
-- What a successful AppendEntries means to the leader that sent it.
use distributed_database.Prelude.{
  ℕ, suc, ◌+◌, ◌-◌, ◌≤◌, ◌<◌, ◌≡◌, ◌≢◌, refl, ap, sym, subst, ◌∙◌, ◌⊎◌, inl, List, ◌∷◌, some, true,
  ok, get_elem?, get_elem?-drop, arith, Has,
}
use distributed_database.Raft.Types.{
  Raft, LogEntry, AppendEntriesArgs, AppendEntriesReply, Codec, IsCodec,
}
use distributed_database.Raft.Log.{get_log_at_index, log_head}
use distributed_database.Raft.Log.Contiguous.{IsLog, get_log_at_index-from}
use distributed_database.Raft.Append.{append_entries}
use distributed_database.Raft.Append.Merged.{IsLog-merged}
use distributed_database.Raft.Append.Handler.{HasPrev-close}
use distributed_database.Raft.Leader.{append, replicate}
use distributed_database.Raft.Cluster.{handled}
use distributed_database.Raft.Network.{Birth, Network, send, deliver, Passes, none_yet, and_then}
use distributed_database.Raft.Network.Grown.{IsGrown}
use distributed_database.Raft.Network.Agree.{place_of}
use distributed_database.Raft.Network.Deliver.{IsMade}
use distributed_database.Raft.Network.Matching.{IsBlank, blank-IsMatched, log_matching, Passes-sent}
use distributed_database.Raft.Network.Invariant.Steps.{Passes-IsMatched}
use distributed_database.Raft.Network.Messages.{replicate-IsMade}
use distributed_database.Raft.Cluster.Invariant.{put_self}
use distributed_database.Raft.Network.Accepted.{merged-term, append_entries-merged}

module _ {C : Type 0} (codec : Codec C) (law : IsCodec codec) (n : ℕ) where
  Passes-trans : (a b c : Network C) → Passes codec n a b → Passes codec n b c → Passes codec n a c
  Passes-trans a _ _ p (none_yet b) = p
  Passes-trans a _ _ p (and_then b x c q m) = and_then a x c (Passes-trans a b x p q) m

  -- Where the message's entries stand in the leader's log.
  sent_entry :
      (born : List (Birth C)) (peer k : ℕ) (rf : Raft C) (args : AppendEntriesArgs C)
      (e : LogEntry C)
      → IsGrown born rf.log
      → replicate peer rf ≡ ok (append args)
      → get_elem? args.entries k ≡ some e
      → get_log_at_index rf.log (suc args.prev_log_index + k) ≡ ok (some e)
  sent_entry born peer k rf args e g h at =
      let (_, _, _, _, end) = replicate-IsMade born peer rf args g h in
      let i = suc args.prev_log_index + k in
      let place : (suc args.prev_log_index - g.base) + k ≡ i - g.base = omega (arith, end.from) in
      get_log_at_index-from g.base i rf.log g.is_log (omega (arith, end.from))
      ∙ ap ok (
          ap (get_elem? rf.log) (sym place)
          ∙ sym (get_elem?-drop (suc args.prev_log_index - g.base) rf.log k)
          ∙ ap (λ es. get_elem? es k) (sym end.last)
          ∙ at)

  -- Where they stand in the receiver's log, from its base on.
  taken_entry :
      (born : List (Birth C)) (now k m : ℕ) (rf : Raft C) (args : AppendEntriesArgs C) (r : Raft C)
      (reply : AppendEntriesReply) (e y : LogEntry C)
      → IsGrown born rf.log
      → IsMade born args
      → append_entries codec now rf args ≡ ok (r, reply)
      → reply.success ≡ true
      → get_elem? args.entries k ≡ some e
      → m ≤ suc args.prev_log_index + k
      → get_log_at_index r.log m ≡ ok (some y)
      → (l : LogEntry C) × (get_log_at_index r.log (suc args.prev_log_index + k) ≡ ok (some l))
        × (l.term ≡ e.term)
  taken_entry born now k m rf args r reply e y g made h success at le here =
      let p = suc args.prev_log_index in
      let (prev, log) =
        append_entries-merged codec g.base now rf args r reply g.is_log made.counts h success in
      let close = HasPrev-close g.base rf.log args g.is_log prev in
      let l' : IsLog g.base r.log =
        subst (IsLog g.base) (sym log)
          (IsLog-merged g.base p rf.log args.entries g.is_log made.counts close) in
      let (from, _) = place_of g.base m r.log y l' here in
      let index_of : p + k - p ≡ k = omega arith in
      let (l, there, same) =
        merged-term g.base p (p + k) rf.log args.entries e close (omega arith) (omega arith)
          (ap (get_elem? args.entries) index_of ∙ at) in
      (
        l,
        get_log_at_index-from g.base (p + k) r.log l' (omega arith)
            ∙ ap ok (ap (λ xs. get_elem? xs (p + k - g.base)) log ∙ there),
        same,
      )

  -- What a success tells a leader. The servers start with empty logs and anything happens, as for
  -- Log Matching; a leader sends a peer its entries, and then anything happens again. When the peer
  -- answers the message with success, its log agrees with the one that the leader had when it sent
  -- it, at every index up to that of any of the message's entries where both have an entry: the
  -- terms are the same, and so are the entries, unless one of the two is the head of its log.
  pub success_matches :
      (first net net' : Network C) (i j peer now k m : ℕ) (args : AppendEntriesArgs C) (r : Raft C)
      (reply : AppendEntriesReply) (e x y : LogEntry C)
      → IsBlank codec law n first
      → Passes codec n first net
      → i < n
      → replicate peer (net.cluster.servers i) ≡ ok (append args)
      → Passes codec n (record net { sent = args ∷ net.sent }) net'
      → j < n
      → args.leader_id ≢ j
      → append_entries codec now (net'.cluster.servers j) args ≡ ok (r, reply)
      → reply.success ≡ true
      → get_elem? args.entries k ≡ some e
      → m ≤ suc args.prev_log_index + k
      → get_log_at_index (net.cluster.servers i).log m ≡ ok (some x)
      → get_log_at_index r.log m ≡ ok (some y)
      → (x.term ≡ y.term)
        × ((log_head (net.cluster.servers i).log ≡ ok x) ⊎ (log_head r.log ≡ ok y) ⊎ (x ≡ y))
  unfolding handled
  success_matches first net net' i j peer now k m args r reply e x y blank before lt sends after lt'
        apart runs success at le here here' =
      let sent : Network C = record net { sent = args ∷ net.sent } in
      let net'' : Network C = record net' { cluster = handled j r net'.cluster } in
      let up : Passes codec n net sent =
        and_then net net sent (none_yet net) (send net i peer args lt sends) in
      let s =
        Passes-IsMatched codec law n first net (blank-IsMatched codec law n first blank) before in
      let s' =
        Passes-IsMatched codec law n sent net' (Passes-IsMatched codec law n net sent s up) after in
      let has : Has args net'.sent = Passes-sent codec law n sent net' args after (inl refl) in
      let (l, there, same) =
        taken_entry net'.born now k m (net'.cluster.servers j) args r reply e y (s'.logs j)
          (s'.made args has) runs success at le here' in
      let whole : (net''.cluster.servers j) ≡ r = put_self j r net'.cluster.servers in
      let found =
        log_matching codec law n first net net'' i j (suc args.prev_log_index + k) m e l x y blank
          before
          (and_then net net' net'' (Passes-trans net sent net' up after)
            (deliver net' j now args r reply lt' has apart runs))
          (sent_entry net.born peer k (net.cluster.servers i) args e (s.logs i) sends at)
          (rw whole there) (sym same) le here (rw whole here') in
      rw whole at found
