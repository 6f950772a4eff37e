-- ===== src/Raft/Network/Invariant/Steps.antt =====
-- Every step keeps the invariant.
use distributed_database.Prelude.{
  ℕ, ◌≡◌, ◌≢◌, refl, ap, sym, subst, ◌∙◌, inl, inr, List, ◌∷◌, some, Bool, ok, Has, arith,
}
use distributed_database.Raft.Types.{
  Raft, LogEntry, AppendEntriesArgs, AppendEntriesReply, Codec, IsCodec,
}
use distributed_database.Raft.Log.{get_log_at_index}
use distributed_database.Raft.Append.{append_entries}
use distributed_database.Raft.Snapshots.{cond_install_snapshot}
use distributed_database.Raft.Leader.{append, replicate}
use distributed_database.Raft.Step.{
  Event, asked_vote, sent_entries, sent_snapshot, election_timer, got_vote, got_sync, got_install,
  started, cond_installed, snapshotted, applied, was_killed, restarted, step,
}
use distributed_database.Raft.Cluster.{handled, IsOther}
use distributed_database.Raft.Cluster.Other.{step-Keeps}
use distributed_database.Raft.Network.{
  Network, IsQuiet, Pass, elect, begin, send, deliver, install, quiet, Passes, none_yet, and_then,
}
use distributed_database.Raft.Network.Grown.{end_of}
use distributed_database.Raft.Network.Effects.{install-Extends, quiet-Extends}
use distributed_database.Raft.Network.Deliver.{IsMade, append_entries-IsGrown}
use distributed_database.Raft.Network.Messages.{replicate-IsMade}
use distributed_database.Raft.Network.Invariant.Begin.{begin-IsMatched}
use distributed_database.Raft.Network.Invariant.{
  IsSent, IsMatched, winner_leads, handled-IsMatched, elect-IsMatched,
}

module _ {C : Type 0} (codec : Codec C) (law : IsCodec codec) (n : ℕ) where
  deliver-IsMatched :
      (net : Network C) (j now : ℕ) (args : AppendEntriesArgs C) (rf : Raft C)
      (reply : AppendEntriesReply)
      → IsMatched codec law n net
      → Has args net.sent
      → args.leader_id ≢ j
      → append_entries codec now (net.cluster.servers j) args ≡ ok (rf, reply)
      → IsMatched codec law n (record net { cluster = handled j rf net.cluster })
  deliver-IsMatched net j now args rf reply s has apart runs =
      let old = net.cluster.servers j in
      let e : Event C = sent_entries now args in
      let steps : step codec old e ≡ ok rf = unfold step in rw runs refl in
      let (grown, change) =
        append_entries-IsGrown codec net.born now old args rf reply (s.logs j) (s.made args has)
          runs in
      handled-IsMatched codec law n net j e rf s tt steps grown (λ up. elim change [
        | inl same ↦ omega (arith, ap end_of same)
        | inr term ↦
            let (led, stays) = (step-Keeps codec old rf e tt steps).no_leader up in
            let (w, won, who, when) = s.sent args has in
            absurd (
              apart (
                sym who
                ∙ winner_leads codec law n net.cluster j w s.sound led won
                    (when ∙ sym term ∙ stays)))
      ])

  install-IsMatched :
      (net : Network C) (j term index : ℕ) (bytes : List ℕ) (rf : Raft C) (done : Bool)
      → IsMatched codec law n net
      → ((e : LogEntry C)
          → get_log_at_index (net.cluster.servers j).log index ≡ ok (some e)
          → e.term ≡ term)
      → cond_install_snapshot codec term index bytes (net.cluster.servers j) ≡ ok (rf, done)
      → IsMatched codec law n (record net { cluster = handled j rf net.cluster })
  install-IsMatched net j term index bytes rf done s known runs =
      let old = net.cluster.servers j in
      let e : Event C = cond_installed term index bytes in
      let steps : step codec old e ≡ ok rf = unfold step in rw runs refl in
      let x = install-Extends codec net.born term index bytes old rf done (s.logs j) known runs in
      handled-IsMatched codec law n net j e rf s tt steps x.grown (λ up. x.longer)

  IsQuiet-IsOther : (e : Event C) → IsQuiet e → IsOther e
  IsQuiet-IsOther (asked_vote now args) q = q
  IsQuiet-IsOther (sent_entries now args) q = absurd q
  IsQuiet-IsOther (sent_snapshot now args) q = q
  IsQuiet-IsOther (election_timer now timeout) q = q
  IsQuiet-IsOther (got_vote vote args reply) q = q
  IsQuiet-IsOther (got_sync peer args reply) q = q
  IsQuiet-IsOther (got_install peer args reply) q = q
  IsQuiet-IsOther (started command) q = absurd q
  IsQuiet-IsOther (cond_installed term index bytes) q = absurd q
  IsQuiet-IsOther (snapshotted index bytes) q = q
  IsQuiet-IsOther applied q = q
  IsQuiet-IsOther was_killed q = q
  IsQuiet-IsOther (restarted timeout) q = q

  quiet-IsMatched :
      (net : Network C) (i : ℕ) (e : Event C) (rf : Raft C)
      → IsMatched codec law n net
      → IsQuiet e
      → step codec (net.cluster.servers i) e ≡ ok rf
      → IsMatched codec law n (record net { cluster = handled i rf net.cluster })
  quiet-IsMatched net i e rf s q steps =
      let x =
        quiet-Extends codec law net.born (net.cluster.servers i) rf e (s.logs i)
          (s.sound.members i).durable q steps in
      handled-IsMatched codec law n net i e rf s (IsQuiet-IsOther e q) steps x.grown
        (λ up. x.longer)

  send-IsMatched :
      (net : Network C) (i peer : ℕ) (args : AppendEntriesArgs C)
      → IsMatched codec law n net
      → replicate peer (net.cluster.servers i) ≡ ok (append args)
      → IsMatched codec law n (record net { sent = args ∷ net.sent })
  send-IsMatched net i peer args s runs =
      let rf = net.cluster.servers i in
      let (leads, made, who, when, _) = replicate-IsMade net.born peer rf args (s.logs i) runs in
      let (w, won, leader_of, term_of) = s.sound.leads i leads in
      record {
        sound = s.sound;
        one_birth = s.one_birth;
        logs = s.logs;
        newest = s.newest;
        claimed = s.claimed;
        made = λ a has. elim has [
          | inl here ↦ subst (IsMade net.born) here made
          | inr later ↦ s.made a later
        ];
        sent = λ a has. elim has [
          | inl here ↦
              subst (IsSent net.cluster.wins) here
                (w, won, leader_of ∙ sym (s.sound.members i).me ∙ sym who, term_of ∙ sym when)
          | inr later ↦ s.sent a later
        ];
      }

  pub Pass-IsMatched :
      (net net' : Network C)
      → IsMatched codec law n net
      → Pass codec n net net'
      → IsMatched codec law n net'
  Pass-IsMatched _ _ s (elect net c m e) = elect-IsMatched codec law n net c m s e
  Pass-IsMatched _ _ s (begin net i command rf index lt runs) =
      begin-IsMatched codec law n net i command rf index s runs
  Pass-IsMatched _ _ s (send net i peer args lt runs) = send-IsMatched net i peer args s runs
  Pass-IsMatched _ _ s (deliver net j now args rf reply lt has apart runs) =
      deliver-IsMatched net j now args rf reply s has apart runs
  Pass-IsMatched _ _ s (install net j term index bytes rf done lt known runs) =
      install-IsMatched net j term index bytes rf done s known runs
  Pass-IsMatched _ _ s (quiet net i e rf lt q runs) = quiet-IsMatched net i e rf s q runs

  pub Passes-IsMatched :
      (net net' : Network C)
      → IsMatched codec law n net
      → Passes codec n net net'
      → IsMatched codec law n net'
  Passes-IsMatched _ _ s (none_yet net) = s
  Passes-IsMatched _ _ s (and_then a b c r p) = Pass-IsMatched b c (Passes-IsMatched a b s r) p
