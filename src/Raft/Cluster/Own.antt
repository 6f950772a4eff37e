-- ===== src/Raft/Cluster/Own.antt =====
-- What a step of a server does not change: who it is, and whom a candidate has voted for; and how
-- a server comes to lead.
use distributed_database.Prelude.{
  ℕ, ◌+◌, ◌≡◌, refl, subst, ◌∙◌, ◌⊎◌, inl, inr, Bool, true, false, List, [], ◌∷◌, Option, none,
  some, ok, arith, >>=-eq-ok, Bool-cases, ltb,
}
use distributed_database.Raft.Types.{
  Raft, LogEntry, candidate, leader, AppendEntriesArgs, AppendEntriesReply, RequestVoteArgs,
  RequestVoteReply, InstallSnapshotArgs, InstallSnapshotReply, ApplyMsg, Codec,
}
use distributed_database.Raft.Node.{is_majority, persist, adopt_term, kill}
use distributed_database.Raft.Vote.{request_vote}
use distributed_database.Raft.Append.{
  append_entries, accept_entries, merge_entries, follow_commit, check_prev,
}
use distributed_database.Raft.Snapshots.{cond_install_snapshot, snapshot, install_snapshot}
use distributed_database.Raft.Election.{election_round, vote_reply, count_vote, take_office}
use distributed_database.Raft.Leader.{
  advance_commit, sync, acknowledge, snapshot_installed, start_append,
}
use distributed_database.Raft.Boot.{apply_round, make}

module _ {ℓ} {C : Type ℓ} where
  -- A candidate has voted for itself.
  abbrev pub IsOwn : Raft C → Type 0
  IsOwn rf = rf.state ≡ candidate → rf.voted_for ≡ some rf.me

  pub record Keeps (rf r : Raft C) : Type ℓ where
    pub me_same : r.me ≡ rf.me
    pub peers_same : r.peers ≡ rf.peers
    pub own : IsOwn rf → IsOwn r
    pub no_leader : r.state ≡ leader → (rf.state ≡ leader) × (r.term ≡ rf.term)
    pub no_new : r.state ≡ candidate → (rf.state ≡ candidate) × (r.term ≡ rf.term)

  pub Keeps-refl : (rf : Raft C) → Keeps rf rf
  Keeps-refl rf = record {
    me_same = refl;
    peers_same = refl;
    own = λ o. o;
    no_leader = λ h. (h, refl);
    no_new = λ h. (h, refl);
  }

  Keeps-trans : {a b c : Raft C} → Keeps a b → Keeps b c → Keeps a c
  Keeps-trans {a} {b} {c} p q = record {
    me_same = q.me_same ∙ p.me_same;
    peers_same = q.peers_same ∙ p.peers_same;
    own = λ o. q.own (p.own o);
    no_leader = λ h.
        (let (led, same) = q.no_leader h in
          let (led', same') = p.no_leader led in (led', same ∙ same'));
    no_new = λ h.
        (let (stood, same) = q.no_new h in
          let (stood', same') = p.no_new stood in (stood', same ∙ same'));
  }

module _ {ℓ} {C : Type ℓ} (codec : Codec C) where
  pub request_vote-Keeps :
      (now : ℕ) (rf : Raft C) (args : RequestVoteArgs) (r : Raft C × RequestVoteReply)
      → request_vote codec now rf args ≡ ok r
      → Keeps rf r.0
  unfolding request_vote
  request_vote-Keeps now rf args r h = record {
    me_same = ground arith;
    peers_same = ground arith;
    own = λ o c. ground arith;
    no_leader = λ l. (ground arith, ground arith);
    no_new = λ l. (ground arith, ground arith);
  }

  adopt_term-Keeps : (t : ℕ) (rf : Raft C) → Keeps rf (adopt_term codec t rf)
  unfolding adopt_term
  adopt_term-Keeps t rf = ground arith

  merge_entries-Keeps :
      (rf : Raft C) (es : List (LogEntry C)) (r : Raft C)
      → merge_entries codec rf es ≡ ok r
      → Keeps rf r
  unfolding merge_entries persist
  merge_entries-Keeps rf [] r h = ground arith
  merge_entries-Keeps rf (e ∷ es) r h = ground arith

  follow_commit-Keeps :
      (leader_commit : ℕ) (rf r : Raft C) → follow_commit leader_commit rf ≡ ok r → Keeps rf r
  unfolding follow_commit
  follow_commit-Keeps leader_commit rf r h = ground arith

  accept_entries-Keeps :
      (rf : Raft C) (args : AppendEntriesArgs C) (replied : ℕ) (o : Option AppendEntriesReply)
      (r : Raft C × AppendEntriesReply)
      → accept_entries codec rf args replied o ≡ ok r
      → Keeps rf r.0
  unfolding accept_entries
  accept_entries-Keeps rf args replied (some reply) r h = ground arith
  accept_entries-Keeps rf args replied none r h =
      let (merged, first, h') = >>=-eq-ok (merge_entries codec rf args.entries) _ h in
      let (committed, second, last) = >>=-eq-ok (follow_commit args.leader_commit merged) _ h' in
      let done : committed ≡ r.0 = cc in
      subst (Keeps rf) done (
        Keeps-trans (merge_entries-Keeps rf args.entries merged first)
          (follow_commit-Keeps args.leader_commit merged committed second))

  pub append_entries-Keeps :
      (now : ℕ) (rf : Raft C) (args : AppendEntriesArgs C) (r : Raft C × AppendEntriesReply)
      → append_entries codec now rf args ≡ ok r
      → Keeps rf r.0
  unfolding append_entries
  append_entries-Keeps now rf args r h = elim (Bool-cases (ltb args.term rf.term)) [
    | inl stale ↦ let same : rf ≡ r.0 = ground arith in subst (Keeps rf) same (Keeps-refl rf)
    | inr current ↦
        let heard : Keeps rf (record rf { last_heartbeat = now }) = ground arith in
        let (refused, _, last) = >>=-eq-ok (check_prev _ args rf.term) _ (rw current at h) in
        Keeps-trans (Keeps-trans heard (adopt_term-Keeps args.term _))
          (accept_entries-Keeps _ args rf.term refused r last)
  ]

  pub install_snapshot-Keeps :
      (now : ℕ) (rf : Raft C) (args : InstallSnapshotArgs)
      → Keeps rf (install_snapshot codec now rf args).0
  unfolding install_snapshot
  install_snapshot-Keeps now rf args = ground arith

  -- A round of the timer changes nothing, or the server stands in the next term.
  pub record IsStanding (rf r : Raft C) : Type ℓ where
    pub me_same : r.me ≡ rf.me
    pub peers_same : r.peers ≡ rf.peers
    pub standing : r.state ≡ candidate
    pub own_vote : r.voted_for ≡ some r.me
    pub next_term : r.term ≡ rf.term + 1

  pub election_round_cases :
      (now timeout : ℕ) (rf r : Raft C) (sent : Option RequestVoteArgs)
      → election_round codec now timeout rf ≡ ok (r, sent)
      → ((sent ≡ none) × (r ≡ rf))
        ⊎ ((args : RequestVoteArgs) × (sent ≡ some args) × IsStanding rf r)
  unfolding election_round
  election_round_cases now timeout rf r sent h = ground arith

  acknowledge-Keeps :
      (peer : ℕ) (args : AppendEntriesArgs C) (rf r : Raft C)
      → acknowledge peer args rf ≡ ok r
      → Keeps rf r
  unfolding acknowledge advance_commit
  acknowledge-Keeps peer args rf r h = ground arith

  pub sync-Keeps :
      (peer : ℕ) (args : AppendEntriesArgs C) (reply : AppendEntriesReply) (rf r : Raft C)
      → sync codec peer args reply rf ≡ ok r
      → Keeps rf r
  unfolding sync acknowledge advance_commit
  sync-Keeps peer args reply rf r h = ground arith

  pub snapshot_installed-Keeps :
      (peer : ℕ) (args : InstallSnapshotArgs) (reply : InstallSnapshotReply) (rf r : Raft C)
      → snapshot_installed codec peer args reply rf ≡ ok r
      → Keeps rf r
  unfolding snapshot_installed
  snapshot_installed-Keeps peer args reply rf r h = ground arith

  pub start_append-Keeps :
      (command : Option C) (rf : Raft C) (r : Raft C × Option ℕ)
      → start_append codec command rf ≡ ok r
      → Keeps rf r.0
  unfolding start_append
  start_append-Keeps command rf r h = ground arith

  pub cond_install_snapshot-Keeps :
      (term index : ℕ) (bytes : List ℕ) (rf : Raft C) (r : Raft C × Bool)
      → cond_install_snapshot codec term index bytes rf ≡ ok r
      → Keeps rf r.0
  unfolding cond_install_snapshot
  cond_install_snapshot-Keeps term index bytes rf r h = ground arith

  pub snapshot-Keeps :
      (index : ℕ) (bytes : List ℕ) (rf r : Raft C)
      → snapshot codec index bytes rf ≡ ok r
      → Keeps rf r
  unfolding snapshot
  snapshot-Keeps index bytes rf r h = ground arith

  pub apply_round-Keeps :
      (rf : Raft C) (r : Raft C × List (ApplyMsg C)) → apply_round rf ≡ ok r → Keeps rf r.0
  unfolding apply_round
  apply_round-Keeps rf r h = ground arith

  pub kill-Keeps : (rf : Raft C) → Keeps rf (kill rf)
  unfolding kill
  kill-Keeps rf = ground arith

  pub make-Keeps :
      (rf r : Raft C) (timeout : ℕ)
      → make codec rf.peers rf.me rf.persister timeout ≡ ok r
      → Keeps rf r
  unfolding make
  make-Keeps rf r timeout h = ground arith

  -- A vote that comes back is not counted, or it is and the server goes on standing, or leads with
  -- a majority.
  pub record IsCounted (rf r : Raft C) (vote vote' : ℕ) (args : RequestVoteArgs) (won : Bool)
      : Type ℓ where
    pub standing : rf.state ≡ candidate
    pub this_term : rf.term ≡ args.term
    pub one_more : vote' ≡ vote + 1
    pub me_same : r.me ≡ rf.me
    pub peers_same : r.peers ≡ rf.peers
    pub term_same : r.term ≡ rf.term
    pub vote_same : r.voted_for ≡ rf.voted_for
    pub outcome :
        ((won ≡ false) × (r.state ≡ candidate))
        ⊎ ((won ≡ true) × (r.state ≡ leader) × (is_majority rf (vote + 1) ≡ true))

  pub vote_reply_cases :
      (rf r : Raft C) (vote vote' : ℕ) (args : RequestVoteArgs) (reply : RequestVoteReply)
      (won : Bool)
      → vote_reply codec rf vote args reply ≡ ok (r, vote', won)
      → ((vote' ≡ vote) × (won ≡ false) × Keeps rf r) ⊎ IsCounted rf r vote vote' args won
  unfolding vote_reply count_vote take_office
  vote_reply_cases rf r vote vote' args reply won h = ground arith

  pub vote_reply-Keeps :
      (rf r : Raft C) (vote vote' : ℕ) (args : RequestVoteArgs) (reply : RequestVoteReply)
      (won : Bool)
      → vote_reply codec rf vote args reply ≡ ok (r, vote', won)
      → reply.vote_granted ≡ false
      → Keeps rf r
  unfolding vote_reply
  vote_reply-Keeps rf r vote vote' args reply won h refused = ground arith
