-- ===== src/Harness/Agreement/Reached.antt =====
-- What `one` of raft/config.go has seen when it returns.
use distributed_database.Prelude.{
  ℕ, zero, suc, ◌+◌, ◌%◌, ◌≤◌, ◌<◌, ◌≡◌, refl, ◌⊎◌, inl, inr, Bool, true, false, List, [], ◌∷◌,
  Option, none, some, ok, length, Bool-cases, Option-cases, Eq, Has, arith,
}
use distributed_database.Raft.Types.{Raft, Codec, State, leader}
use distributed_database.Raft.Node.{same_state}
use distributed_database.Raft.Log.{get_log_at_index}
use distributed_database.Raft.Leader.{start_append, start}
use distributed_database.Raft.Replica.{IsReplica}
use distributed_database.Raft.Replica.Start.{start_append-looked_up}
use distributed_database.Harness.{Judged, passed, failed}
use distributed_database.Harness.Agreement.{Round, try_servers, poll, conclude, one}
use distributed_database.Harness.Agreement.Counted.{holders, poll-agreed}

module _ {C : Type 0} (codec : Codec C) where
  -- Servers on which Start does not fault.
  pub record IsFit (rf : Raft C) : Type 0 where
    pub base : ℕ
    pub replica : IsReplica base rf
    pub mine : rf.me < length rf.match_index

  -- A connected server that led when it was asked has put the command at the index, in its term;
  -- `next` is the server then, and it still leads when its Start answers.
  pub record HasTaken (cmd : Option C) (index : ℕ) (r : Round C) (next : Raft C) : Type 0 where
    pub at : ℕ
    pub before : Raft C
    pub up : r.connected at ≡ true
    pub seen : r.seen at ≡ some before
    pub leads : before.state ≡ leader
    pub started : start_append codec cmd before ≡ ok (next, some index)
    pub still : (r.gap at next).state ≡ leader
    pub there :
        get_log_at_index next.log index
        ≡ ok (some (record { term = before.term; index = index; command = cmd }))

  pub start-follower :
      (cmd : Option C) (gap : Raft C → Raft C) (rf : Raft C)
      → same_state rf.state leader ≡ false
      → start codec cmd gap rf ≡ ok (rf, record { index = none; term = none; is_leader = false })
  unfolding start start_append
  start-follower cmd gap rf h = rw h refl

  pub same_state-leader : (s : State) → same_state s leader ≡ true → s ≡ leader
  unfolding same_state
  same_state-leader s h = ground arith

  -- The loop over the servers never faults, and what it finds is a leader that has taken the command.
  pub try_servers-tries :
      (cmd : Option C) (n : ℕ) (r : Round C) (m starts : ℕ)
      → ((s : ℕ) (rf : Raft C) → r.seen s ≡ some rf → IsFit rf)
      → (s : ℕ) × (found : Option (Raft C × Option ℕ)) × (try_servers codec cmd n r m starts
          ≡ ok (s, found))
        × ((found ≡ none)
            ⊎ ((next after : Raft C) × (index : ℕ) × (found ≡ some (after, some index))
                × HasTaken cmd index r next))
  unfolding try_servers start
  try_servers-tries cmd n r zero starts fit = (starts, none, refl, inl refl)
  try_servers-tries cmd n r (suc m) starts fit =
      let s : ℕ = (starts + 1) % n in
      let (t, found, ran, holds) = try_servers-tries cmd n r m s fit in
      elim (Bool-cases (r.connected s)) [
        | inr down ↦ (t, found, rw down ran, holds)
        | inl up ↦ elim (Option-cases (r.seen s)) [
          | inl crashed ↦ (t, found, rw (up, crashed) ran, holds)
          | inr (rf, seen) ↦ elim (Bool-cases (same_state rf.state leader)) [
            | inr other ↦
                (t, found, rw (up, seen, start-follower cmd (r.gap s) rf other) ran, holds)
            | inl leads ↦
                let f = fit s rf seen in
                let l = same_state-leader rf.state leads in
                let (next, index, starts_lem, there, _, _, _) =
                  start_append-looked_up codec f.base 0 cmd rf f.replica (below rf f) l f.mine in
                let after = r.gap s next in
                elim (Bool-cases (same_state after.state leader)) [
                  | inr lost ↦ (t, found, rw (up, seen, starts_lem, lost) ran, holds)
                  | inl keeps ↦ (
                    s,
                    some (after, some index),
                    rw (up, seen, starts_lem, keeps) refl,
                    inr (
                      next,
                      after,
                      index,
                      refl,
                      record {
                        at = s;
                        before = rf;
                        up = up;
                        seen = seen;
                        leads = l;
                        started = starts_lem;
                        still = same_state-leader after.state keeps;
                        there = there;
                      },
                    ),
                  )
                ]
          ]
        ]
      ]
    where
      below : (rf : Raft C) (f : IsFit rf) → 0 < f.base + length rf.log
      below rf f = omega (arith, f.replica.is_log.nonempty)

module _ {C : Type 0} ⦃e : Eq (Option C)⦄ (codec : Codec C) where
  -- In one of the rounds a leader took the command at the index, and then as many servers as are
  -- expected, and one at least, had all reported it there.
  pub record IsReached (cmd : Option C) (expected_servers index : ℕ) (rounds : List (Round C))
      : Type 0 where
    pub round : Round C
    pub among : Has round rounds
    pub next : Raft C
    pub taken : HasTaken codec cmd index round next
    pub logs : List (List (ℕ × Option C))
    pub looked : Has logs round.polls
    pub enough : expected_servers ≤ holders index cmd logs
    pub any : 0 < holders index cmd logs

  IsReached-later :
      (cmd : Option C) (expected_servers index : ℕ) (r : Round C) (rounds : List (Round C))
      → IsReached cmd expected_servers index rounds
      → IsReached cmd expected_servers index (r ∷ rounds)
  IsReached-later cmd expected_servers index r rounds h = record {
    round = h.round;
    among = inr h.among;
    next = h.next;
    taken = h.taken;
    logs = h.logs;
    looked = h.looked;
    enough = h.enough;
    any = h.any;
  }

  -- On servers with the invariant, each with its place in its match indices, `one` never faults: it
  -- fails the test, or it returns an index at which in one of its rounds a connected server that led
  -- put the command, in its term, and at which then, at one look at the reports, as many servers as
  -- are expected, and one at least, had reported that command.
  pub one-IsReached :
      (cmd : Option C) (expected_servers : ℕ) (retry : Bool) (n starts : ℕ)
      (rounds : List (Round C))
      → ((r : Round C) (s : ℕ) (rf : Raft C) → Has r rounds → r.seen s ≡ some rf → IsFit codec rf)
      → (out : Judged ℕ) × (one codec cmd expected_servers retry n starts rounds ≡ ok out)
        × ((out ≡ failed)
            ⊎ ((index : ℕ) × (out ≡ passed index) × IsReached cmd expected_servers index rounds))
  unfolding one conclude
  one-IsReached cmd expected_servers retry n starts [] fit = (failed, refl, inl refl)
  one-IsReached cmd expected_servers retry n starts (r ∷ rounds) fit =
      let (s, found, ran, took) =
        try_servers-tries codec cmd n r n starts (λ t rf seen. fit r t rf (inl refl) seen) in
      let (out, rest, holds) =
        one-IsReached cmd expected_servers retry n s rounds
          (λ q t rf has seen. fit q t rf (inr has) seen) in
      let later : (out ≡ failed)
          ⊎ ((index : ℕ) × (out ≡ passed index)
              × IsReached cmd expected_servers index (r ∷ rounds)) =
        elim holds [
          | inl stopped ↦ inl stopped
          | inr (index, ended, reached) ↦
              inr (index, ended, IsReached-later cmd expected_servers index r rounds reached)
        ] in
      elim took [
        | inl nobody ↦ (out, rw (ran, nobody) rest, later)
        | inr (next, after, index, is, taken) ↦
            elim (Judged-cases (poll cmd expected_servers index r.polls)) [
              | inl stops ↦ (failed, rw (ran, is, stops) refl, inl refl)
              | inr (inl agreed) ↦
                  let (logs, has, enough, any) =
                    poll-agreed cmd expected_servers index r.polls agreed in
                  (
                    passed index,
                    rw (ran, is, agreed) refl,
                    inr (
                      index,
                      refl,
                      record {
                        round = r;
                        among = inl refl;
                        next = next;
                        taken = taken;
                        logs = logs;
                        looked = has;
                        enough = enough;
                        any = any;
                      },
                    ),
                  )
              | inr (inr slow) ↦ elim (Bool-cases retry) [
                | inl again ↦ (out, rw (ran, is, slow, again) rest, later)
                | inr once ↦ (failed, rw (ran, is, slow, once) refl, inl refl)
              ]
            ]
      ]
    where
      Judged-cases : (j : Judged Bool) → (j ≡ failed) ⊎ ((j ≡ passed true) ⊎ (j ≡ passed false))
      Judged-cases failed = inl refl
      Judged-cases (passed true) = inr (inl refl)
      Judged-cases (passed false) = inr (inr refl)
