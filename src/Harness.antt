-- ===== src/Harness.antt =====
-- The test harness of raft/config.go: what its checks ask of the servers, and when a test fails.
pub mod Leaders
pub mod Applier
pub mod Checks
pub mod Wires
pub mod Parts
pub mod Links
pub mod Agreement
pub mod Waiting
use distributed_database.Prelude.{
  ℕ, zero, suc, ◌+◌, Bool, true, false, ◌&&◌, List, [], ◌∷◌, ◌++◌, Option, none, some, Go, ok,
  panic, ◌>>=◌, index, length, ltb, leb, ◌==◌, if◌then◌else◌, not, lookup, insert, nat_eq,
}
use distributed_database.Raft.Types.{Raft}
use distributed_database.Raft.Node.{get_state}

-- How a check ends: t.Fatalf ends the test.
pub data Judged {ℓ} (A : Type ℓ) : Type ℓ where
  passed : A → Judged A
  failed : Judged A

-- leaders[term] = append(leaders[term], i)
unfoldable pub add_leader : ℕ → ℕ → List (ℕ × List ℕ) → List (ℕ × List ℕ)
unfolding lookup insert
add_leader term i leaders = elim (lookup term leaders) [
  | none ↦ insert term (i ∷ []) leaders
  | some known ↦ insert term (known ++ i ∷ []) leaders
]

-- The greater of a term and lastTermWithLeader, where `none` is the -1.
abbrev pub later_term : ℕ → Option ℕ → ℕ
later_term term none = term
later_term term (some last) = if ltb last term then term else last

-- The loop over the terms with leaders.
unfoldable pub last_term : Option ℕ → List (ℕ × List ℕ) → Judged (Option ℕ)
last_term last [] = passed last
last_term last ((term, known) ∷ rest) =
    let others = last_term (some (later_term term last)) rest in
    if ltb 1 (length known) then failed else others

-- leaders[term][0], where a missing term has no leaders; nothing is under the -1.
unfoldable pub first_leader : Option ℕ → List (ℕ × List ℕ) → Go ℕ
unfolding lookup
first_leader none leaders = panic
first_leader (some term) leaders = elim (lookup term leaders) [
  | none ↦ panic
  | some known ↦ index known 0
]

-- The end of a round of checkOneLeader: `passed none` is one more round.
unfoldable pub judge_leaders : List (ℕ × List ℕ) → Go (Judged (Option ℕ))
unfolding last_term first_leader
judge_leaders leaders = elim (last_term none leaders) [
  | failed ↦ ok failed
  | passed last ↦
      if leb (length leaders) 0
      then ok (passed none)
      else (do i ← first_leader last leaders; ok (passed (some i)))
]

module _ {ℓ} {C : Type ℓ} where
  -- The loop that asks the connected servers from `i` on; `seen i` is server `i` when it is asked.
  unfoldable pub collect_leaders :
      (ℕ → Bool) → (ℕ → Raft C) → ℕ → ℕ → List (ℕ × List ℕ) → List (ℕ × List ℕ)
  unfolding get_state add_leader
  collect_leaders connected seen i zero leaders = leaders
  collect_leaders connected seen i (suc n) leaders =
      let (term, leads) = get_state (seen i) in
      collect_leaders connected seen (i + 1) n
        (if connected i && leads then add_leader term i leaders else leaders)

  unfoldable pub leader_round : ℕ → (ℕ → Bool) → (ℕ → Raft C) → Go (Judged (Option ℕ))
  unfolding collect_leaders judge_leaders
  leader_round n connected seen = judge_leaders (collect_leaders connected seen 0 n [])

  -- checkOneLeader, over its rounds, of which the source has ten at most.
  unfoldable pub check_one_leader : ℕ → (ℕ → Bool) → List (ℕ → Raft C) → Go (Judged ℕ)
  unfolding leader_round
  check_one_leader n connected [] = ok failed
  check_one_leader n connected (seen ∷ rounds) = do
    let rest = check_one_leader n connected rounds
    found ← leader_round n connected seen
    elim found [ failed ↦ ok failed | passed none ↦ rest | passed (some i) ↦ ok (passed i) ]

  -- The loop of checkTerms, where `none` is the -1.
  unfoldable pub check_terms : (ℕ → Bool) → (ℕ → Raft C) → ℕ → ℕ → Option ℕ → Judged (Option ℕ)
  unfolding get_state
  check_terms connected seen i zero term = passed term
  check_terms connected seen i (suc n) term =
      let (there, leads) = get_state (seen i) in
      let same = check_terms connected seen (i + 1) n term in
      let first = check_terms connected seen (i + 1) n (some there) in
      if connected i
      then elim term [ none ↦ first | some t ↦ if t == there then same else failed ]
      else same

  -- The loop of checkNoLeader: whether the test goes on.
  unfoldable pub check_no_leader : (ℕ → Bool) → (ℕ → Raft C) → ℕ → ℕ → Bool
  unfolding get_state
  check_no_leader connected seen i zero = true
  check_no_leader connected seen i (suc n) =
      let rest = check_no_leader connected seen (i + 1) n in
      if connected i && (get_state (seen i)).1 then false else rest
