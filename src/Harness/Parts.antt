-- ===== src/Harness/Parts.antt =====
-- How raft-db/config.go connects its servers and clients and parts them.
pub mod Cut
pub mod Divided
pub mod Halves
pub mod Sides
pub mod Minority
pub mod Whole
use distributed_database.Prelude.{
  ℕ, zero, suc, ◌+◌, ◌-◌, ◌/◌, Bool, true, false, List, [], ◌∷◌, Option, none, some, Go, ok, panic,
  ◌>>=◌, index, deref, length, get_elem?, set, replicate, ltb, ◌==◌, if◌then◌else◌,
}
use distributed_database.Raft.Types.{Raft}
use distributed_database.Raft.Node.{get_state}
use distributed_database.Harness.Wires.{Labrpc, end_name}

module _ {Name Net : Type 0} (w : Labrpc Name Net) (endnames : List (Option (List Name))) where
  -- The first and the second loop of connectUnlocked.
  unfoldable pub connect_out : ℕ → List ℕ → Net → Go Net
  connect_out i [] net = ok net
  connect_out i (t ∷ to) net = do
    end ← end_name endnames i t
    connect_out i to (w.enable end true net)

  unfoldable pub connect_in : ℕ → List ℕ → Net → Go Net
  connect_in i [] net = ok net
  connect_in i (t ∷ to) net = do
    end ← end_name endnames t i
    connect_in i to (w.enable end true net)

  unfoldable pub connect_unlocked : ℕ → List ℕ → Net → Go Net
  unfolding connect_out connect_in
  connect_unlocked i to net = do out ← connect_out i to net; connect_in i to out

  -- The first loop of disconnectUnlocked.
  unfoldable pub disconnect_out : ℕ → List ℕ → Net → Go Net
  disconnect_out i [] net = ok net
  disconnect_out i (f ∷ from) net = do
    row ← index endnames i
    elim row [
      | none ↦ disconnect_out i from net
      | some own ↦ do end ← index own f; disconnect_out i from (w.enable end false net)
    ]

  -- The second one from its `j`-th pass on, which asks for row `j` before it uses row `from[j]`.
  unfoldable pub disconnect_in : ℕ → ℕ → List ℕ → Net → Go Net
  disconnect_in i j [] net = ok net
  disconnect_in i j (f ∷ from) net = do
    row ← index endnames j
    elim row [
      | none ↦ disconnect_in i (j + 1) from net
      | some own ↦ do
        end ← end_name endnames f i
        disconnect_in i (j + 1) from (w.enable end false net)
    ]

  unfoldable pub disconnect_unlocked : ℕ → List ℕ → Net → Go Net
  unfolding disconnect_out disconnect_in
  disconnect_unlocked i from net = do out ← disconnect_out i from net; disconnect_in i 0 from out

  -- One of the loops of `partition`, which parts the servers of a list from the others.
  unfoldable pub part_off : List ℕ → List ℕ → List ℕ → Net → Go Net
  unfolding connect_unlocked disconnect_unlocked
  part_off [] own other net = ok net
  part_off (i ∷ is) own other net = do
    cut ← disconnect_unlocked i other net
    joined ← connect_unlocked i own cut
    part_off is own other joined

  unfoldable pub partition : List ℕ → List ℕ → Net → Go Net
  unfolding part_off
  partition p1 p2 net = do first ← part_off p1 p1 p2 net; part_off p2 p2 p1 first

  -- The loop of ConnectAll from `i` on, over the servers of `all`.
  unfoldable pub connect_from : ℕ → ℕ → List ℕ → Net → Go Net
  unfolding connect_unlocked
  connect_from i zero all net = ok net
  connect_from i (suc n) all net = do
    joined ← connect_unlocked i all net
    connect_from (i + 1) n all joined

-- The numbers from `i` on; with 0 and cfg.n it is All.
unfoldable pub all_from : ℕ → ℕ → List ℕ
all_from i zero = []
all_from i (suc n) = i ∷ all_from (i + 1) n

unfoldable pub connect_all :
    {Name Net : Type 0} → Labrpc Name Net → ℕ → List (Option (List Name)) → Net → Go Net
unfolding connect_from all_from
connect_all w n endnames net = connect_from w endnames 0 n (all_from 0 n) net

-- The loops of ConnectClientUnlocked and DisconnectClientUnlocked: the client's ends to each server
-- of the list are set.
unfoldable pub set_client :
    {Name Net : Type 0} → Labrpc Name Net → Bool → List Name → List ℕ → Net → Go Net
set_client w v ends [] net = ok net
set_client w v ends (t ∷ to) net = do
  end ← index ends t
  set_client w v ends to (w.enable end v net)

-- The loop of Leader from `i` on; `seen i` is the Raft of server `i` when it is asked, and a server
-- that is shut down has none.
unfoldable pub find_leader {ℓ} : {C : Type ℓ} → (ℕ → Option (Raft C)) → ℕ → ℕ → Go (Bool × ℕ)
unfolding get_state
find_leader seen i zero = ok (false, 0)
find_leader seen i (suc n) =
    let rest = find_leader seen (i + 1) n in
    (do rf ← deref (seen i); if (get_state rf).1 then ok (true, i) else rest)

-- xs[i] = v
abbrev pub store {ℓ} : {A : Type ℓ} → List A → ℕ → A → Go (List A)
store xs i v = if ltb i (length xs) then ok (set xs i v) else panic

-- The loop of make_partition from server `i` on, with `j` the number of servers dealt out.
unfoldable pub deal : ℕ → ℕ → ℕ → ℕ → List ℕ → List ℕ → Go (List ℕ × List ℕ)
deal l i zero j p1 p2 = ok (p1, p2)
deal l i (suc n) j p1 p2 =
    if i == l
    then deal l (i + 1) n j p1 p2
    else if ltb j (length p1)
    then (do q1 ← store p1 j i; deal l (i + 1) n (j + 1) q1 p2)
    else (do q2 ← store p2 (j - length p1) i; deal l (i + 1) n (j + 1) p1 q2)

-- p2[len(p2)-1] = l, where an empty list has no last element.
unfoldable pub store_last : List ℕ → ℕ → Go (List ℕ)
store_last [] l = panic
store_last (x ∷ xs) l = ok (set (x ∷ xs) (length xs) l)

unfoldable pub make_partition {ℓ} : {C : Type ℓ} → ℕ → (ℕ → Option (Raft C)) → Go (List ℕ × List ℕ)
unfolding find_leader deal store_last
make_partition n seen = do
  (found, l) ← find_leader seen 0 n
  (p1, p2) ← deal l 0 n 0 (replicate (n / 2 + 1) 0) (replicate (n / 2) 0)
  last ← store_last p2 l
  ok (p1, last)
