-- ===== src/Harness/Links.antt =====
-- How raft/config.go connects its servers: `connect`, `disconnect`, and the ends that a crash takes
-- away and that a start makes anew.
pub mod Marks
pub mod Linked
pub mod Ends
pub mod Turns
use distributed_database.Prelude.{
  ℕ, zero, suc, ◌+◌, Bool, true, false, List, [], ◌∷◌, Option, none, some, Go, ok, panic, ◌>>=◌,
  index, length, get_elem?, set, ltb, if◌then◌else◌,
}
use distributed_database.Harness.Wires.{Labrpc, end_name}

-- cfg.connected, cfg.endnames and cfg.net; cfg.n is the length of the first two.
pub record TestConfig (Name Net : Type 0) : Type 0 where
  pub n : ℕ
  pub connected : List Bool
  pub endnames : List (Option (List Name))
  pub net : Net

module _ {Name Net : Type 0} (w : Labrpc Name Net) where
  -- The loops of `connect` from `j` on: those of the outgoing and of the incoming ends.
  unfoldable pub enable_out : List Bool → List (Option (List Name)) → ℕ → ℕ → ℕ → Net → Go Net
  enable_out connected endnames i j zero net = ok net
  enable_out connected endnames i j (suc m) net = do
    up ← index connected j
    if up
        then (do
          end ← end_name endnames i j
          enable_out connected endnames i (j + 1) m (w.enable end true net))
        else enable_out connected endnames i (j + 1) m net

  unfoldable pub enable_in : List Bool → List (Option (List Name)) → ℕ → ℕ → ℕ → Net → Go Net
  enable_in connected endnames i j zero net = ok net
  enable_in connected endnames i j (suc m) net = do
    up ← index connected j
    if up
        then (do
          end ← end_name endnames j i
          enable_in connected endnames i (j + 1) m (w.enable end true net))
        else enable_in connected endnames i (j + 1) m net

  -- cfg.connected[i] = v
  unfoldable pub mark : ℕ → Bool → TestConfig Name Net → Go (TestConfig Name Net)
  mark i v cfg =
      if ltb i (length cfg.connected)
      then ok (record cfg { connected = set cfg.connected i v })
      else panic

  unfoldable pub connect : ℕ → TestConfig Name Net → Go (TestConfig Name Net)
  unfolding enable_out enable_in mark
  connect i cfg = do
    marked ← mark i true cfg
    out ← enable_out marked.connected marked.endnames i 0 marked.n marked.net
    both ← enable_in marked.connected marked.endnames i 0 marked.n out
    ok (record marked { net = both })

  -- The loops of `disconnect` from `j` on.
  unfoldable pub disable_out : List (Option (List Name)) → ℕ → ℕ → ℕ → Net → Go Net
  disable_out endnames i j zero net = ok net
  disable_out endnames i j (suc m) net = do
    row ← index endnames i
    elim row [
      | none ↦ disable_out endnames i (j + 1) m net
      | some own ↦ do end ← index own j; disable_out endnames i (j + 1) m (w.enable end false net)
    ]

  unfoldable pub disable_in : List (Option (List Name)) → ℕ → ℕ → ℕ → Net → Go Net
  disable_in endnames i j zero net = ok net
  disable_in endnames i j (suc m) net = do
    row ← index endnames j
    elim row [
      | none ↦ disable_in endnames i (j + 1) m net
      | some own ↦ do end ← index own i; disable_in endnames i (j + 1) m (w.enable end false net)
    ]

  unfoldable pub disconnect : ℕ → TestConfig Name Net → Go (TestConfig Name Net)
  unfolding disable_out disable_in mark
  disconnect i cfg = do
    marked ← mark i false cfg
    out ← disable_out marked.endnames i 0 marked.n marked.net
    both ← disable_in marked.endnames i 0 marked.n out
    ok (record marked { net = both })

  -- The loop of start1 that makes the ends of server `i` from the `j`-th on, under new names.
  unfoldable pub new_ends : List Name → ℕ → ℕ → Net → Go Net
  new_ends fresh j zero net = ok net
  new_ends fresh j (suc m) net = do
    end ← index fresh j
    new_ends fresh (j + 1) m (w.attach end j (w.make_end end net))

  -- What start1 does to the network: it crashes the server, which disconnects it, and makes it new
  -- ends, whose names `fresh` are randstring's.
  unfoldable pub start_ends : ℕ → List Name → TestConfig Name Net → Go (TestConfig Name Net)
  unfolding disconnect new_ends
  start_ends i fresh cfg = do
    crashed ← disconnect i cfg
    ends ← new_ends fresh 0 crashed.n crashed.net
    if ltb i (length crashed.endnames)
        then ok (record crashed { endnames = set crashed.endnames i (some fresh); net = ends })
        else panic

-- What a test does to its servers' links.
pub data Turn (Name : Type 0) : Type 0 where
  connecting disconnecting : ℕ → Turn Name
  starting : ℕ → List Name → Turn Name

unfoldable pub turn_links :
    {Name Net : Type 0}
    → Labrpc Name Net
    → Turn Name
    → TestConfig Name Net
    → Go (TestConfig Name Net)
unfolding connect disconnect start_ends
turn_links w (connecting i) cfg = connect w i cfg
turn_links w (disconnecting i) cfg = disconnect w i cfg
turn_links w (starting i fresh) cfg = start_ends w i fresh cfg

unfoldable pub turn_all :
    {Name Net : Type 0}
    → Labrpc Name Net
    → List (Turn Name)
    → TestConfig Name Net
    → Go (TestConfig Name Net)
unfolding turn_links
turn_all w [] cfg = ok cfg
turn_all w (t ∷ turns) cfg = do next ← turn_links w t cfg; turn_all w turns next
