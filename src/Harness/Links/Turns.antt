-- ===== src/Harness/Links/Turns.antt =====
-- Runs of connects, disconnects and starts of raft/config.go.
use distributed_database.Prelude.{
  ℕ, ◌<◌, ◌≡◌, refl, ap, ◌∙◌, Bool, true, false, List, [], ◌∷◌, Option, some, ok, set,
}
use distributed_database.Harness.Wires.{Labrpc, IsWired}
use distributed_database.Harness.Links.{
  TestConfig, Turn, connecting, disconnecting, starting, turn_links, turn_all,
}
use distributed_database.Harness.Links.Linked.{IsLinked, connect-IsLinked, disconnect-IsLinked}
use distributed_database.Harness.Links.Ends.{start_ends-IsLinked}

-- Which servers are connected afterwards, by the turns alone.
abbrev pub marks_after : {Name : Type 0} → List (Turn Name) → List Bool → List Bool
marks_after [] marks = marks
marks_after (connecting i ∷ turns) marks = marks_after turns (set marks i true)
marks_after (disconnecting i ∷ turns) marks = marks_after turns (set marks i false)
marks_after (starting i fresh ∷ turns) marks = marks_after turns (set marks i false)

-- The turns are of servers that there are, and each start has names that no other end has.
abbrev pub Fits : {Name : Type 0} → ℕ → List (Option (List Name)) → List (Turn Name) → Type 0
Fits n endnames [] = Unit
Fits n endnames (connecting i ∷ turns) = (i < n) × Fits n endnames turns
Fits n endnames (disconnecting i ∷ turns) = (i < n) × Fits n endnames turns
Fits {Name = Name} n endnames (starting i fresh ∷ turns) =
    (i < n)
    × ((names : ℕ → ℕ → Name) × IsWired n (set endnames i (some fresh)) names)
    × Fits n (set endnames i (some fresh)) turns

-- From servers whose links are as they should be, any connects, disconnects and starts of servers
-- that there are, each start with names that no other end has, never fault; afterwards a server can
-- call another one if and only if both are connected, where a server is connected if and only if
-- the last turn that it took was a connect, or it took none and was connected before.
pub turn_all-IsLinked :
    {Name Net : Type 0} (w : Labrpc Name Net) (names : ℕ → ℕ → Name) (turns : List (Turn Name))
    (cfg : TestConfig Name Net)
    → IsLinked w names cfg
    → Fits cfg.n cfg.endnames turns
    → (out : TestConfig Name Net) × (names' : ℕ → ℕ → Name) × (turn_all w turns cfg ≡ ok out)
      × IsLinked w names' out
      × (out.connected ≡ marks_after turns cfg.connected)
unfolding turn_all turn_links
turn_all-IsLinked w names [] cfg l fits = (cfg, names, refl, l, refl)
turn_all-IsLinked w names (connecting i ∷ turns) cfg l fits =
    let (mid, first, later, up, rows, count) = connect-IsLinked w names i cfg l fits.0 in
    let (out, names', rest, linked, marks) =
      turn_all-IsLinked w names turns mid later (rw (rows, count) fits.1) in
    (out, names', rw first rest, linked, marks ∙ ap (marks_after turns) up)
turn_all-IsLinked w names (disconnecting i ∷ turns) cfg l fits =
    let (mid, first, later, up, rows, count) = disconnect-IsLinked w names i cfg l fits.0 in
    let (out, names', rest, linked, marks) =
      turn_all-IsLinked w names turns mid later (rw (rows, count) fits.1) in
    (out, names', rw first rest, linked, marks ∙ ap (marks_after turns) up)
turn_all-IsLinked w names (starting i fresh ∷ turns) cfg l fits =
    let (new_names, new) = fits.1 in
    let (mid, first, later, up, rows, count) =
      start_ends-IsLinked w names new_names i fresh cfg l fits.0 new in
    let (out, names', rest, linked, marks) =
      turn_all-IsLinked w new_names turns mid later (rw (rows, count) fits.2) in
    (out, names', rw first rest, linked, marks ∙ ap (marks_after turns) up)
