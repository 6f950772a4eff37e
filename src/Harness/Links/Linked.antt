-- ===== src/Harness/Links/Linked.antt =====
-- Which links `connect` and `disconnect` of raft/config.go leave on.
use distributed_database.Prelude.{
  ℕ, zero, suc, ◌+◌, ◌≤◌, ◌<◌, ◌≡◌, refl, ◌∙◌, Bool, true, false, ◌&&◌, List, Option, ok, length,
  set, arith, ltb, lt→ltb, ◌==◌, if◌then◌else◌, inl, inr, leb, length-set,
}
use distributed_database.Harness.Wires.{
  Labrpc, IsWired, end_name-IsWired, links, set_out, set_in, links-set_out, links-set_in,
}
use distributed_database.Harness.Links.Marks.{
  is_up, up_from, from, among-up_from, among-from, All-up_from, All-from, up_cases, is_up-set,
}
use distributed_database.Harness.Links.{
  TestConfig, enable_out, enable_in, connect, disable_out, disable_in, disconnect, mark,
}

module _ {Name Net : Type 0} (w : Labrpc Name Net) {n : ℕ} {endnames : List (Option (List Name))}
    {names : ℕ → ℕ → Name} (wired : IsWired n endnames names) (i : ℕ) (small : i < n) where
  enable_out-set :
      (connected : List Bool) (j m : ℕ) (net : Net)
      → length connected ≡ n
      → j + m ≤ n
      → enable_out w connected endnames i j m net
        ≡ ok (set_out w names true i (up_from connected j m) net)
  unfolding enable_out
  enable_out-set connected j zero net len fits = refl
  enable_out-set connected j (suc m) net len fits =
      let end = end_name-IsWired i j wired small (omega (arith, fits)) in
      elim (up_cases connected j (omega (arith, len, fits))) [
        | inl (at, up) ↦
            rw (at, up, end)
              (enable_out-set connected (j + 1) m (w.enable (names i j) true net) len
                (omega (arith, fits)))
        | inr (at, down) ↦
            rw (at, down) (enable_out-set connected (j + 1) m net len (omega (arith, fits)))
      ]

  enable_in-set :
      (connected : List Bool) (j m : ℕ) (net : Net)
      → length connected ≡ n
      → j + m ≤ n
      → enable_in w connected endnames i j m net
        ≡ ok (set_in w names true i (up_from connected j m) net)
  unfolding enable_in
  enable_in-set connected j zero net len fits = refl
  enable_in-set connected j (suc m) net len fits =
      let end = end_name-IsWired j i wired (omega (arith, fits)) small in
      elim (up_cases connected j (omega (arith, len, fits))) [
        | inl (at, up) ↦
            rw (at, up, end)
              (enable_in-set connected (j + 1) m (w.enable (names j i) true net) len
                (omega (arith, fits)))
        | inr (at, down) ↦
            rw (at, down) (enable_in-set connected (j + 1) m net len (omega (arith, fits)))
      ]

  disable_out-set :
      (j m : ℕ) (net : Net)
      → j + m ≤ n
      → disable_out w endnames i j m net ≡ ok (set_out w names false i (from j m) net)
  unfolding disable_out
  disable_out-set j zero net fits = refl
  disable_out-set j (suc m) net fits =
      let (own, here, ends) = wired.row i small in
      rw (here, ends j (omega (arith, fits)))
        (disable_out-set (j + 1) m (w.enable (names i j) false net) (omega (arith, fits)))

  disable_in-set :
      (j m : ℕ) (net : Net)
      → j + m ≤ n
      → disable_in w endnames i j m net ≡ ok (set_in w names false i (from j m) net)
  unfolding disable_in
  disable_in-set j zero net fits = refl
  disable_in-set j (suc m) net fits =
      let (own, here, ends) = wired.row j (omega (arith, fits)) in
      rw (here, ends i small)
        (disable_in-set (j + 1) m (w.enable (names j i) false net) (omega (arith, fits)))

-- The state of the links: two servers can call each other if and only if both are connected.
pub record IsLinked {Name Net : Type 0} (w : Labrpc Name Net) (names : ℕ → ℕ → Name)
    (cfg : TestConfig Name Net) : Type 0 where
  pub wired : IsWired cfg.n cfg.endnames names
  pub marks : length cfg.connected ≡ cfg.n
  pub linked :
      (a b : ℕ)
      → a < cfg.n
      → b < cfg.n
      → links w names cfg.net a b ≡ (is_up cfg.connected a && is_up cfg.connected b)

-- One link after `connect`.
connected_lem :
    (i a b n : ℕ) (u v : Bool)
    → a < n
    → b < n
    → (if i == b && (leb 0 a && ltb a (0 + n) && (if i == a then true else u))
        then true
        else if i == a && (leb 0 b && ltb b (0 + n) && (if i == b then true else v))
        then true
        else (u && v))
      ≡ ((if i == a then true else u) && (if i == b then true else v))
connected_lem i a b n u v ha hb = ground arith

disconnected_lem :
    (i a b n : ℕ) (u v : Bool)
    → a < n
    → b < n
    → (if i == b && (leb 0 a && ltb a (0 + n))
        then false
        else if i == a && (leb 0 b && ltb b (0 + n))
        then false
        else (u && v))
      ≡ ((if i == a then false else u) && (if i == b then false else v))
disconnected_lem i a b n u v ha hb = ground arith

module _ {Name Net : Type 0} (w : Labrpc Name Net) (names : ℕ → ℕ → Name) where
  -- `connect` of one of the servers never faults and leaves the servers' links as they should be:
  -- on, if and only if both servers are connected, where the server now counts as connected.
  pub connect-IsLinked :
      (i : ℕ) (cfg : TestConfig Name Net)
      → IsLinked w names cfg
      → i < cfg.n
      → (out : TestConfig Name Net) × (connect w i cfg ≡ ok out)
        × IsLinked w names out
        × (out.connected ≡ set cfg.connected i true)
        × (out.endnames ≡ cfg.endnames)
        × (out.n ≡ cfg.n)
  unfolding connect mark
  connect-IsLinked i cfg l small =
      let marks = set cfg.connected i true in
      let len = length-set cfg.connected i true ∙ l.marks in
      let ups = up_from marks 0 cfg.n in
      let all = All-up_from cfg.n marks 0 cfg.n (omega arith) in
      let mid = set_out w names true i ups cfg.net in
      let first = enable_out-set w l.wired i small marks 0 cfg.n cfg.net len (omega arith) in
      let second = enable_in-set w l.wired i small marks 0 cfg.n mid len (omega arith) in
      let bound : i < length cfg.connected = omega (arith, small, l.marks) in
      let here = lt→ltb i (length cfg.connected) bound in
      (
        record cfg { connected = marks; net = set_in w names true i ups mid },
        rw (here, first, second) refl,
        record {
          wired = l.wired;
          marks = len;
          linked = λ a b ha hb.
              rw
                (
                  links-set_in w names l.wired true i ups mid a b small all ha hb,
                  links-set_out w names l.wired true i ups cfg.net a b small all ha hb,
                  l.linked a b ha hb,
                  among-up_from marks a 0 cfg.n,
                  among-up_from marks b 0 cfg.n,
                  is_up-set cfg.connected i a true bound,
                  is_up-set cfg.connected i b true bound,
                )
                (connected_lem i a b cfg.n (is_up cfg.connected a) (is_up cfg.connected b) ha hb);
        },
        refl,
        refl,
        refl,
      )

  -- `disconnect` of one of the servers, likewise.
  pub disconnect-IsLinked :
      (i : ℕ) (cfg : TestConfig Name Net)
      → IsLinked w names cfg
      → i < cfg.n
      → (out : TestConfig Name Net) × (disconnect w i cfg ≡ ok out)
        × IsLinked w names out
        × (out.connected ≡ set cfg.connected i false)
        × (out.endnames ≡ cfg.endnames)
        × (out.n ≡ cfg.n)
  unfolding disconnect mark
  disconnect-IsLinked i cfg l small =
      let marks = set cfg.connected i false in
      let len = length-set cfg.connected i false ∙ l.marks in
      let every = from 0 cfg.n in
      let all = All-from cfg.n 0 cfg.n (omega arith) in
      let mid = set_out w names false i every cfg.net in
      let first = disable_out-set w l.wired i small 0 cfg.n cfg.net (omega arith) in
      let second = disable_in-set w l.wired i small 0 cfg.n mid (omega arith) in
      let bound : i < length cfg.connected = omega (arith, small, l.marks) in
      let here = lt→ltb i (length cfg.connected) bound in
      (
        record cfg { connected = marks; net = set_in w names false i every mid },
        rw (here, first, second) refl,
        record {
          wired = l.wired;
          marks = len;
          linked = λ a b ha hb.
              rw
                (
                  links-set_in w names l.wired false i every mid a b small all ha hb,
                  links-set_out w names l.wired false i every cfg.net a b small all ha hb,
                  l.linked a b ha hb,
                  among-from a 0 cfg.n,
                  among-from b 0 cfg.n,
                  is_up-set cfg.connected i a false bound,
                  is_up-set cfg.connected i b false bound,
                )
                (disconnected_lem i a b cfg.n (is_up cfg.connected a) (is_up cfg.connected b) ha
                  hb);
        },
        refl,
        refl,
        refl,
      )
