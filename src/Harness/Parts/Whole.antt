-- ===== src/Harness/Parts/Whole.antt =====
-- What ConnectAll of raft-db/config.go leaves connected, and the ends of its clients.
use distributed_database.Prelude.{
  ℕ, zero, suc, ◌+◌, ◌≤◌, ◌<◌, ◌≡◌, refl, sym, ◌∙◌, Bool, true, false, ◌&&◌, ◌||◌, List, [], ◌∷◌,
  Option, some, ok, get_elem?, All, arith, ltb, leb, ◌==◌, ==_iff, if◌then◌else◌, Bool-cases, inl,
  inr,
}
use distributed_database.Harness.Wires.{Labrpc, IsWired, among, links}
use distributed_database.Harness.Parts.{connect_from, connect_all, all_from, set_client}
use distributed_database.Harness.Parts.Cut.{connect_unlocked-links}

among-all_from : (a i m : ℕ) → among a (all_from i m) ≡ (leb i a && ltb a (i + m))
unfolding all_from
among-all_from a i zero = ground arith
among-all_from a i (suc m) = ground (arith, among-all_from a (i + 1) m)

All-all_from : (n i m : ℕ) → i + m ≤ n → All (λ t. t < n) (all_from i m)
unfolding all_from
All-all_from n i zero fits = tt
All-all_from n i (suc m) fits =
    (omega (arith, fits), All-all_from n (i + 1) m (omega (arith, fits)))

module _ {Name Net : Type 0} (w : Labrpc Name Net) {n : ℕ} {endnames : List (Option (List Name))}
    {names : ℕ → ℕ → Name} (wired : IsWired n endnames names) where
  connect_from-links :
      (i m : ℕ) (net : Net)
      → i + m ≤ n
      → (out : Net) × (connect_from w endnames i m (all_from 0 n) net ≡ ok out)
        × ((a b : ℕ)
            → a < n
            → b < n
            → links w names out a b
              ≡ ((leb i a && ltb a (i + m)) || (leb i b && ltb b (i + m)) || links w names net a b))
  unfolding connect_from
  connect_from-links i zero net fits =
      (net, refl, λ a b ha hb. nowhere i a b (links w names net a b))
    where
      nowhere :
          (i' a' b' : ℕ) (l : Bool)
          → l ≡ ((leb i' a' && ltb a' (i' + 0)) || (leb i' b' && ltb b' (i' + 0)) || l)
      nowhere i' a' b' l = ground arith
  connect_from-links i (suc m) net fits =
      let (mid, first, here) =
        connect_unlocked-links w wired i (all_from 0 n) net (omega (arith, fits))
          (All-all_from n 0 n (omega arith)) in
      let (out, rest, later) = connect_from-links (i + 1) m mid (omega (arith, fits)) in
      (
        out,
        rw first rest,
        λ a b ha hb.
            rw (later a b ha hb, here a b ha hb, among-all_from a 0 n, among-all_from b 0 n)
              (joined i a b m (links w names net a b) ha hb),
      )
    where
      joined :
          (i' a' b' m' : ℕ) (l : Bool)
          → a' < n
          → b' < n
          → ((leb (i' + 1) a' && ltb a' (i' + 1 + m'))
              || (leb (i' + 1) b' && ltb b' (i' + 1 + m'))
              || ((i' == a' && (leb 0 b' && ltb b' (0 + n)))
                  || (i' == b' && (leb 0 a' && ltb a' (0 + n)))
                  || l))
            ≡ ((leb i' a' && ltb a' (i' + suc m')) || (leb i' b' && ltb b' (i' + suc m')) || l)
      joined i' a' b' m' l ha hb = ground arith

  -- After ConnectAll every server can call every other one.
  pub connect_all-links :
      (net : Net) (a b : ℕ)
      → a < n
      → b < n
      → (out : Net) × (connect_all w n endnames net ≡ ok out) × (links w names out a b ≡ true)
  unfolding connect_all
  connect_all-links net a b ha hb =
      let (out, ran, all) = connect_from-links 0 n net (omega arith) in
      (out, ran, all a b ha hb ∙ whole (links w names net a b))
    where
      whole : (l : Bool) → ((leb 0 a && ltb a (0 + n)) || (leb 0 b && ltb b (0 + n)) || l) ≡ true
      whole l = ground arith

-- A client's ends to the listed servers are set, and its others stay as they were.
pub set_client-ends :
    {Name Net : Type 0} (w : Labrpc Name Net) (v : Bool) {n : ℕ} (ends : List Name)
    (name : ℕ → Name) (to : List ℕ) (net : Net) (j : ℕ)
    → ((k : ℕ) → k < n → get_elem? ends k ≡ some (name k))
    → ((k l : ℕ) → k < n → l < n → name k ≡ name l → k ≡ l)
    → All (λ t. t < n) to
    → j < n
    → (out : Net) × (set_client w v ends to net ≡ ok out)
      × (w.enabled out (name j) ≡ (if among j to then v else w.enabled net (name j)))
unfolding set_client
set_client-ends w v ends name [] net j at apart hto hj = (net, refl, refl)
set_client-ends w v ends name (t ∷ to) net j at apart hto hj =
    let (out, ran, rest) =
      set_client-ends w v ends name to (w.enable (name t) v net) j at apart hto.1 hj in
    (
      out,
      rw (at t hto.0) ran,
      elim (Bool-cases (t == j)) [
        | inl same ↦
            rest
            ∙ rw (same, sym ((==_iff t j).0 same), w.enable-self (name t) v net)
                (either_way (among t to))
        | inr differ ↦
            rest
            ∙ rw
                (
                  differ,
                  w.enable-other (name t) (name j) v net
                      (λ e. cc (differ, (==_iff t j).1 (apart t j hto.0 hj e))),
                )
                refl
      ],
    )
  where
    either_way : (x : Bool) → (if x then v else v) ≡ v
    either_way true = refl
    either_way false = refl
