-- ===== src/Harness/Links/Ends.antt =====
-- The new ends that start1 of raft/config.go makes.
use distributed_database.Prelude.{
  ℕ, zero, suc, ◌+◌, ◌≤◌, ◌<◌, ◌≡◌, ◌≢◌, refl, sym, ap, subst, ◌∙◌, Bool, false, ◌&&◌, List, Option,
  some, ok, length, get_elem?, set, arith, ltb, lt→ltb, leb, ◌==◌, ==_iff, if◌then◌else◌,
  Bool-cases, ==_refl, inl, inr, get_elem?-set_self, get_elem?-set_ne, lt_of_get_elem?,
}
use distributed_database.Harness.Wires.{Labrpc, IsWired, links, links-one}
use distributed_database.Harness.Links.Marks.{is_up, is_up-set}
use distributed_database.Harness.Links.Linked.{IsLinked, disconnect-IsLinked}
use distributed_database.Harness.Links.{TestConfig, new_ends, start_ends}

module _ {Name Net : Type 0} (w : Labrpc Name Net) {n : ℕ} {endnames : List (Option (List Name))}
    {names : ℕ → ℕ → Name} (wired : IsWired n endnames names) where
  links-make_end :
      (i j a b : ℕ) (net : Net)
      → i < n
      → j < n
      → a < n
      → b < n
      → links w names (w.attach (names i j) j (w.make_end (names i j) net)) a b
        ≡ (if i == a && j == b then false else links w names net a b)
  links-make_end i j a b net hi hj ha hb =
      let end : Name = names i j in
      links-one w names wired i j a b false net (w.attach end j (w.make_end end net)) hi hj ha hb
        (w.attach-enabled end end j (w.make_end end net) ∙ w.make_end-self end net)
        (λ other e.
          w.attach-enabled end other j (w.make_end end net) ∙ w.make_end-other end other net e)

  new_ends-links :
      (i : ℕ) (fresh : List Name) (j m : ℕ) (net : Net)
      → i < n
      → ((k : ℕ) → k < n → get_elem? fresh k ≡ some (names i k))
      → j + m ≤ n
      → (out : Net) × (new_ends w fresh j m net ≡ ok out)
        × ((a b : ℕ)
            → a < n
            → b < n
            → links w names out a b
              ≡ (if i == a && (leb j b && ltb b (j + m)) then false else links w names net a b))
  unfolding new_ends
  new_ends-links i fresh j zero net hi at fits =
      (net, refl, λ a b ha hb. nowhere i a j b (links w names net a b))
    where
      nowhere :
          (i' a' j' b' : ℕ) (l : Bool)
          → l ≡ (if i' == a' && (leb j' b' && ltb b' (j' + 0)) then false else l)
      nowhere i' a' j' b' l = ground arith
  new_ends-links i fresh j (suc m) net hi at fits =
      let made : Net = w.attach (names i j) j (w.make_end (names i j) net) in
      let (out, ran, all) = new_ends-links i fresh (j + 1) m made hi at (omega (arith, fits)) in
      (
        out,
        rw (at j (omega (arith, fits))) ran,
        λ a b ha hb.
            rw (all a b ha hb, links-make_end i j a b net hi (omega (arith, fits)) ha hb)
              (here i a j b m (links w names net a b)),
      )
    where
      here :
          (i' a' j' b' m' : ℕ) (l : Bool)
          → (if i' == a' && (leb (j' + 1) b' && ltb b' (j' + 1 + m'))
              then false
              else if i' == a' && j' == b'
              then false
              else l)
            ≡ (if i' == a' && (leb j' b' && ltb b' (j' + suc m')) then false else l)
      here i' a' j' b' m' l = ground arith

-- The names of the ends that a start of server `i` leaves alone.
names_kept :
    {Name : Type 0} {n : ℕ} {endnames : List (Option (List Name))} {names names' : ℕ → ℕ → Name}
    (i a b : ℕ) (fresh : List Name)
    → IsWired n endnames names
    → IsWired n (set endnames i (some fresh)) names'
    → i ≢ a
    → a < n
    → b < n
    → names' a b ≡ names a b
names_kept {Name} {n} {endnames} {names} {names'} i a b fresh old new differ ha hb =
    let (own, here, each) = old.row a ha in
    let (own', here', each') = new.row a ha in
    let kept = get_elem?-set_ne endnames i a (some fresh) differ in
    same_row own own' (sym here ∙ sym kept ∙ here') (each b hb) (each' b hb)
  where
    same_row :
        (own own' : List Name)
        → some (some own) ≡ some (some own')
        → get_elem? own b ≡ some (names a b)
        → get_elem? own' b ≡ some (names' a b)
        → names' a b ≡ names a b
    same_row own own' e h h' = cc

-- The links of a server that is not connected, once it has new ends.
new_ends-IsLinked :
    {Name Net : Type 0} (w : Labrpc Name Net) (names names' : ℕ → ℕ → Name) (i : ℕ)
    (fresh : List Name) (off : TestConfig Name Net)
    → IsLinked w names off
    → is_up off.connected i ≡ false
    → i < off.n
    → IsWired off.n (set off.endnames i (some fresh)) names'
    → (net : Net) × (new_ends w fresh 0 off.n off.net ≡ ok net)
      × (i < length off.endnames)
      × IsLinked w names' (record off { endnames = set off.endnames i (some fresh); net = net })
new_ends-IsLinked {Name} {Net} w names names' i fresh off l down small new =
    let (own, here, each) = l.wired.row i small in
    let room = lt_of_get_elem? off.endnames i (some own) here in
    let (own', here', each') = new.row i small in
    let self = get_elem?-set_self off.endnames i (some fresh) room in
    let (net, ran, all) =
      new_ends-links w new i fresh 0 off.n off.net small
        (λ k bound. same_row own' (sym self ∙ here') k (each' k bound)) (omega arith) in
    (
      net,
      ran,
      room,
      record {
        wired = new;
        marks = l.marks;
        linked = λ a b ha hb. elim (Bool-cases (i == a)) [
          | inl same ↦
              let e : i ≡ a = (==_iff i a).0 same in
              let off_lem : is_up off.connected a ≡ false =
                subst (λ k. is_up off.connected k ≡ false) e down in
              all a b ha hb ∙ rw (off_lem, same) (fresh_off b (links w names' off.net a b) hb)
          | inr differ ↦
              let kept =
                names_kept i a b fresh l.wired new (λ e. cc (differ, (==_iff i a).1 e)) ha hb in
              all a b ha hb ∙ rw differ (ap (w.enabled off.net) kept ∙ l.linked a b ha hb)
        ];
      },
    )
  where
    same_row :
        (own' : List Name)
        → some (some fresh) ≡ some (some own')
        → (k : ℕ) → get_elem? own' k ≡ some (names' i k)
        → get_elem? fresh k ≡ some (names' i k)
    same_row own' e k h = cc

    fresh_off :
        (b : ℕ) (v : Bool) → b < off.n → (if leb 0 b && ltb b (0 + off.n) then false else v) ≡ false
    fresh_off b v hb = ground arith

-- Where the new names are names of their own, a start never faults, and the server's links are off,
-- as it does not count as connected; the other servers' links are as they were.
pub start_ends-IsLinked :
    {Name Net : Type 0} (w : Labrpc Name Net) (names names' : ℕ → ℕ → Name) (i : ℕ)
    (fresh : List Name) (cfg : TestConfig Name Net)
    → IsLinked w names cfg
    → i < cfg.n
    → IsWired cfg.n (set cfg.endnames i (some fresh)) names'
    → (out : TestConfig Name Net) × (start_ends w i fresh cfg ≡ ok out)
      × IsLinked w names' out
      × (out.connected ≡ set cfg.connected i false)
      × (out.endnames ≡ set cfg.endnames i (some fresh))
      × (out.n ≡ cfg.n)
unfolding start_ends
start_ends-IsLinked {Name} {Net} w names names' i fresh cfg l small new =
    let (off, first, later, up, rows, count) = disconnect-IsLinked w names i cfg l small in
    let down : is_up off.connected i ≡ false =
      ap (λ c. is_up c i) up
      ∙ is_up-set cfg.connected i i false (omega (arith, small, l.marks))
      ∙ rw (==_refl i) refl in
    let (net, second, room, linked) =
      new_ends-IsLinked w names names' i fresh off later down (omega (arith, small, count))
        (rw (rows, count) new) in
    (
      record off { endnames = set off.endnames i (some fresh); net = net },
      rw (first, second, lt→ltb i (length off.endnames) room) refl,
      linked,
      up,
      ap (λ r. set r i (some fresh)) rows,
      count,
    )
