-- ===== src/Harness/Applier/Agreed.antt =====
-- What the servers have reported, next to the log of one of them.
use distributed_database.Prelude.{
  ℕ, suc, ◌+◌, ◌<◌, ◌≡◌, refl, ap, sym, subst, ◌∙◌, ◌⊎◌, inl, inr, true, false, ◌||◌, List, [], ◌∷◌,
  ◌==◌, ==_iff, ◌≢◌, get_elem?-set_self, get_elem?-set_ne, lt_of_get_elem?, Option, none, some, ok,
  set, get_elem?, arith, ltb, if◌then◌else◌, not, Bool-cases, lookup, insert, lookup-insert, Eq,
  nat_eq,
}
use distributed_database.Raft.Types.{LogEntry, ApplyMsg}
use distributed_database.Raft.Log.{get_log_at_index}
use distributed_database.Harness.{passed}
use distributed_database.Harness.Applier.{
  Reports, differs, has_previous, check_logs, report, applier,
}

module _ {ℓ} {C : Type ℓ} ⦃e : Eq (Option C)⦄ where
  -- Every command that a server has reported at an index behind `from` is the one that the log has.
  abbrev pub Agreed : ℕ → List (LogEntry C) → List (List (ℕ × Option C)) → Type ℓ
  Agreed from log logs =
      (j k : ℕ) (known : List (ℕ × Option C)) (old : Option C) (x : LogEntry C)
      → from < k
      → get_elem? logs j ≡ some known
      → lookup k known ≡ some old
      → get_log_at_index log k ≡ ok (some x)
      → old ≡ x.command

  pub differs-none :
      (k : ℕ) (v : Option C) (logs : List (List (ℕ × Option C)))
      → ((j : ℕ) (known : List (ℕ × Option C)) (old : Option C)
          → get_elem? logs j ≡ some known
          → lookup k known ≡ some old
          → old ≡ v)
      → differs k v logs ≡ false
  unfolding differs
  differs-none k v [] h = refl
  differs-none k v (log ∷ logs) h =
      let rest = differs-none k v logs (λ j known old at. h (suc j) known old at) in
      go (lookup k log) refl rest
    where
      go :
          (found : Option (Option C))
          → lookup k log ≡ found
          → differs k v logs ≡ false
          → elim found [
            | none ↦ differs k v logs
            | some old ↦ not (e.beq old v) || differs k v logs
          ]
            ≡ false
      go none at rest = rest
      go (some old) at rest =
          let same : e.beq old v ≡ true = (e.beq_iff old v).1 (h 0 log old refl at) in
          rw (same, rest)

  has_previous-Reported :
      (last : ℕ) (known : List (ℕ × Option C))
      → (last ≡ 0) ⊎ ((v : Option C) × (lookup last known ≡ some v))
      → (ltb 1 (last + 1) ≡ false) ⊎ (has_previous (last + 1) known ≡ true)
  unfolding has_previous
  has_previous-Reported last known (inl first) = inl (ground arith)
  has_previous-Reported last known (inr (v, at)) =
      let next : last + 1 ≡ suc last = omega arith in
      let there : has_previous (suc last) known ≡ true = ground (arith, at) in inr (rw next there)

  -- A command of the next index that no server contradicts.
  pub applier-next :
      (i last : ℕ) (m : ApplyMsg C) (cfg : Reports C) (known : List (ℕ × Option C))
      → m.command_valid ≡ true
      → m.command_index ≡ last + 1
      → get_elem? cfg.logs i ≡ some known
      → (last ≡ 0) ⊎ ((v : Option C) × (lookup last known ≡ some v))
      → differs m.command_index m.command cfg.logs ≡ false
      → (noted : Reports C) × (applier i m cfg ≡ ok (passed noted))
        × (noted.logs ≡ set cfg.logs i (insert m.command_index m.command known))
  unfolding applier report check_logs
  applier-next i last m cfg known valid place at before same = (
    record {
      logs = set cfg.logs i (insert m.command_index m.command known);
      max_index = if ltb cfg.max_index m.command_index then m.command_index else cfg.max_index;
    },
    elim (has_previous-Reported last known before) [
      | inl first ↦
          let early : ltb 1 m.command_index ≡ false = rw place first in
          rw (valid, same, at, early) refl
      | inr there ↦
          let prev : has_previous m.command_index known ≡ true = rw place there in
          ground (arith, valid, same, at, prev)
    ],
    refl,
  )

  pub lookup-insert_self :
      (k : ℕ) (v : Option C) (known : List (ℕ × Option C)) → lookup k (insert k v known) ≡ some v
  lookup-insert_self k v known = ground (arith, lookup-insert k k v known)

  pub lookup-insert_other :
      (k j : ℕ) (v : Option C) (known : List (ℕ × Option C))
      → k ≢ j
      → lookup j (insert k v known) ≡ lookup j known
  lookup-insert_other k j v known apart = ground (arith, lookup-insert k j v known, apart)

  pub Agreed-next :
      (i last : ℕ) (log : List (LogEntry C)) (logs : List (List (ℕ × Option C)))
      (known : List (ℕ × Option C)) (c : Option C)
      → Agreed last log logs
      → get_elem? logs i ≡ some known
      → Agreed (last + 1) log (set logs i (insert (last + 1) c known))
  Agreed-next i last log logs known c h at j k other old x behind there has here =
      elim (Bool-cases (i == j)) [
        | inl same ↦
            let place : i ≡ j = (==_iff i j).0 same in
            let whole : other ≡ insert (last + 1) c known = cc (
              get_elem?-set_self logs i (insert (last + 1) c known)
                  (lt_of_get_elem? logs i known at),
              ap (get_elem? (set logs i (insert (last + 1) c known))) place,
            ) in
            let has' : lookup k (insert (last + 1) c known) ≡ some old =
              subst (λ l. lookup k l ≡ some old) whole has in
            h i k known old x (omega arith) at
              (sym (lookup-insert_other (last + 1) k c known (λ q. omega (arith, q))) ∙ has') here
        | inr apart ↦
            let ne : i ≢ j = λ q. ground (arith, q, apart) in
            h j k other old x (omega arith)
              (sym (get_elem?-set_ne logs i j (insert (last + 1) c known) ne) ∙ there) has here
      ]
