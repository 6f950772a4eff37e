-- ===== src/ShardController/Server/Groups.antt =====
-- The map of groups and their shards, after the loops of a join and a leave.
use distributed_database.Prelude.{
  ℕ, ◌≡◌, ◌≢◌, ◌≤◌, refl, ap, ◌∙◌, sym, subst, ◌⊎◌, inl, inr, List, [], ◌∷◌, map, Option, none,
  some, arith, ◌==◌, ==_iff, if◌then◌else◌, Bool-cases, lookup, insert, lookup-insert,
  lookup-remove, remove, Text, nat_eq, Has, Distinct,
}
use distributed_database.ShardController.Types.{Config}
use distributed_database.ShardController.Rebalance.Tables.{count}
use distributed_database.ShardController.Rebalance.{keys}
use distributed_database.ShardController.Server.{add_groups, drop_groups}

module _ {V : Type 0} where
  pub Has-insert :
      (g k : ℕ) (v : V) (m : List (ℕ × V)) → Has g (keys (insert k v m)) → (k ≡ g) ⊎ Has g (keys m)
  unfolding insert
  Has-insert g k v [] h = h
  Has-insert g k v ((here, old) ∷ m) h = elim (Bool-cases (here == k)) [
    | inl same ↦ front ((==_iff here k).0 same) (rw same at h)
    | inr other ↦ behind (Has-insert g k v m) (rw other at h)
  ]
    where
      front : here ≡ k → (k ≡ g) ⊎ Has g (keys m) → (k ≡ g) ⊎ ((here ≡ g) ⊎ Has g (keys m))
      front e (inl this) = inl this
      front e (inr later) = inr (inr later)

      behind :
          (Has g (keys (insert k v m)) → (k ≡ g) ⊎ Has g (keys m))
          → (here ≡ g) ⊎ Has g (keys (insert k v m))
          → (k ≡ g) ⊎ ((here ≡ g) ⊎ Has g (keys m))
      behind rest (inl at) = inr (inl at)
      behind rest (inr later) = elim (rest later) [ inl this ↦ inl this | inr old ↦ inr (inr old) ]

  pub insert-Distinct :
      (k : ℕ) (v : V) (m : List (ℕ × V)) → Distinct (keys m) → Distinct (keys (insert k v m))
  unfolding insert
  insert-Distinct k v [] d = (λ h. h, tt)
  insert-Distinct k v ((here, old) ∷ m) d = elim (Bool-cases (here == k)) [
    | inl same ↦
        let e : here ≡ k = (==_iff here k).0 same in
        rw same (subst (λ i. ¬ Has i (keys m)) e d.0, d.1)
    | inr other ↦ rw other (
      λ h. elim (Has-insert here k v m h) [
        | inl this ↦ ground (arith, this, other)
        | inr later ↦ d.0 later
      ],
      insert-Distinct k v m d.1,
    )
  ]

  pub Has-remove : (g k : ℕ) (m : List (ℕ × V)) → Has g (keys (remove k m)) → Has g (keys m)
  unfolding remove
  Has-remove g k [] h = h
  Has-remove g k ((here, old) ∷ m) h = elim (Bool-cases (here == k)) [
    | inl same ↦ inr (Has-remove g k m (rw same at h))
    | inr other ↦ behind (Has-remove g k m) (rw other at h)
  ]
    where
      behind :
          (Has g (keys (remove k m)) → Has g (keys m))
          → (here ≡ g) ⊎ Has g (keys (remove k m))
          → (here ≡ g) ⊎ Has g (keys m)
      behind rest (inl at) = inl at
      behind rest (inr later) = inr (rest later)

  pub remove-Distinct :
      (k : ℕ) (m : List (ℕ × V)) → Distinct (keys m) → Distinct (keys (remove k m))
  unfolding remove
  remove-Distinct k [] d = tt
  remove-Distinct k ((here, old) ∷ m) d = elim (Bool-cases (here == k)) [
    | inl same ↦ rw same (remove-Distinct k m d.1)
    | inr other ↦ rw other (λ h. d.0 (Has-remove here k m h), remove-Distinct k m d.1)
  ]

pub Has-add_groups :
    (g : ℕ) (more groups : List (ℕ × List Text))
    → Has g (keys (add_groups more groups))
    → Has g (keys more) ⊎ Has g (keys groups)
unfolding add_groups
Has-add_groups g [] groups h = inr h
Has-add_groups g ((k, v) ∷ more) groups h = elim (Has-add_groups g more (insert k v groups) h) [
  | inl new ↦ inl (inr new)
  | inr old ↦ elim (Has-insert g k v groups old) [
    | inl this ↦ inl (inl this)
    | inr before ↦ inr before
  ]
]

pub add_groups-Distinct :
    (more groups : List (ℕ × List Text))
    → Distinct (keys groups)
    → Distinct (keys (add_groups more groups))
unfolding add_groups
add_groups-Distinct [] groups d = d
add_groups-Distinct ((k, v) ∷ more) groups d =
    add_groups-Distinct more (insert k v groups) (insert-Distinct k v groups d)

-- An entry that is there goes over an older one.
abbrev pub over {ℓ} : {V : Type ℓ} → Option V → Option V → Option V
over (some new) old = some new
over none old = old

pub lookup-missing {ℓ} :
    {V : Type ℓ} (g : ℕ) (m : List (ℕ × V)) → lookup g m ≡ none → ¬ Has g (keys m)
unfolding lookup
lookup-missing g [] none_there h = h
lookup-missing g ((k, v) ∷ m) none_there (inl here) = ground (arith, here, none_there)
lookup-missing g ((k, v) ∷ m) none_there (inr later) = elim (Bool-cases (k == g)) [
  | inl same ↦ ground (arith, same, none_there)
  | inr other ↦ lookup-missing g m (rw other at none_there) later
]

missing-lookup {ℓ} : {V : Type ℓ} (g : ℕ) (m : List (ℕ × V)) → ¬ Has g (keys m) → lookup g m ≡ none
unfolding lookup
missing-lookup g [] missing = refl
missing-lookup g ((k, v) ∷ m) missing = elim (Bool-cases (k == g)) [
  | inl same ↦ absurd (missing (inl ((==_iff k g).0 same)))
  | inr other ↦ rw other (missing-lookup g m (λ h. missing (inr h)))
]

-- The servers of a group after a join: the new ones, if it joins.
pub lookup-add_groups :
    (g : ℕ) (more groups : List (ℕ × List Text))
    → Distinct (keys more)
    → lookup g (add_groups more groups) ≡ over (lookup g more) (lookup g groups)
unfolding add_groups lookup
lookup-add_groups g [] groups once = refl
lookup-add_groups g ((k, v) ∷ more) groups once =
    lookup-add_groups g more (insert k v groups) once.1
    ∙ ap (over (lookup g more)) (lookup-insert k g v groups)
    ∙ elim (Bool-cases (k == g)) [
      | inl same ↦
          let new : lookup g more ≡ none =
            missing-lookup g more (subst (λ i. ¬ Has i (keys more)) ((==_iff k g).0 same) once.0) in
          rw (same, new) refl
      | inr other ↦ rw other refl
    ]

drop_groups-none :
    (g : ℕ) (ks : List ℕ) (c : Config)
    → lookup g c.groups ≡ none
    → lookup g (drop_groups ks c).groups ≡ none
unfolding drop_groups
drop_groups-none g [] c h = h
drop_groups-none g (k ∷ ks) c h = drop_groups-none g ks _ (
    lookup-remove k g c.groups
    ∙ elim (Bool-cases (k == g)) [ inl same ↦ rw same refl | inr other ↦ rw other h ])

-- The servers of a group after a leave: none, if it leaves.
pub lookup-drop_groups :
    (g : ℕ) (ks : List ℕ) (c : Config)
    → (Has g ks → lookup g (drop_groups ks c).groups ≡ none)
      × (¬ Has g ks → lookup g (drop_groups ks c).groups ≡ lookup g c.groups)
unfolding drop_groups
lookup-drop_groups g [] c = (λ h. absurd h, λ h. refl)
lookup-drop_groups g (k ∷ ks) c = elim (Bool-cases (k == g)) [
  | inl same ↦ (
    λ h. drop_groups-none g ks _ (lookup-remove k g c.groups ∙ rw same refl),
    λ h. absurd (h (inl ((==_iff k g).0 same))),
  )
  | inr other ↦
      let rest = lookup-drop_groups g ks (record c {
        shards = map (λ gid. if gid == k then 0 else gid) c.shards;
        groups = remove k c.groups;
      }) in
      (
        λ h. elim h [ inl e ↦ ground (arith, e, other) | inr later ↦ rest.0 later ],
        λ h. rest.1 (λ later. h (inr later)) ∙ lookup-remove k g c.groups ∙ rw other refl,
      )
]

-- The shards of a group that leaves go to group 0.
count-emptied :
    (k : ℕ) (xs : List ℕ) → k ≢ 0 → count k (map (λ gid. if gid == k then 0 else gid) xs) ≡ 0
count-emptied k [] nonzero = refl
count-emptied k (x ∷ xs) nonzero = ground (arith, nonzero, count-emptied k xs nonzero)

count-others :
    (g k : ℕ) (xs : List ℕ)
    → g ≢ 0
    → count g (map (λ gid. if gid == k then 0 else gid) xs) ≤ count g xs
count-others g k [] nonzero = omega arith
count-others g k (x ∷ xs) nonzero = ground (arith, nonzero, count-others g k xs nonzero)

drop_groups-count_none :
    (g : ℕ) (ks : List ℕ) (c : Config)
    → g ≢ 0
    → count g c.shards ≡ 0
    → count g (drop_groups ks c).shards ≡ 0
unfolding drop_groups
drop_groups-count_none g [] c nonzero h = h
drop_groups-count_none g (k ∷ ks) c nonzero h =
    let fewer = count-others g k c.shards nonzero in
    drop_groups-count_none g ks _ nonzero (omega (arith, fewer, h))

pub count-drop_groups :
    (g : ℕ) (ks : List ℕ) (c : Config) → g ≢ 0 → Has g ks → count g (drop_groups ks c).shards ≡ 0
unfolding drop_groups
count-drop_groups g [] c nonzero h = elim h [ ]
count-drop_groups g (k ∷ ks) c nonzero (inl here) = drop_groups-count_none g ks _ nonzero (
    subst (λ i. count g (map (λ gid. if gid == i then 0 else gid) c.shards) ≡ 0) (sym here)
      (count-emptied g c.shards nonzero))
count-drop_groups g (k ∷ ks) c nonzero (inr later) = count-drop_groups g ks _ nonzero later

pub num-drop_groups : (ks : List ℕ) (c : Config) → (drop_groups ks c).num ≡ c.num
unfolding drop_groups
num-drop_groups [] c = refl
num-drop_groups (k ∷ ks) c = num-drop_groups ks _
