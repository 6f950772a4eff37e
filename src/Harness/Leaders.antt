-- ===== src/Harness/Leaders.antt =====
-- What a round of checkOneLeader finds on a cluster.
pub mod Rounds
pub mod Found
use distributed_database.Prelude.{
  ℕ, zero, suc, ◌+◌, ◌≤◌, ◌<◌, ◌≡◌, ◌≢◌, refl, ap, sym, subst, ◌∙◌, ◌⊎◌, inl, inr, Bool, true,
  false, ◌&&◌, List, [], ◌∷◌, ◌++◌, Option, none, some, ok, ◌>>=◌, index, length, arith, ltb, leb,
  ◌==◌, ==_iff, if◌then◌else◌, Bool-cases, lookup, insert, nat_eq, Has,
}
use distributed_database.Raft.Types.{Raft, leader}
use distributed_database.Raft.Node.{get_state, same_state}
use distributed_database.Harness.{
  Judged, passed, failed, add_leader, later_term, last_term, first_leader, judge_leaders,
  collect_leaders, leader_round,
}

pub Has-insert : (k : ℕ) (v : List ℕ) (m : List (ℕ × List ℕ)) → Has (k, v) (insert k v m)
unfolding insert
Has-insert k v [] = inl refl
Has-insert k v ((here, old) ∷ rest) = elim (Bool-cases (here == k)) [
  | inl same ↦ rw same (inl refl)
  | inr apart ↦ rw apart (inr (Has-insert k v rest))
]

pub Has-insert_cases :
    (k : ℕ) (v : List ℕ) (x : ℕ × List ℕ) (m : List (ℕ × List ℕ))
    → Has x (insert k v m)
    → ((k, v) ≡ x) ⊎ Has x m
unfolding insert
Has-insert_cases k v x [] h = elim h [ inl here ↦ inl here | inr never ↦ absurd never ]
Has-insert_cases k v x ((here, old) ∷ rest) h = elim (Bool-cases (here == k)) [
  | inl same ↦ elim (rw same at h) [ inl new ↦ inl new | inr later ↦ inr (inr later) ]
  | inr apart ↦ elim (rw apart at h) [
    | inl first ↦ inr (inl first)
    | inr later ↦ elim (Has-insert_cases k v x rest later) [
      | inl new ↦ inl new
      | inr old' ↦ inr (inr old')
    ]
  ]
]

pub Has-insert_old :
    (k : ℕ) (v : List ℕ) (x : ℕ × List ℕ) (m : List (ℕ × List ℕ))
    → lookup k m ≡ none
    → Has x m
    → Has x (insert k v m)
unfolding insert lookup
Has-insert_old k v x [] missing h = absurd h
Has-insert_old k v x ((here, old) ∷ rest) missing h = elim (Bool-cases (here == k)) [
  | inl same ↦ cc (rw same at missing)
  | inr apart ↦ rw apart (elim h [
    | inl first ↦ inl first
    | inr later ↦ inr (Has-insert_old k v x rest (rw apart at missing) later)
  ])
]

pub lookup-Has : (k : ℕ) (v : List ℕ) (m : List (ℕ × List ℕ)) → lookup k m ≡ some v → Has (k, v) m
unfolding lookup
lookup-Has k v [] h = cc
lookup-Has k v ((here, old) ∷ rest) h = elim (Bool-cases (here == k)) [
  | inl same ↦
      let key : here ≡ k = (==_iff here k).0 same in
      let value : old ≡ v = ground (arith, rw same at h) in inl (cc)
  | inr apart ↦ inr (lookup-Has k v rest (rw apart at h))
]

pub Has-lookup :
    (k : ℕ) (v : List ℕ) (m : List (ℕ × List ℕ))
    → Has (k, v) m
    → (w : List ℕ) × (lookup k m ≡ some w)
unfolding lookup
Has-lookup k v [] h = absurd h
Has-lookup k v ((here, old) ∷ rest) h = elim (Bool-cases (here == k)) [
  | inl same ↦ (old, rw same)
  | inr apart ↦ elim h [
    | inl first ↦
        let key : here ≡ k = ap (λ (x : ℕ × List ℕ). x.0) first in
        let same : (here == k) ≡ true = (==_iff here k).1 key in cc
    | inr later ↦ let (w, found) = Has-lookup k v rest later in (w, rw apart found)
  ]
]

-- The loop over the terms with leaders, where each has one.
pub record Latest (last : Option ℕ) (m : List (ℕ × List ℕ)) : Type 0 where
  pub term : Option ℕ
  pub runs : last_term last m ≡ passed term
  pub there : (term ≡ last) ⊎ ((x : ℕ × List ℕ) × Has x m × (term ≡ some x.0))
  pub greatest : (x : ℕ × List ℕ) → Has x m → (t : ℕ) × (term ≡ some t) × (x.0 ≤ t)
  pub rises : (s : ℕ) → last ≡ some s → (t : ℕ) × (term ≡ some t) × (s ≤ t)

later_term_cases :
    (term : ℕ) (last : Option ℕ)
    → ((later_term term last ≡ term) ⊎ (last ≡ some (later_term term last)))
      × (term ≤ later_term term last)
      × ((s : ℕ) → last ≡ some s → s ≤ later_term term last)
later_term_cases term none = (inl refl, omega arith, λ s h. cc)
later_term_cases term (some l) = elim (Bool-cases (ltb l term)) [
  | inl newer ↦ rw newer (inl refl, omega arith, λ s h. ground arith)
  | inr older ↦ rw older (inr refl, ground arith, λ s h. ground arith)
]

pub latest :
    (last : Option ℕ) (m : List (ℕ × List ℕ))
    → ((x : ℕ × List ℕ) → Has x m → length x.1 ≡ 1)
    → Latest last m
unfolding last_term
latest last [] one = record {
  term = last;
  runs = refl;
  there = inl refl;
  greatest = λ x h. absurd h;
  rises = λ s h. (s, h, omega arith);
}
latest last ((t, known) ∷ rest) one =
    let u = later_term t last in
    let (which, above, over) = later_term_cases t last in
    let l = latest (some u) rest (λ x h. one x (inr h)) in
    let single : ltb 1 (length known) ≡ false = ground (arith, one (t, known) (inl refl)) in
    record {
      term = l.term;
      runs = rw single l.runs;
      there = elim l.there [
        | inr (x, has, is) ↦ inr (x, inr has, is)
        | inl top ↦ elim which [
          | inl mine ↦ inr ((t, known), inl refl, top ∙ ap some mine)
          | inr old ↦ inl (top ∙ sym old)
        ]
      ];
      greatest = λ x h. elim h [
        | inl here ↦
            (let (v, is, le) = l.rises u refl in
              (v, is, omega (arith, ap (λ (y : ℕ × List ℕ). y.0) here, above, le)))
        | inr later ↦ l.greatest x later
      ];
      rises = λ s h. (let (v, is, le) = l.rises u refl in (v, is, omega (arith, over s h, le)));
    }

module _ {ℓ} {C : Type ℓ} (connected : ℕ → Bool) (seen : ℕ → Raft C) where
  -- A term with its one leader among the servers before `i`.
  pub record IsLed (i : ℕ) (x : ℕ × List ℕ) : Type 0 where
    pub server : ℕ
    pub only : x.1 ≡ server ∷ []
    pub below : server < i
    pub reached : connected server ≡ true
    pub leads : (seen server).state ≡ leader
    pub term : (seen server).term ≡ x.0

  -- The map after the servers before `i`.
  pub record Collected (i : ℕ) (m : List (ℕ × List ℕ)) : Type 0 where
    pub each : (x : ℕ × List ℕ) → Has x m → IsLed i x
    pub all :
        (j : ℕ)
        → j < i
        → connected j ≡ true
        → (seen j).state ≡ leader
        → Has ((seen j).term, j ∷ []) m

  -- In one term no two servers lead.
  abbrev pub Alone : Type 0
  Alone =
      (i j : ℕ)
      → (seen i).state ≡ leader
      → (seen j).state ≡ leader
      → (seen i).term ≡ (seen j).term
      → i ≡ j

  pub IsLed-next : (i : ℕ) (x : ℕ × List ℕ) → IsLed i x → IsLed (i + 1) x
  IsLed-next i x l = record {
    server = l.server;
    only = l.only;
    below = omega (arith, l.below);
    reached = l.reached;
    leads = l.leads;
    term = l.term;
  }
