-- ===== src/Models/Kv/Partition.antt =====
-- What the partition of a history is made of.
use mathlib.Core.List.{append_assoc, append-nil}
use distributed_database.Prelude.{
  ℕ, suc, ◌≡◌, ap, sym, ◌∙◌, ◌⊎◌, inl, inr, true, false, List, [], ◌∷◌, ◌++◌, map, some, All, Has,
  get_elem?, arith, if◌then◌else◌, lookup, insert, lookup-insert, Text, text_eq, Bool-cases,
}
use distributed_database.Models.Kv.{
  Operation, part, group_by_key, keys_of, text_lt, insert_text, sort_texts, partition,
}

-- The operations of one key, in their order.
abbrev pub ops_of : Text → List Operation → List Operation
ops_of key [] = []
ops_of key (v ∷ history) =
    let rest = ops_of key history in if text_eq.beq v.input.key key then v ∷ rest else rest

part-insert :
    (key other : Text) (ops : List Operation) (m : List (Text × List Operation))
    → part other (insert key ops m) ≡ (if text_eq.beq key other then ops else part other m)
unfolding part
part-insert key other ops m = ground (arith, lookup-insert key other ops m)

part-group_by_key :
    (key : Text) (history : List Operation) (m : List (Text × List Operation))
    → part key (group_by_key history m) ≡ part key m ++ ops_of key history
unfolding group_by_key
part-group_by_key key [] m = sym (append-nil (part key m))
part-group_by_key key (v ∷ history) m =
    part-group_by_key key history (insert v.input.key (part v.input.key m ++ v ∷ []) m)
    ∙ ap (λ xs. xs ++ ops_of key history) (part-insert v.input.key key _ m)
    ∙ by_key (Bool-cases (text_eq.beq v.input.key key))
  where
    by_key :
        (text_eq.beq v.input.key key ≡ true) ⊎ (text_eq.beq v.input.key key ≡ false)
        → (if text_eq.beq v.input.key key then part v.input.key m ++ v ∷ [] else part key m)
            ++ ops_of key history
          ≡ part key m ++ ops_of key (v ∷ history)
    by_key (inl same) = rw same (
        append_assoc (part v.input.key m) (v ∷ []) (ops_of key history)
        ∙ ap (λ k. part k m ++ v ∷ ops_of key history) ((text_eq.beq_iff _ _).0 same))
    by_key (inr other) = rw other

part_lem :
    (key : Text) (history : List Operation)
    → part key (group_by_key history []) ≡ ops_of key history
unfolding part lookup
part_lem key history = part-group_by_key key history []

Has-insert_text : (s t : Text) (ts : List Text) → (t ≡ s) ⊎ Has s ts → Has s (insert_text t ts)
unfolding insert_text
Has-insert_text s t [] h = h
Has-insert_text s t (u ∷ us) h = elim (Bool-cases (text_lt u t)) [
  | inr before ↦ rw before h
  | inl behind ↦ rw behind (swapped (Has-insert_text s t us) h)
]
  where
    swapped :
        ((t ≡ s) ⊎ Has s us → Has s (insert_text t us))
        → (t ≡ s) ⊎ (u ≡ s) ⊎ Has s us
        → (u ≡ s) ⊎ Has s (insert_text t us)
    swapped again (inl first) = inr (again (inl first))
    swapped again (inr (inl here)) = inl here
    swapped again (inr (inr later)) = inr (again (inr later))

Has-sort_texts : (s : Text) (ts : List Text) → Has s ts → Has s (sort_texts ts)
unfolding sort_texts
Has-sort_texts s [] h = h
Has-sort_texts s (t ∷ ts) (inl here) = Has-insert_text s t (sort_texts ts) (inl here)
Has-sort_texts s (t ∷ ts) (inr later) =
    Has-insert_text s t (sort_texts ts) (inr (Has-sort_texts s ts later))

part-cons :
    (key here : Text) (xs : List Operation) (m : List (Text × List Operation))
    → part key ((here, xs) ∷ m) ≡ (if text_eq.beq here key then xs else part key m)
unfolding part lookup
part-cons key here xs m = ground arith

Has-keys_of :
    (key : Text) (m : List (Text × List Operation)) (v : Operation) (ops : List Operation)
    → part key m ≡ v ∷ ops
    → Has key (keys_of m)
unfolding part lookup
Has-keys_of key [] v ops h = cc
Has-keys_of key ((here, xs) ∷ m) v ops h = elim (Bool-cases (text_eq.beq here key)) [
  | inl same ↦ inl ((text_eq.beq_iff here key).0 same)
  | inr other ↦ inr (Has-keys_of key m v ops (rw other at (sym (part-cons key here xs m) ∙ h)))
]

get_elem?-map :
    (f : Text → List Operation) (s : Text) (ts : List Text)
    → Has s ts
    → (i : ℕ) × (get_elem? (map f ts) i ≡ some (f s))
get_elem?-map f s [] h = absurd h
get_elem?-map f s (t ∷ ts) (inl here) = (0, ap (λ u. some (f u)) here)
get_elem?-map f s (t ∷ ts) (inr later) = let (i, at) = get_elem?-map f s ts later in (suc i, at)

-- A statement about the operations of every key holds of every part.
pub All-partition {ℓ} :
    (P : List Operation → Type ℓ) (history : List Operation)
    → ((key : Text) → P (ops_of key history))
    → All P (partition history)
unfolding partition
All-partition P history each = over (sort_texts (keys_of (group_by_key history [])))
  where
    over : (keys : List Text) → All P (map (λ key. part key (group_by_key history [])) keys)
    over [] = tt
    over (key ∷ keys) = (rw (part_lem key history) (each key), over keys)

-- Every key that occurs in a history has its operations as one of the parts, in their order.
partition_complete :
    (history rest : List Operation) (key : Text) (v : Operation)
    → ops_of key history ≡ v ∷ rest
    → (i : ℕ) × (get_elem? (partition history) i ≡ some (ops_of key history))
unfolding partition
partition_complete history rest key v h =
    let m = group_by_key history [] in
    let whole : part key m ≡ ops_of key history = part_lem key history in
    let (i, at) =
      get_elem?-map (λ k. part k m) key (sort_texts (keys_of m))
        (Has-sort_texts key (keys_of m) (Has-keys_of key m v rest (whole ∙ h))) in
    (i, at ∙ ap some whole)
