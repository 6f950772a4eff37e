-- ===== src/Models/Kv.antt =====
-- kv.go: the sequential specification of one key, and the partition of a history by keys.
pub mod Partition
pub mod Refinement
use distributed_database.Prelude.{
  ℕ, ◌+◌, Bool, true, false, List, [], ◌∷◌, ◌++◌, map, Option, none, some, ltb, ◌==◌, if◌then◌else◌,
  lookup, insert, Text, text_eq,
}

pub record KvInput : Type 0 where
  -- a uint8: 0 is get, 1 is put, 2 is append
  pub op : ℕ
  pub key : Text
  pub value : Text

pub record KvOutput : Type 0 where
  pub value : Text

-- An operation of the checker's histories, without its client and its times.
pub record Operation : Type 0 where
  pub input : KvInput
  pub output : KvOutput

-- m[k], with nil for a missing key.
unfoldable pub part : Text → List (Text × List Operation) → List Operation
part key m = elim (lookup key m) [ none ↦ [] | some ops ↦ ops ]

-- for _, v := range history { m[key] = append(m[key], v) }
unfoldable pub group_by_key :
    List Operation → List (Text × List Operation) → List (Text × List Operation)
group_by_key [] m = m
group_by_key (v ∷ history) m =
    group_by_key history (insert v.input.key (part v.input.key m ++ v ∷ []) m)

abbrev pub keys_of : List (Text × List Operation) → List Text
keys_of [] = []
keys_of ((key, ops) ∷ m) = key ∷ keys_of m

-- Go's `<` on strings: byte by byte, and a prefix comes first.
unfoldable pub text_lt : Text → Text → Bool
text_lt s [] = false
text_lt [] (b ∷ t) = true
text_lt (a ∷ s) (b ∷ t) = let rest = text_lt s t in if a == b then rest else ltb a b

-- sort.Strings, which is Go's: the strings in rising order.
unfoldable pub insert_text : Text → List Text → List Text
insert_text s [] = s ∷ []
insert_text s (t ∷ ts) = if text_lt t s then t ∷ insert_text s ts else s ∷ t ∷ ts

unfoldable pub sort_texts : List Text → List Text
unfolding insert_text text_lt
sort_texts [] = []
sort_texts (s ∷ ts) = insert_text s (sort_texts ts)

unfoldable pub partition : List Operation → List (List Operation)
partition history =
    let m = group_by_key history [] in map (λ key. part key m) (sort_texts (keys_of m))

-- The state of one key.
unfoldable pub init : Text
init = []

unfoldable pub step : Text → KvInput → KvOutput → Bool × Text
step state inp out =
    if inp.op == 0
    then (text_eq.beq out.value state, state)
    else if inp.op == 1
    then (true, inp.value)
    else (true, state ++ inp.value)
