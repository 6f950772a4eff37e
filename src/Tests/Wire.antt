-- ===== src/Tests/Wire.antt =====
-- A serialisation for the tests: numbers, pairs, lists and the rest, one behind the other.
pub mod Stores
pub mod Configs
use mathlib.Core.List.{append_assoc, append-nil}
use distributed_database.Raft.Types.{LogEntry, Saved, Codec, IsCodec}
use distributed_database.Prelude.{
  ℕ, zero, suc, ◌≡◌, refl, ap, sym, ◌∙◌, ◌⊎◌, inl, inr, List, [], ◌∷◌, ◌++◌, Option, some, none,
  length, arith, Text,
}

-- What is written can be read off the front.
pub record Wire (A : Type 0) : Type 0 where
  pub write : A → List ℕ
  pub read : List ℕ → Option (A × List ℕ)
  pub law : (a : A) (rest : List ℕ) → read (write a ++ rest) ≡ some (a, rest)

pub number : Wire ℕ
number = record {
  write = λ n. n ∷ [];
  read = λ bytes. elim bytes [ [] ↦ none | b ∷ bs ↦ some (b, bs) ];
  law = λ n rest. refl;
}

pub mapped : {A B : Type 0} (f : A → B) (g : B → A) → ((b : B) → f (g b) ≡ b) → Wire A → Wire B
mapped f g back w = record {
  write = λ b. w.write (g b);
  read = λ bytes. elim (w.read bytes) [ none ↦ none | some (a, rest) ↦ some (f a, rest) ];
  law = λ b rest. rw (w.law (g b) rest, back b) refl;
}

pub pair : {A B : Type 0} → Wire A → Wire B → Wire (A × B)
pair v w = record {
  write = λ p. v.write p.0 ++ w.write p.1;
  read = λ bytes. elim (v.read bytes) [
    | none ↦ none
    | some (a, more) ↦ elim (w.read more) [ none ↦ none | some (b, rest) ↦ some ((a, b), rest) ]
  ];
  law = λ p rest.
      rw
        (
          append_assoc (v.write p.0) (w.write p.1) rest,
          v.law p.0 (w.write p.1 ++ rest),
          w.law p.1 rest,
        )
        refl;
}

pub either : {A B : Type 0} → Wire A → Wire B → Wire (A ⊎ B)
either {A} {B} v w = record { write = write_either; read = read_either; law = law_either }
  where
    write_either : A ⊎ B → List ℕ
    write_either (inl a) = 0 ∷ v.write a
    write_either (inr b) = 1 ∷ w.write b

    read_either : List ℕ → Option ((A ⊎ B) × List ℕ)
    read_either [] = none
    read_either (zero ∷ more) = elim (v.read more) [
      | none ↦ none
      | some (a, rest) ↦ some (inl a, rest)
    ]
    read_either (suc n ∷ more) = elim (w.read more) [
      | none ↦ none
      | some (b, rest) ↦ some (inr b, rest)
    ]

    law_either : (s : A ⊎ B) (rest : List ℕ) → read_either (write_either s ++ rest) ≡ some (s, rest)
    law_either (inl a) rest = rw (v.law a rest) refl
    law_either (inr b) rest = rw (w.law b rest) refl

pub nothing : Wire (Unit {0})
nothing = record { write = λ u. []; read = λ bytes. some (tt, bytes); law = λ u rest. refl }

module _ {A : Type 0} (w : Wire A) where
  write_all : List A → List ℕ
  write_all [] = []
  write_all (a ∷ xs) = w.write a ++ write_all xs

  read_all : ℕ → List ℕ → Option (List A × List ℕ)
  read_all zero bytes = some ([], bytes)
  read_all (suc n) bytes = elim (w.read bytes) [
    | none ↦ none
    | some (a, more) ↦ elim (read_all n more) [
      | none ↦ none
      | some (xs, rest) ↦ some (a ∷ xs, rest)
    ]
  ]

  read_all-write_all :
      (xs : List A) (rest : List ℕ) → read_all (length xs) (write_all xs ++ rest) ≡ some (xs, rest)
  unfolding read_all write_all
  read_all-write_all [] rest = refl
  read_all-write_all (a ∷ xs) rest =
      rw
        (
          append_assoc (w.write a) (write_all xs) rest,
          w.law a (write_all xs ++ rest),
          read_all-write_all xs rest,
        )
        refl

  pub sequence : Wire (List A)
  sequence = record {
    write = λ xs. length xs ∷ write_all xs;
    read = λ bytes. elim bytes [ [] ↦ none | n ∷ more ↦ read_all n more ];
    law = λ xs rest. read_all-write_all xs rest;
  }

pub optional : {A : Type 0} → Wire A → Wire (Option A)
optional {A} w = mapped to from back (either nothing w)
  where
    to : Unit {0} ⊎ A → Option A
    to (inl u) = none
    to (inr a) = some a

    from : Option A → Unit {0} ⊎ A
    from none = inl tt
    from (some a) = inr a

    back : (o : Option A) → to (from o) ≡ o
    back none = refl
    back (some a) = refl

pub text : Wire Text
text = sequence number

-- What is written alone is read back.
pub alone : {A : Type 0} (w : Wire A) (a : A) → w.read (w.write a) ≡ some (a, [])
alone w a = ap w.read (sym (append-nil (w.write a))) ∙ w.law a []

-- Raft's state, with commands that are written in some way.
module _ {C : Type 0} (command : Wire C) where
  log_entry : Wire (LogEntry C)
  log_entry =
      mapped (λ p. record { term = p.0; index = p.1.0; command = p.1.1 })
        (λ e. (e.term, (e.index, e.command))) (λ e. refl)
        (pair number (pair number (optional command)))

  pub saved_state : Wire (ℕ × (Option ℕ × List (LogEntry C)))
  saved_state = pair number (pair (optional number) (sequence log_entry))

  abbrev saved_of : Option ((ℕ × (Option ℕ × List (LogEntry C))) × List ℕ) → Option (Saved C)
  saved_of none = none
  saved_of (some (p, rest)) = some (record { term = p.0; voted_for = p.1.0; log = p.1.1 })

  abbrev pub codec_of : Codec C
  codec_of = record {
    encode = λ s. 0 ∷ saved_state.write (s.term, (s.voted_for, s.log));
    decode = λ bytes. elim bytes [ [] ↦ none | b ∷ more ↦ saved_of (saved_state.read more) ];
  }

  pub codec_of-IsCodec : IsCodec codec_of
  codec_of-IsCodec = record {
    decode-encode = λ s. ap saved_of (alone saved_state (s.term, (s.voted_for, s.log)));
    encode_nonempty = λ s. omega arith;
  }
