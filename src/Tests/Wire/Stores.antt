-- ===== src/Tests/Wire/Stores.antt =====
-- The commands and the store of raft-db, as bytes.
use distributed_database.Prelude.{ℕ, ◌≡◌, refl, ap, ◌⊎◌, inl, inr, List, Option, some, none, Text}
use distributed_database.Raft.Types.{Codec, IsCodec}
use distributed_database.RaftDb.Types.{
  PutOrAppend, put_op, append_op, Command, get, put_append, StoreCodec, IsStoreCodec,
}
use distributed_database.Tests.Wire.{
  Wire, number, mapped, pair, either, nothing, sequence, text, alone, codec_of, codec_of-IsCodec,
}

kind : Wire PutOrAppend
kind = mapped to from back (either nothing nothing)
  where
    to : Unit {0} ⊎ Unit {0} → PutOrAppend
    to (inl u) = put_op
    to (inr u) = append_op

    from : PutOrAppend → Unit {0} ⊎ Unit {0}
    from put_op = inl tt
    from append_op = inr tt

    back : (k : PutOrAppend) → to (from k) ≡ k
    back put_op = refl
    back append_op = refl

-- A write's fields.
abbrev Fields : Type 0
Fields = PutOrAppend × (Text × (Text × (ℕ × ℕ)))

pub command : Wire Command
command = mapped to from back (either text (pair kind (pair text (pair text (pair number number)))))
  where
    to : Text ⊎ Fields → Command
    to (inl key) = get (record { key = key })
    to (inr f) = put_append (record {
      kind = f.0;
      key = f.1.0;
      value = f.1.1.0;
      args = record { client_id = f.1.1.1.0; request_id = f.1.1.1.1 };
    })

    from : Command → Text ⊎ Fields
    from (get a) = inl a.key
    from (put_append a) = inr (a.kind, (a.key, (a.value, (a.client_id, a.request_id))))

    back : (c : Command) → to (from c) ≡ c
    back (get a) = refl
    back (put_append a) = refl

abbrev pub raft_codec : Codec Command
raft_codec = codec_of command

pub raft_codec-IsCodec : IsCodec raft_codec
raft_codec-IsCodec = codec_of-IsCodec command

pub whole_store : Wire (List (Text × Text) × List (ℕ × Command))
whole_store = pair (sequence (pair text text)) (sequence (pair number command))

abbrev Whole : Type 0
Whole = List (Text × Text) × List (ℕ × Command)

abbrev kv_of : Option (Whole × List ℕ) → Option (List (Text × Text))
kv_of none = none
kv_of (some (p, rest)) = some p.0

abbrev dedup_of : Option (Whole × List ℕ) → Option (List (ℕ × Command))
dedup_of none = none
dedup_of (some (p, rest)) = some p.1

abbrev pub store_codec : StoreCodec
store_codec = record {
  encode = λ s. whole_store.write (s.kv, s.dedup);
  decode_dedup = λ bytes. dedup_of (whole_store.read bytes);
  decode_kv = λ bytes. kv_of (whole_store.read bytes);
}

pub store_codec-IsStoreCodec : IsStoreCodec store_codec
store_codec-IsStoreCodec = record {
  decode_dedup-encode = λ s. ap dedup_of (alone whole_store (s.kv, s.dedup));
  decode_kv-encode = λ s. ap kv_of (alone whole_store (s.kv, s.dedup));
}
