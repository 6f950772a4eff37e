-- ===== src/Tests/Wire/Configs.antt =====
-- The commands of the shard controller, as bytes.
use distributed_database.Prelude.{ℕ, ◌≡◌, refl, ◌⊎◌, inl, inr, List, Option, Text}
use distributed_database.Raft.Types.{Codec, IsCodec}
use distributed_database.ShardController.Types.{Command, join, leave, move, query}
use distributed_database.Tests.Wire.{
  Wire, number, mapped, pair, either, sequence, optional, text, codec_of, codec_of-IsCodec,
}

-- The fields of the four commands.
abbrev Fields : Type 0
Fields = (List (ℕ × List Text) × (ℕ × ℕ)) ⊎ ((List ℕ × (ℕ × ℕ)) ⊎ (((ℕ × ℕ) × (ℕ × ℕ)) ⊎ Option ℕ))

pub command : Wire Command
command = mapped to from back (
    either (pair (sequence (pair number (sequence text))) (pair number number)) (
      either (pair (sequence number) (pair number number))
        (either (pair (pair number number) (pair number number)) (optional number))))
  where
    to : Fields → Command
    to (inl f) =
        join (record { servers = f.0; args = record { client_id = f.1.0; request_id = f.1.1 } })
    to (inr (inl f)) =
        leave (record { gids = f.0; args = record { client_id = f.1.0; request_id = f.1.1 } })
    to (inr (inr (inl f))) = move (record {
      shard = f.0.0;
      gid = f.0.1;
      args = record { client_id = f.1.0; request_id = f.1.1 };
    })
    to (inr (inr (inr f))) = query (record { num = f })

    from : Command → Fields
    from (join a) = inl (a.servers, (a.args.client_id, a.args.request_id))
    from (leave a) = inr (inl (a.gids, (a.args.client_id, a.args.request_id)))
    from (move a) = inr (inr (inl ((a.shard, a.gid), (a.args.client_id, a.args.request_id))))
    from (query a) = inr (inr (inr a.num))

    back : (c : Command) → to (from c) ≡ c
    back (join a) = refl
    back (leave a) = refl
    back (move a) = refl
    back (query a) = refl

abbrev pub controller_codec : Codec Command
controller_codec = codec_of command

pub controller_codec-IsCodec : IsCodec controller_codec
controller_codec-IsCodec = codec_of-IsCodec command
