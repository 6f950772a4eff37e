-- ===== src/Tests/Clients.antt =====
-- The clients' loops and the sequential model, on small inputs.
use distributed_database.Prelude.{
  ℕ, ◌%◌, ◌≡◌, inl, inr, refl, [], ◌∷◌, List, Option, some, none, ok, arith, get_elem?, All,
  replicate, Text, true, false,
}
use distributed_database.ShardController.Types.{n_shards, Config, Reply, ok_err}
use distributed_database.ShardController.Clerk.{ask, taken}
use distributed_database.ShardController.Clerk.Rounds.{ask-round}
use distributed_database.Sharded.Types
use distributed_database.Sharded.Types.{GetReply, Clerk}
use distributed_database.Sharded.Client.{judge_get, request}
use distributed_database.Sharded.Client.Routing.{Routed, request-Routed}
use distributed_database.RaftDb.Types.{Command, put_op, append_op, put_append, get}
use distributed_database.RaftDb.Server.Once.{empty}
use distributed_database.Models.Kv.{Operation, partition, init}
use distributed_database.Models.Kv.Refinement.{IsLegal, history, history_refines}

abbrev accepting : Reply
accepting = record { wrong_leader = false; err = ok_err }

abbrev refusing : Reply
refusing = record { wrong_leader = true; err = ok_err }

refusing_lem : taken refusing ≡ false
unfolding taken
refusing_lem = refl

accepting_lem : taken accepting ≡ true
unfolding taken
accepting_lem = refl

-- A lost call, a refusal, and then a server that takes the request: the third of two is the first.
ask-round_example :
    ((ask taken 2 (none ∷ some refusing ∷ some accepting ∷ []) 0).reply ≡ some accepting)
    × (get_elem? (ask taken 2 (none ∷ some refusing ∷ some accepting ∷ []) 0).servers 2
        ≡ some (2 % 2))
ask-round_example =
    ask-round taken 2 2 accepting (none ∷ some refusing ∷ []) (omega arith)
      (inl refl, (inr (refusing, refl, refusing_lem), tt)) accepting_lem (omega arith)

-- A configuration in which group 4 has every shard.
abbrev all_in_four : Config
all_in_four = record {
  num = 1;
  shards = replicate n_shards 4;
  groups = (4, (115 ∷ []) ∷ (116 ∷ []) ∷ []) ∷ [];
}

abbrev answers_to : ℕ → Option GetReply
answers_to place = some (record { err = Types.ok_err; value = 120 ∷ [] })

abbrev informed : Clerk
informed = record { config = all_in_four }

request-Routed_example :
    (ck' : Clerk) × (calls : List (List Text)) × (result : Option Text) × (request judge_get
        (97 ∷ [])
        ((answers_to, all_in_four) ∷ [])
        informed
      ≡ ok (ck', calls, result))
    × Routed (97 ∷ []) all_in_four (all_in_four ∷ []) calls
request-Routed_example =
    request-Routed judge_get (97 ∷ []) ((answers_to, all_in_four) ∷ []) informed refl (refl, tt)

-- A put, an append that is sent twice, and a get.
abbrev some_commands : List Command
some_commands =
    put_append (record {
      kind = put_op;
      key = 97 ∷ [];
      value = 1 ∷ [];
      args = record { client_id = 6; request_id = 1 };
    })
    ∷ put_append (record {
      kind = append_op;
      key = 97 ∷ [];
      value = 2 ∷ [];
      args = record { client_id = 6; request_id = 2 };
    })
    ∷ put_append (record {
      kind = append_op;
      key = 97 ∷ [];
      value = 2 ∷ [];
      args = record { client_id = 6; request_id = 2 };
    })
    ∷ get (record { key = 97 ∷ [] })
    ∷ []

history_refines_example : All (IsLegal init) (partition (history [] empty some_commands))
history_refines_example = history_refines some_commands

abbrev reading : Operation
reading = record {
  input = record { op = 0; key = 97 ∷ []; value = [] };
  output = record { value = [] };
}
