-- ===== src/Tests/Stores.antt =====
-- The database's store and its clerk, on small inputs.
use distributed_database.Prelude.{◌≡◌, [], ◌∷◌, arith, ℕ, Text}
use distributed_database.Prelude.{some, none, true, ok, inl, inr, get_elem?, refl}
use distributed_database.RaftDb.Types.{ok_err, wrong_leader}
use distributed_database.RaftDb.Clerk.{Clerk, Called, call_until_ok}
use distributed_database.RaftDb.Clerk.Rounds.{call_until_ok-round}
use distributed_database.RaftDb.Types.{
  Command, PutAppendArgs, PutOrAppend, put_op, append_op, put_append,
}
use distributed_database.RaftDb.Server.{read}
use distributed_database.RaftDb.Server.Once.{
  apply_commands, effective, value_of, empty, apply_commands-exactly_once, retry_harmless,
}

-- The key "x".
abbrev x : Text
x = 120 ∷ []

abbrev request : PutOrAppend → ℕ → ℕ → Text → Command
request kind client id v = put_append (record {
  kind = kind;
  key = x;
  value = v;
  args = record { client_id = client; request_id = id };
})

abbrev mine : PutAppendArgs
mine = record {
  kind = append_op;
  key = x;
  value = 97 ∷ [];
  args = record { client_id = 1; request_id = 4 };
}

retry_harmless_example :
    read x (
      apply_commands empty (
        request put_op 2 1 (98 ∷ [])
        ∷ put_append mine
        ∷ request append_op 2 2 (99 ∷ [])
        ∷ put_append mine
        ∷ []))
    ≡ read x (
        apply_commands empty
          (request put_op 2 1 (98 ∷ []) ∷ put_append mine ∷ request append_op 2 2 (99 ∷ []) ∷ []))
retry_harmless_example =
    retry_harmless (request put_op 2 1 (98 ∷ []) ∷ []) (request append_op 2 2 (99 ∷ []) ∷ []) mine x
      ((λ e. absurd (omega arith)), tt)

apply_commands-exactly_once_example :
    read x (apply_commands empty (put_append mine ∷ put_append mine ∷ []))
    ≡ value_of x (effective (put_append mine ∷ put_append mine ∷ []))
apply_commands-exactly_once_example =
    apply_commands-exactly_once (put_append mine ∷ put_append mine ∷ []) x

abbrev clerk : Clerk
clerk = record { servers_len = 3; cid = 1; leader = 0 }

-- The last of three servers fails, the first one does not lead, and the second one answers.
call_until_ok-round_example :
    (c : Called) × (call_until_ok (none ∷ some wrong_leader ∷ some ok_err ∷ []) 2 clerk ≡ ok c)
    × (c.ended ≡ true)
    × (get_elem? c.servers 2 ≡ some 1)
call_until_ok-round_example =
    call_until_ok-round clerk 2 2 (none ∷ some wrong_leader ∷ []) (omega arith)
      (inl refl, (inr refl, tt)) (omega arith)
