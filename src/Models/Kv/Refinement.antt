-- ===== src/Models/Kv/Refinement.antt =====
-- The server's store keeps to the sequential specification that the tests check it against.
use distributed_database.Prelude.{
  ℕ, ◌≡◌, refl, ap, sym, subst, ◌∙◌, inl, inr, Bool, true, false, List, [], ◌∷◌, ◌++◌, some, All,
  if◌then◌else◌, Text, text_eq, nat_eq, beq_refl, Bool-cases, Option, none, ◌==◌,
}
use distributed_database.RaftDb.Types.{
  PutOrAppend, put_op, append_op, PutAppendArgs, Command, get, put_append, Store,
}
use distributed_database.RaftDb.Server.{read, apply_command}
use distributed_database.RaftDb.Server.Once.{
  empty, new_value, last_write, effective, value_of, Reflects, apply_command-Reflects,
  empty-Reflects,
}
use distributed_database.Models.Kv.{Operation, init, step, partition}
use distributed_database.Models.Kv.Partition.{ops_of, All-partition}

abbrev pub op_code : PutOrAppend → ℕ
op_code put_op = 1
op_code append_op = 2

abbrev pub write_of : PutAppendArgs → Operation
write_of args = record {
  input = record { op = op_code args.kind; key = args.key; value = args.value };
  output = record { value = [] };
}

-- A write as an operation of its own or none, where the client's last write is the given one.
abbrev pub own_write : PutAppendArgs → Option PutAppendArgs → List Operation
own_write args none = write_of args ∷ []
own_write args (some w) = if w.request_id == args.request_id then [] else write_of args ∷ []

-- What a client sees of its command, with the commands before it, newest first: a get has the value
-- that the server reads for it afterwards; a write that repeats the request number of its client's
-- last write is no operation of its own, and any other write is one.
abbrev pub observed : Command → List Command → Store → List Operation
observed (get args) older after =
    record {
      input = record { op = 0; key = args.key; value = [] };
      output = record { value = read args.key after };
    }
    ∷ []
observed (put_append args) older after = own_write args (last_write args.client_id older)

-- The operations of commands that are applied one after the other, behind some older ones.
abbrev pub history : List Command → Store → List Command → List Operation
history older s [] = []
history older s (c ∷ cs) =
    let after = (apply_command (some c) 0 (s, 0)).0 in
    observed c older after ++ history (c ∷ older) after cs

-- The specification allows the operations, one after the other, from a state of the key on.
abbrev pub IsLegal : Text → List Operation → Type 0
IsLegal state [] = Unit
IsLegal state (o ∷ ops) =
    ((step state o.input o.output).0 ≡ true) × IsLegal (step state o.input o.output).1 ops

step-write :
    (kind : PutOrAppend) (state key value out : Text)
    → step state (record { op = op_code kind; key = key; value = value }) (record { value = out })
      ≡ (true, new_value kind value state)
unfolding step
step-write put_op state key value out = refl
step-write append_op state key value out = refl

step-read :
    (state key value : Text)
    → step state (record { op = 0; key = key; value = value }) (record { value = state })
      ≡ (true, state)
unfolding step
step-read state key value = ap (λ (b : Bool). (b, state)) (beq_refl state)

-- One more operation at the front, which is of the key or is not.
IsLegal-cons :
    (key state state' : Text) (o : Operation) (ops : List Operation)
    → (text_eq.beq o.input.key key ≡ true → step state o.input o.output ≡ (true, state'))
    → (text_eq.beq o.input.key key ≡ false → state ≡ state')
    → IsLegal state' (ops_of key ops)
    → IsLegal state (ops_of key (o ∷ ops))
IsLegal-cons key state state' o ops steps stays rest =
    elim (Bool-cases (text_eq.beq o.input.key key)) [
      | inl same ↦
          let taken = steps same in
          rw same (
            ap (λ (r : Bool × Text). r.0) taken,
            subst (λ (r : Bool × Text). IsLegal r.1 (ops_of key ops)) (sym taken) rest,
          )
      | inr other ↦ rw other (subst (λ t. IsLegal t (ops_of key ops)) (sym (stays other)) rest)
    ]

-- A write that is one of its client's own operations.
written-IsLegal :
    (key : Text) (args : PutAppendArgs) (ws : List PutAppendArgs) (ops : List Operation)
    → IsLegal (value_of key (args ∷ ws)) (ops_of key ops)
    → IsLegal (value_of key ws) (
        ops_of key (
          record {
            input = record { op = op_code args.kind; key = args.key; value = args.value };
            output = record { value = [] };
          }
          ∷ ops))
unfolding value_of
written-IsLegal key args ws ops rest =
    IsLegal-cons key (value_of key ws) (value_of key (args ∷ ws)) _ ops
      (λ same. step-write args.kind (value_of key ws) args.key args.value [] ∙ rw same refl)
      (λ other. rw other refl) rest

own_write-IsLegal :
    (key : Text) (args : PutAppendArgs) (older : List Command) (last : Option PutAppendArgs)
    (ops : List Operation)
    → last_write args.client_id older ≡ last
    → IsLegal (value_of key (effective (put_append args ∷ older))) (ops_of key ops)
    → IsLegal (value_of key (effective older)) (ops_of key (own_write args last ++ ops))
unfolding effective
own_write-IsLegal key args older none ops never rest =
    written-IsLegal key args (effective older) ops (rw (effective, never) at rest)
own_write-IsLegal key args older (some w) ops known rest =
    elim (Bool-cases (w.request_id == args.request_id)) [
      | inl repeated ↦ rw repeated (rw (effective, known, repeated) at rest)
      | inr new ↦
          rw new
            (written-IsLegal key args (effective older) ops (rw (effective, known, new) at rest))
    ]

history-IsLegal :
    (key : Text) (older : List Command) (s : Store) (cs : List Command)
    → Reflects older s
    → IsLegal (value_of key (effective older)) (ops_of key (history older s cs))
unfolding effective
history-IsLegal key older s [] r = tt
history-IsLegal key older s (get args ∷ cs) r =
    let after : Store = (apply_command (some (get args)) 0 (s, 0)).0 in
    let next = apply_command-Reflects (get args) older s r in
    let state = value_of key (effective older) in
    IsLegal-cons key state state _ (history (get args ∷ older) after cs)
      (λ same.
        let reads : read args.key after ≡ state =
          next.values args.key
          ∙ ap (λ k. value_of k (effective older)) ((text_eq.beq_iff _ _).0 same) in
        ap (λ v. step state (record { op = 0; key = args.key; value = [] }) (record { value = v }))
          reads
        ∙ step-read state args.key [])
      (λ other. refl) (history-IsLegal key (get args ∷ older) after cs next)
history-IsLegal key older s (put_append args ∷ cs) r =
    let after : Store = (apply_command (some (put_append args)) 0 (s, 0)).0 in
    let next = apply_command-Reflects (put_append args) older s r in
    own_write-IsLegal key args older (last_write args.client_id older) _ refl
      (history-IsLegal key (put_append args ∷ older) after cs next)

-- Whatever commands are applied to an empty store, the checker's partition of the operations that
-- their clients see is legal, part by part: every get returns what the specification says. A write
-- is an operation unless it repeats the request number of its client's last write.
pub history_refines : (cs : List Command) → All (IsLegal init) (partition (history [] empty cs))
unfolding init value_of effective
history_refines cs =
    All-partition (IsLegal init) (history [] empty cs)
      (λ key. history-IsLegal key [] empty cs empty-Reflects)
