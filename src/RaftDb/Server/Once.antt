-- ===== src/RaftDb/Server/Once.antt =====
-- What a sequence of applied commands does to the store: every request takes effect once.
use mathlib.Core.List.{append-nil, append_assoc, reverse, reverse-cons, reverse-append}
use distributed_database.Prelude.{
  ℕ, ◌≡◌, refl, ap, sym, ◌∙◌, ◌⊎◌, inl, inr, true, false, List, [], ◌∷◌, ◌++◌, Option, none, some,
  arith, ◌==◌, if◌then◌else◌, lookup, insert, lookup-insert, Text, nat_eq, text_eq, Bool-cases,
  ==_iff, ==_refl, All, ne→==, ◌≢◌,
}
use distributed_database.RaftDb.Types.{
  PutOrAppend, put_op, append_op, PutAppendArgs, Command, get, put_append, Store,
}
use distributed_database.RaftDb.Server.{read, write_value, is_duplicate, apply_command}

-- The store that the server is left with by commands that are applied one after the other.
abbrev pub apply_commands : Store → List Command → Store
apply_commands s [] = s
apply_commands s (c ∷ cs) = apply_commands (apply_command (some c) 0 (s, 0)).0 cs

-- The last write of a client in a history, newest first.
unfoldable pub last_write : ℕ → List Command → Option PutAppendArgs
last_write client [] = none
last_write client (get args ∷ older) = last_write client older
last_write client (put_append args ∷ older) =
    if args.client_id == client then some args else last_write client older

-- The writes that take effect in a history, newest first: those whose client did not write with
-- the same request number just before.
unfoldable pub effective : List Command → List PutAppendArgs
effective [] = []
effective (get args ∷ older) = effective older
effective (put_append args ∷ older) = elim (last_write args.client_id older) [
  | none ↦ args ∷ effective older
  | some before ↦
      if before.request_id == args.request_id then effective older else args ∷ effective older
]

-- What a write makes of a key's value.
abbrev pub new_value : PutOrAppend → Text → Text → Text
new_value put_op value before = value
new_value append_op value before = before ++ value

-- The value of a key after writes, newest first: the last put, and the appends since.
unfoldable pub value_of : Text → List PutAppendArgs → Text
value_of key [] = []
value_of key (w ∷ older) =
    let before = value_of key older in
    if text_eq.beq w.key key then (new_value w.kind w.value before) else before

-- What is known of a client: no write yet, or the number of the last one.
abbrev pub Known : List Command → List (ℕ × Command) → ℕ → Type 0
Known h dedup client =
    ((last_write client h ≡ none) × (lookup client dedup ≡ none))
    ⊎ ((w : PutAppendArgs) × (v : PutAppendArgs) × (last_write client h ≡ some w)
        × (lookup client dedup ≡ some (put_append v))
        × (v.request_id ≡ w.request_id))

-- The store holds what the history's effective writes say, and each client's last request number.
pub record Reflects (h : List Command) (s : Store) : Type 0 where
  pub values : (key : Text) → read key s ≡ value_of key (effective h)
  pub last : (client : ℕ) → Known h s.dedup client

pub read-write_value :
    (args : PutAppendArgs) (key : Text) (kv : List (Text × Text)) (d : List (ℕ × Command))
    → read key (record { kv = write_value args kv; dedup = d }) ≡ (
        if text_eq.beq args.key key
        then new_value args.kind args.value (read key (record { kv = kv; dedup = d }))
        else read key (record { kv = kv; dedup = d }))
unfolding read write_value
read-write_value args key kv d = ground (
  arith,
  text_eq.beq_iff args.key key,
  lookup-insert args.key key args.value kv,
  lookup-insert args.key key
      (elim (lookup args.key kv) [ none ↦ args.value | some v ↦ v ++ args.value ]) kv,
)

pub read-kv :
    (key : Text) (s : Store) (d : List (ℕ × Command))
    → read key (record { kv = s.kv; dedup = d }) ≡ read key s
unfolding read
read-kv key s d = refl

fresh-value :
    (args : PutAppendArgs) (key : Text) (s : Store) (d : List (ℕ × Command))
    (ws : List PutAppendArgs)
    → read key s ≡ value_of key ws
    → read key (record { kv = write_value args s.kv; dedup = d }) ≡ value_of key (args ∷ ws)
unfolding value_of
fresh-value args key s d ws h = read-write_value args key s.kv d ∙ same
  where
    before : read key (record { kv = s.kv; dedup = d }) ≡ value_of key ws
    before = read-kv key s d ∙ h

    same :
        (if text_eq.beq args.key key
          then new_value args.kind args.value (read key (record { kv = s.kv; dedup = d }))
          else read key (record { kv = s.kv; dedup = d }))
        ≡ value_of key (args ∷ ws)
    same = rw before

Known-written :
    (args : PutAppendArgs) (h : List Command) (dedup : List (ℕ × Command)) (client : ℕ)
    → Known h dedup client
    → Known (put_append args ∷ h) (insert args.client_id (put_append args) dedup) client
unfolding last_write
Known-written args h dedup client k = elim (Bool-cases (args.client_id == client)) [
  | inl same ↦
      inr (args, args, rw same, lookup-insert args.client_id client _ dedup ∙ rw same, refl)
  | inr differ ↦ rw (differ, lookup-insert args.client_id client (put_append args) dedup, differ) k
]

Known-repeated :
    (args w v : PutAppendArgs) (h : List Command) (dedup : List (ℕ × Command)) (client : ℕ)
    → last_write args.client_id h ≡ some w
    → lookup args.client_id dedup ≡ some (put_append v)
    → v.request_id ≡ args.request_id
    → Known h dedup client
    → Known (put_append args ∷ h) dedup client
unfolding last_write
Known-repeated args w v h dedup client last stored same k =
    elim (Bool-cases (args.client_id == client)) [
      | inl mine ↦
          let is_mine : args.client_id ≡ client = (==_iff _ _).0 mine in
          rw mine (inr (args, v, refl, ap (λ c. lookup c dedup) (sym is_mine) ∙ stored, same))
      | inr differ ↦ rw differ k
    ]

pub apply_command-Reflects :
    (c : Command) (h : List Command) (s : Store)
    → Reflects h s
    → Reflects (c ∷ h) (apply_command (some c) 0 (s, 0)).0
unfolding apply_command effective last_write
apply_command-Reflects (get args) h s r = record { values = r.values; last = r.last }
apply_command-Reflects (put_append args) h s r = elim (r.last args.client_id) [
  | inl (never, unknown) ↦ rw (unknown, is_duplicate) (fresh (rw (never, effective)))
  | inr (w, v, last, stored, same) ↦ elim (Bool-cases (w.request_id == args.request_id)) [
    | inl repeated ↦
        let dup : (v.request_id == args.request_id) ≡ true = ground arith in
        rw (stored, is_duplicate, dup)
          (record {
            values = λ key. rw (last, effective, repeated) (r.values key);
            last = λ client.
                Known-repeated args w v h s.dedup client last stored (ground arith) (r.last client);
          })
    | inr new ↦
        let not_dup : (v.request_id == args.request_id) ≡ false = ground arith in
        rw (stored, is_duplicate, not_dup) (fresh (rw (last, effective, new)))
  ]
]
  where
    fresh :
        effective (put_append args ∷ h) ≡ args ∷ effective h
        → Reflects (put_append args ∷ h) (record {
          kv = write_value args s.kv;
          dedup = insert args.client_id (put_append args) s.dedup;
        })
    fresh e = record {
      values =
          λ key. fresh-value args key s _ (effective h) (r.values key) ∙ sym (ap (value_of key) e);
      last = λ client. Known-written args h s.dedup client (r.last client);
    }

apply_commands-Reflects :
    (cs h : List Command) (s : Store)
    → Reflects h s
    → Reflects (reverse cs ++ h) (apply_commands s cs)
apply_commands-Reflects [] h s r = r
apply_commands-Reflects (c ∷ cs) h s r =
    let regroup : reverse (c ∷ cs) ++ h ≡ reverse cs ++ c ∷ h =
      ap (λ xs. xs ++ h) (reverse-cons c cs) ∙ append_assoc (reverse cs) (c ∷ []) h in
    rw regroup (
      apply_commands-Reflects cs (c ∷ h) (apply_command (some c) 0 (s, 0)).0
        (apply_command-Reflects c h s r))

abbrev pub empty : Store
empty = record { kv = []; dedup = [] }

pub empty-Reflects : Reflects [] empty
unfolding read effective value_of last_write lookup
empty-Reflects = record { values = λ key. refl; last = λ client. inl (refl, refl) }

-- After any commands a key has the value that the writes say which take effect: those that do not
-- repeat the request number of their client's last write.
pub apply_commands-exactly_once :
    (cs : List Command) (key : Text)
    → read key (apply_commands empty cs) ≡ value_of key (effective (reverse cs))
apply_commands-exactly_once cs key =
    (rw (append-nil (reverse cs)) at (apply_commands-Reflects cs [] empty empty-Reflects).values
      key)

-- No write of the client.
abbrev pub NotBy : ℕ → Command → Type 0
NotBy client (get args) = Unit
NotBy client (put_append args) = args.client_id ≢ client

last_write-skip :
    (client : ℕ) (cs h : List Command)
    → All (NotBy client) cs
    → last_write client (cs ++ h) ≡ last_write client h
unfolding last_write
last_write-skip client [] h n = refl
last_write-skip client (get args ∷ cs) h n = last_write-skip client cs h n.1
last_write-skip client (put_append args ∷ cs) h n =
    rw (ne→== args.client_id client n.0) (last_write-skip client cs h n.1)

All-reverse :
    (client : ℕ) (cs : List Command) → All (NotBy client) cs → All (NotBy client) (reverse cs)
All-reverse client [] n = tt
All-reverse client (c ∷ cs) n =
    rw (reverse-cons c cs) (all_append (reverse cs) (All-reverse client cs n.1))
  where
    all_append : (xs : List Command) → All (NotBy client) xs → All (NotBy client) (xs ++ c ∷ [])
    all_append [] h = (n.0, tt)
    all_append (x ∷ xs) h = (h.0, all_append xs h.1)

-- A client that sends a write again, before any other write of its own, changes nothing: after any
-- history, the write, any commands that are no writes of that client, and the write once more, every
-- key has the value that it has without the last one.
pub retry_harmless :
    (before between : List Command) (w : PutAppendArgs) (key : Text)
    → All (NotBy w.client_id) between
    → read key (apply_commands empty (before ++ put_append w ∷ between ++ put_append w ∷ []))
      ≡ read key (apply_commands empty (before ++ put_append w ∷ between))
unfolding last_write effective
retry_harmless before between w key others =
    apply_commands-exactly_once (before ++ put_append w ∷ between ++ put_append w ∷ []) key
    ∙ ap (value_of key) same
    ∙ sym (apply_commands-exactly_once (before ++ put_append w ∷ between) key)
  where
    long : List Command
    long = before ++ put_append w ∷ between

    newest :
        reverse (before ++ put_append w ∷ between ++ put_append w ∷ [])
        ≡ put_append w ∷ reverse long
    newest = reverse-append long (put_append w ∷ [])

    known : last_write w.client_id (reverse long) ≡ some w
    known =
        ap (last_write w.client_id) (
          reverse-append before (put_append w ∷ between)
          ∙ ap (λ xs. xs ++ reverse before) (reverse-cons (put_append w) between)
          ∙ append_assoc (reverse between) (put_append w ∷ []) (reverse before))
        ∙ last_write-skip w.client_id (reverse between) (put_append w ∷ reverse before)
            (All-reverse w.client_id between others)
        ∙ rw (last_write, ==_refl w.client_id)

    same :
        effective (reverse (before ++ put_append w ∷ between ++ put_append w ∷ []))
        ≡ effective (reverse long)
    same = rw newest (rw (known, effective, ==_refl w.request_id))
