-- ===== src/RaftDb/Clerk/Rounds.antt =====
-- The clerk's loop goes round the servers.
use distributed_database.Prelude.{
  ℕ, zero, suc, ◌+◌, ◌%◌, ◌≤◌, ◌<◌, ◌≡◌, refl, ap, sym, ◌∙◌, ◌⊎◌, true, false, List, [], ◌∷◌, ◌++◌,
  Option, some, none, ok, All, length, get_elem?, arith, lt→ltb, ◌==◌, ne→==,
}
use native.Mathlib.Nat.{mod-lt, mod-eq_of_lt, mod-add-mod}
use distributed_database.RaftDb.Types.{Err, ok_err, wrong_leader}
use distributed_database.RaftDb.Clerk.{Clerk, next_server, judge, Called, call_until_ok}

-- The call failed, or the server does not lead.
abbrev pub IsRefusal : Option Err → Type 0
IsRefusal answer = (answer ≡ none) ⊎ (answer ≡ some wrong_leader)

-- The servers called are those from `leader` on, in a round of `n`.
abbrev RoundFrom : ℕ → ℕ → ℕ → List ℕ → Type 0
RoundFrom n leader count servers =
    (k : ℕ) → k ≤ count → get_elem? servers k ≡ some ((leader + k) % n)

first_call : (n leader : ℕ) → leader < n → some leader ≡ some ((leader + 0) % n)
first_call n leader h = ap some (sym (mod-eq_of_lt h) ∙ ap (λ i. i % n) (omega arith))

goes_round :
    (ck : Clerk) (leader : ℕ) (refusals : List (Option Err))
    → leader < ck.servers_len
    → All IsRefusal refusals
    → (c : Called) × (call_until_ok (refusals ++ some ok_err ∷ []) leader ck ≡ ok c)
      × (c.ended ≡ true)
      × RoundFrom ck.servers_len leader (length refusals) c.servers
unfolding call_until_ok
goes_round ck leader [] h all = (
  record { servers = leader ∷ []; clerk = ck; ended = true },
  rw (lt→ltb leader ck.servers_len h),
  refl,
  λ k le. at k le,
)
  where
    at : (k : ℕ) → k ≤ 0 → get_elem? (leader ∷ []) k ≡ some ((leader + k) % ck.servers_len)
    at zero le = first_call ck.servers_len leader h
    at (suc k) le = absurd (omega arith)
goes_round ck leader (r ∷ rs) h all =
    let n = ck.servers_len in
    let next = (leader + 1) % n in
    let (c, runs, ended, round) =
      goes_round (record ck { leader = next }) next rs (mod-lt (leader + 1) (omega arith)) all.1 in
    let some_servers : (n == 0) ≡ false = ne→== n 0 (λ e. absurd (omega arith)) in
    let refused : judge r ≡ next_server = ground (arith, all.0) in
    (
      record c { servers = leader ∷ c.servers },
      rw (lt→ltb leader n h, refused, some_servers, runs),
      ended,
      λ k le. at c.servers round k le,
    )
  where
    at :
        (servers : List ℕ)
        → RoundFrom ck.servers_len ((leader + 1) % ck.servers_len) (length rs) servers
        → (k : ℕ) → k ≤ suc (length rs)
        → get_elem? (leader ∷ servers) k ≡ some ((leader + k) % ck.servers_len)
    at servers round zero le = first_call ck.servers_len leader h
    at servers round (suc k) le =
        round k (omega arith)
        ∙ ap some
            (mod-add-mod (leader + 1) ck.servers_len k ∙ ap (λ i. i % ck.servers_len) (omega arith))

-- After any refusals and then a success the loop has ended, without a fault, and its calls went to the
-- servers one after the other, from the first on and round all of them.
pub call_until_ok-round :
    (ck : Clerk) (leader k : ℕ) (refusals : List (Option Err))
    → leader < ck.servers_len
    → All IsRefusal refusals
    → k ≤ length refusals
    → (c : Called) × (call_until_ok (refusals ++ some ok_err ∷ []) leader ck ≡ ok c)
      × (c.ended ≡ true)
      × (get_elem? c.servers k ≡ some ((leader + k) % ck.servers_len))
call_until_ok-round ck leader k refusals h all le =
    let (c, runs, ended, round) = goes_round ck leader refusals h all in
    (c, runs, ended, round k le)
