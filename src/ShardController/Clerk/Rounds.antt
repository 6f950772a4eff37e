-- ===== src/ShardController/Clerk/Rounds.antt =====
-- The clerk's loops go round the servers.
use native.Mathlib.Nat.{mod-eq_of_lt, mod_self, mod-add-mod}
use distributed_database.Prelude.{
  ℕ, zero, suc, ◌+◌, ◌%◌, ◌≤◌, ◌<◌, ◌≡◌, refl, ap, sym, ◌∙◌, ◌⊎◌, inl, inr, Bool, true, false, List,
  [], ◌∷◌, ◌++◌, Option, some, none, All, length, get_elem?, arith, ◌==◌, if◌then◌else◌, Bool-cases,
  ==_iff,
}
use distributed_database.ShardController.Clerk.{ask, accepted}

next-mod :
    (n server : ℕ) → server < n → (if server + 1 == n then 0 else server + 1) ≡ (server + 1) % n
next-mod n server h = elim (Bool-cases (server + 1 == n)) [
  | inl last ↦
      let whole : server + 1 ≡ n = (==_iff (server + 1) n).0 last in
      rw (last, whole) (sym (mod_self n))
  | inr inside ↦ let less : server + 1 < n = ground arith in rw inside (sym (mod-eq_of_lt less))
]

next-lt : (n server : ℕ) → server < n → (if server + 1 == n then 0 else server + 1) < n
next-lt n server h = ground arith

module _ {ℓ} {R : Type ℓ} (is_taken : R → Bool) where
  -- The call failed, or its reply was no good.
  abbrev pub IsRefusal : Option R → Type ℓ
  IsRefusal answer = (answer ≡ none) ⊎ ((r : R) × (answer ≡ some r) × (is_taken r ≡ false))

  refused : (answer : Option R) → IsRefusal answer → accepted is_taken answer ≡ false
  refused none h = refl
  refused (some r) h = ground arith

  turns :
      (n server : ℕ) (reply : R) (refusals : List (Option R))
      → server < n
      → All IsRefusal refusals
      → is_taken reply ≡ true
      → ((ask is_taken n (refusals ++ some reply ∷ []) server).reply ≡ some reply)
        × ((k : ℕ)
            → k ≤ length refusals
            → get_elem? (ask is_taken n (refusals ++ some reply ∷ []) server).servers k
              ≡ some ((server + k) % n))
  unfolding ask
  turns n server reply [] h all good = (rw good, λ k le. at k le)
    where
      at :
          (k : ℕ)
          → k ≤ 0
          → get_elem? (ask is_taken n (some reply ∷ []) server).servers k ≡ some ((server + k) % n)
      at zero le = rw good (ap some (sym (mod-eq_of_lt h) ∙ ap (λ i. i % n) (omega arith)))
      at (suc k) le = absurd (omega arith)
  turns n server reply (r ∷ rs) h all good =
      let next : ℕ = if server + 1 == n then 0 else server + 1 in
      let (ends, round) = turns n next reply rs (next-lt n server h) all.1 good in
      (
        rw (refused r all.0) ends,
        λ k le.
            rw (refused r all.0)
              (later (ask is_taken n (rs ++ some reply ∷ []) next).servers round k le),
      )
    where
      later :
          (servers : List ℕ)
          → ((k : ℕ)
              → k ≤ length rs
              → get_elem? servers k ≡ some (((if server + 1 == n then 0 else server + 1) + k) % n))
          → (k : ℕ) → k ≤ suc (length rs)
          → get_elem? (server ∷ servers) k ≡ some ((server + k) % n)
      later servers round zero le = ap some (sym (mod-eq_of_lt h) ∙ ap (λ i. i % n) (omega arith))
      later servers round (suc k) le =
          round k (omega arith)
          ∙ ap some (
              ap (λ i. (i + k) % n) (next-mod n server h)
              ∙ mod-add-mod (server + 1) n k
              ∙ ap (λ i. i % n) (omega arith))

  -- After any refusals and then a reply that is taken the loops end with that reply, and their calls
  -- went to the servers one after the other, round and round from the first.
  pub ask-round :
      (n k : ℕ) (reply : R) (refusals : List (Option R))
      → 0 < n
      → All IsRefusal refusals
      → is_taken reply ≡ true
      → k ≤ length refusals
      → ((ask is_taken n (refusals ++ some reply ∷ []) 0).reply ≡ some reply)
        × (get_elem? (ask is_taken n (refusals ++ some reply ∷ []) 0).servers k ≡ some (k % n))
  ask-round n k reply refusals some_servers all good le =
      let (ends, round) = turns n 0 reply refusals some_servers all good in
      (ends, round k le ∙ ap (λ i. some (i % n)) (omega arith))
