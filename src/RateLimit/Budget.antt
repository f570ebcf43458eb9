-- ===== src/RateLimit/Budget.antt =====
-- The budget of a window (`AllowRequest`, internal/store/dynamodb/rate_limit.go).
use mathlib.Core.Path.{subst}
use awesome_lambda_auth.Common.{
  [], ◌&&◌, Bool-cases, str_eq, if◌then◌else◌, ap, sym, Option-cases, str-cases, All, ◌∷◌, List,
  ◌≢◌, String, ℕ, ◌+◌, ◌≤◌, ◌<◌, ◌≡◌, ◌⊎◌, refl, inl, inr, true, Option, none, some, arith,
}
use awesome_lambda_auth.RateLimit.{
  rate_limit_window, request_key, Request, allow_request, check_request, Answer, answer,
  count_write, within_budget, counted,
}
use awesome_lambda_auth.Database.{
  Dynamo, Value, Item, num, Key, Contents, attributes, Outcome, written, refused, failed, WriteLaw,
}
use awesome_lambda_auth.Database.Expression.{get_n}

-- The counter is missing, or a number.
abbrev pub IsCount : Option Value → Type 0
IsCount v = (v ≡ none) ⊎ ((c : ℕ) × (v ≡ some (num c)))

-- The counter that an item holds; a missing item holds none.
abbrev pub count_at : Contents → Key → ℕ
count_at t k = get_n (attributes (t k)) "n"

-- What one answer says of the counter before and after it.
record Counts (limit : ℕ) (before after : Contents) (k : Key) (a : Answer) : Type 0 where
  is_count : IsCount (attributes (after k) "n")
  grows : count_at before k ≤ count_at after k
  capped : count_at after k ≤ limit
  spends : a.allowed ≡ true → count_at after k ≡ count_at before k + 1

pub counted-n :
    (ends : ℕ) (i : Item) (c : ℕ)
    → IsCount (i "n")
    → get_n i "n" ≡ c
    → counted ends i "n" ≡ some (num (c + 1))
unfolding counted
counted-n ends i c h e = ground arith

counted_step :
    (limit ends : ℕ) (i : Item)
    → IsCount (i "n")
    → 0 < limit
    → within_budget limit i ≡ true
    → get_n i "n" < limit
unfolding within_budget
counted_step limit ends i h pos ok = ground arith

count_write-Counts :
    (limit ends remaining : ℕ) (k : Key) (before after : Contents) (out : Outcome)
    → IsCount (attributes (before k) "n")
    → count_at before k ≤ limit
    → 0 < limit
    → WriteLaw before after (count_write k limit ends) out
    → Counts limit before after k (answer remaining out)
unfolding count_write answer
count_write-Counts limit ends remaining k before after (refused pre) h cap pos (_, _, same) =
    record {
      is_count = rw (same k) h;
      grows = rw (same k) (omega arith);
      capped = rw (same k) cap;
      spends = λ e. cc;
    }
count_write-Counts limit ends remaining k before after failed h cap pos (inl same) = record {
  is_count = rw (same k) h;
  grows = rw (same k) (omega arith);
  capped = rw (same k) cap;
  spends = λ e. cc;
}
count_write-Counts limit ends remaining k before after failed h cap pos (inr (ok, ((new, _), _))) =
    let below = counted_step limit ends (attributes (before k)) h pos ok in
    let next = counted-n ends (attributes (before k)) (count_at before k) h refl in
    record {
      is_count = rw (new, next) (inr (_, refl));
      grows = rw (new, next) (omega arith);
      capped = rw (new, next) (omega arith);
      spends = λ e. cc;
    }
count_write-Counts limit ends remaining k before after (written pre) h cap pos
      (ok, _, ((new, _), _)) =
    let below = counted_step limit ends (attributes (before k)) h pos ok in
    let next = counted-n ends (attributes (before k)) (count_at before k) h refl in
    record {
      is_count = rw (new, next) (inr (_, refl));
      grows = rw (new, next) (omega arith);
      capped = rw (new, next) (omega arith);
      spends = λ e. rw (new, next) refl;
    }

module _ (format_int : ℕ → String) (db : Dynamo) where
  open db use {Table, contents, write_item, write_law}

  check_request-pos : (r : Request) → check_request r ≡ none → 0 < r.limit
  unfolding check_request
  check_request-pos r h = ground arith

  abbrev step : Table → Request → Table × Answer
  step = allow_request format_int db

  allow_request-Counts :
      (t : Table) (r : Request)
      → let k = request_key format_int r in
        IsCount (attributes (contents t k) "n")
        → count_at (contents t) k ≤ r.limit
        → Counts r.limit (contents t) (contents (step t r).0) k (step t r).1
  unfolding allow_request
  allow_request-Counts t r h cap = elim (Option-cases (check_request r)) [
    | inr (e, bad) ↦
        rw (bad, allow_request)
          (record { is_count = h; grows = omega arith; capped = cap; spends = λ e. cc })
    | inl good ↦
        let k = request_key format_int r in
        let (index, ends) = rate_limit_window r.now r.window in
        rw (good, allow_request)
          (count_write-Counts r.limit ends _ k (contents t)
            (contents (write_item t (count_write k r.limit ends)).0)
            (write_item t (count_write k r.limit ends)).1 h cap (check_request-pos r good)
            (write_law t (count_write k r.limit ends)))
  ]

  -- The same at a key and a budget that are known to be the request's.
  allow_at-Counts :
      (t : Table) (r : Request) (k : Key) (limit : ℕ)
      → request_key format_int r ≡ k
      → r.limit ≡ limit
      → IsCount (attributes (contents t k) "n")
      → count_at (contents t) k ≤ limit
      → Counts limit (contents t) (contents (step t r).0) k (step t r).1
  allow_at-Counts t r k limit e l =
      subst
        (λ j.
          IsCount (attributes (contents t j) "n")
          → count_at (contents t) j ≤ limit
          → Counts limit (contents t) (contents (step t r).0) j (step t r).1)
        e
        (subst
          (λ m.
            IsCount (attributes (contents t (request_key format_int r)) "n")
            → count_at (contents t) (request_key format_int r) ≤ m
            → Counts m (contents t) (contents (step t r).0) (request_key format_int r) (step t r).1)
          l (allow_request-Counts t r))

  write-frame :
      (w_key k : Key) (limit ends : ℕ) (before after : Contents) (out : Outcome)
      → k ≢ w_key
      → WriteLaw before after (count_write w_key limit ends) out
      → after k ≡ before k
  unfolding count_write
  write-frame w_key k limit ends before after (written pre) ne (_, _, (_, frame)) = frame k (ne, tt)
  write-frame w_key k limit ends before after (refused pre) ne (_, _, same) = same k
  write-frame w_key k limit ends before after failed ne (inl same) = same k
  write-frame w_key k limit ends before after failed ne (inr (_, (_, frame))) = frame k (ne, tt)

  pub allow_request-frame :
      (t : Table) (r : Request) (k : Key)
      → k ≢ request_key format_int r
      → contents (step t r).0 k ≡ contents t k
  unfolding allow_request
  allow_request-frame t r k ne = elim (Option-cases (check_request r)) [
    | inr (e, bad) ↦ rw (bad, allow_request)
    | inl good ↦
        let k' = request_key format_int r in
        let (index, ends) = rate_limit_window r.now r.window in
        rw (good, allow_request)
          (write-frame k' k r.limit ends (contents t)
            (contents (write_item t (count_write k' r.limit ends)).0)
            (write_item t (count_write k' r.limit ends)).1 ne
            (write_law t (count_write k' r.limit ends)))
  ]

  -- How many of these requests, one after the other, are let through on one counter.
  unfoldable pub admitted : String → Table → List Request → ℕ
  admitted pk t [] = 0
  admitted pk t (r ∷ rs) =
      let (t', a) = allow_request format_int db t r in
      let rest = admitted pk t' rs in
      if str_eq (request_key format_int r).0 pk && a.allowed then rest + 1 else rest

  -- Every request that is counted at the key has the same budget.
  abbrev pub SameBudget : String → ℕ → List Request → Type 0
  SameBudget pk limit rs = All (λ r. (request_key format_int r).0 ≡ pk → r.limit ≡ limit) rs

  -- Of any requests to a counter, in any order, among any requests to other counters and with
  -- failures of the service anywhere, at most what is left of the budget is let through.
  pub admitted-le :
      (pk : String) (limit : ℕ) (t : Table) (rs : List Request)
      → SameBudget pk limit rs
      → IsCount (attributes (contents t (pk, "RL")) "n")
      → count_at (contents t) (pk, "RL") ≤ limit
      → count_at (contents t) (pk, "RL") + admitted pk t rs ≤ limit
  unfolding admitted
  admitted-le pk limit t [] same h under = omega arith
  admitted-le pk limit t (r ∷ rs) (s, same) h under =
      elim (str-cases (request_key format_int r).0 pk) [
        | inr (ne, test) ↦
            let kept =
              allow_request-frame t r (pk, "RL") (λ e. ne (sym (ap (λ (k : Key). k.0) e))) in
            rw test (
              subst (λ o. get_n (attributes o) "n" + admitted pk (step t r).0 rs ≤ limit) kept
                (admitted-le pk limit (step t r).0 rs same (rw kept h) (rw kept under)))
        | inl (e, test) ↦
            let c =
              allow_at-Counts t r (pk, "RL") limit (ap (λ (p : String). (p, "RL")) e) (s e) h
                under in
            let rest = admitted-le pk limit (step t r).0 rs same c.is_count c.capped in
            elim (Bool-cases (step t r).1.allowed) [
              | inl yes_ ↦ rw (test, yes_) (omega (arith, rest, c.spends yes_))
              | inr no_ ↦ rw (test, no_) (omega (arith, rest, c.grows))
            ]
      ]
