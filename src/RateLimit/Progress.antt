-- ===== src/RateLimit/Progress.antt =====
-- Counters only grow (`AllowRequest`, internal/store/dynamodb/rate_limit.go).
use mathlib.Core.Path.{subst}
use awesome_lambda_auth.Common.{
  ℕ, ◌+◌, ◌≤◌, String, ◌≡◌, refl, sym, ap, inl, inr, Bool, true, arith, Option-cases, str-cases,
}
use awesome_lambda_auth.Database.{
  Contents, Key, attributes, Dynamo, Outcome, written, refused, failed, WriteLaw,
}
use awesome_lambda_auth.RateLimit.{
  Request, allow_request, answer, count_write, request_key, check_request, rate_limit_window,
}
use awesome_lambda_auth.RateLimit.Budget.{IsCount, count_at, counted-n, allow_request-frame}

-- What any answer says of the counter that it is about, whatever the counter holds.
pub record Progress (before after : Contents) (k : Key) (allowed : Bool) : Type 0 where
  pub is_count : IsCount (attributes (after k) "n")
  pub grows : count_at before k ≤ count_at after k
  pub spends : allowed ≡ true → count_at after k ≡ count_at before k + 1

count_write-Progress :
    (limit ends remaining : ℕ) (k : Key) (before after : Contents) (out : Outcome)
    → IsCount (attributes (before k) "n")
    → WriteLaw before after (count_write k limit ends) out
    → Progress before after k (answer remaining out).allowed
unfolding count_write answer
count_write-Progress limit ends remaining k before after (refused pre) h (_, _, same) = record {
  is_count = rw (same k) h;
  grows = rw (same k) (omega arith);
  spends = λ e. cc;
}
count_write-Progress limit ends remaining k before after failed h (inl same) = record {
  is_count = rw (same k) h;
  grows = rw (same k) (omega arith);
  spends = λ e. cc;
}
count_write-Progress limit ends remaining k before after failed h (inr (ok, ((new, _), _))) =
    let next = counted-n ends (attributes (before k)) (count_at before k) h refl in
    record {
      is_count = rw (new, next) (inr (_, refl));
      grows = rw (new, next) (omega arith);
      spends = λ e. cc;
    }
count_write-Progress limit ends remaining k before after (written pre) h (ok, _, ((new, _), _)) =
    let next = counted-n ends (attributes (before k)) (count_at before k) h refl in
    record {
      is_count = rw (new, next) (inr (_, refl));
      grows = rw (new, next) (omega arith);
      spends = λ e. rw (new, next) refl;
    }

module _ (format_int : ℕ → String) (db : Dynamo) where
  open db use {Table, contents, write_item, write_law}

  pub allow_request-Progress :
      (t : Table) (r : Request)
      → IsCount (attributes (contents t (request_key format_int r)) "n")
      → Progress
          (contents t)
          (contents (allow_request format_int db t r).0)
          (request_key format_int r)
          (allow_request format_int db t r).1.allowed
  unfolding allow_request
  allow_request-Progress t r h = elim (Option-cases (check_request r)) [
    | inr (e, bad) ↦
        rw (bad, allow_request) (record { is_count = h; grows = omega arith; spends = λ e. cc })
    | inl good ↦
        let k = request_key format_int r in
        let (index, ends) = rate_limit_window r.now r.window in
        let w = count_write k r.limit ends in
        rw (good, allow_request)
          (count_write-Progress r.limit ends _ k (contents t) (contents (write_item t w).0)
            (write_item t w).1 h (write_law t w))
  ]

  -- The counter at any key, by a request to any.
  pub allow_request-grows :
      (t : Table) (r : Request) (pk : String)
      → IsCount (attributes (contents t (pk, "RL")) "n")
      → IsCount (attributes (contents (allow_request format_int db t r).0 (pk, "RL")) "n")
        × (count_at (contents t) (pk, "RL")
            ≤ count_at (contents (allow_request format_int db t r).0) (pk, "RL"))
  allow_request-grows t r pk h = elim (str-cases (request_key format_int r).0 pk) [
    | inr (ne, _) ↦
        let kept =
          allow_request-frame format_int db t r (pk, "RL")
            (λ e. ne (sym (ap (λ (k : Key). k.0) e))) in
        (rw kept h, rw kept (omega arith))
    | inl (e, _) ↦
        let p : IsCount (attributes (contents t (pk, "RL")) "n")
            → Progress (contents t) (contents (allow_request format_int db t r).0) (pk, "RL")
                (allow_request format_int db t r).1.allowed =
          subst
            (λ (s : String).
              IsCount (attributes (contents t (s, "RL")) "n")
              → Progress (contents t) (contents (allow_request format_int db t r).0) (s, "RL")
                  (allow_request format_int db t r).1.allowed)
            e (allow_request-Progress t r) in
        ((p h).is_count, (p h).grows)
  ]
