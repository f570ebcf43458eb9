-- ===== src/RateLimit/Refusal.antt =====
-- What a refusal of the shared counter means (`AllowRequest`,
-- internal/store/dynamodb/rate_limit.go).
use awesome_lambda_auth.Common.{String, ℕ, ◌≤◌, ◌≡◌, false, none, arith, inl, inr, Option-cases}
use awesome_lambda_auth.Database.Expression.{get_n}
use awesome_lambda_auth.Database.{
  Contents, Item, Key, attributes, Dynamo, Outcome, written, refused, failed, WriteLaw, Unchanged,
}
use awesome_lambda_auth.RateLimit.{
  Request, allow_request, answer, count_write, within_budget, request_key, check_request,
  rate_limit_window,
}
use awesome_lambda_auth.RateLimit.Budget.{IsCount, count_at}

spent :
    (limit : ℕ) (i : Item) → IsCount (i "n") → within_budget limit i ≡ false → limit ≤ get_n i "n"
unfolding within_budget
spent limit i h no_room = ground arith

refusal-spent :
    (limit ends remaining : ℕ) (k : Key) (before after : Contents) (out : Outcome)
    → IsCount (attributes (before k) "n")
    → WriteLaw before after (count_write k limit ends) out
    → (answer remaining out).allowed ≡ false
    → (answer remaining out).error ≡ none
    → (limit ≤ count_at before k) × Unchanged before after
unfolding count_write answer
refusal-spent limit ends remaining k before after (written pre) h law no_ err_ = absurd (cc no_)
refusal-spent limit ends remaining k before after failed h law no_ err_ = absurd (cc err_)
refusal-spent limit ends remaining k before after (refused pre) h (lost, _, same) no_ err_ =
    (spent limit (attributes (before k)) h lost, same)

-- A request that is refused without an error found the whole budget of its window spent, and the
-- refusal changed nothing: a flood of refused requests cannot move the counter.
pub allow_request_refusal :
    (format_int : ℕ → String) (db : Dynamo) (t : db.Table) (r : Request)
    → IsCount (attributes (db.contents t (request_key format_int r)) "n")
    → (allow_request format_int db t r).1.allowed ≡ false
    → (allow_request format_int db t r).1.error ≡ none
    → (r.limit ≤ count_at (db.contents t) (request_key format_int r))
      × Unchanged (db.contents t) (db.contents (allow_request format_int db t r).0)
unfolding allow_request
allow_request_refusal format_int db t r h no_ err_ = elim (Option-cases (check_request r)) [
  | inr (e, bad) ↦ absurd (cc (rw (bad, allow_request) at err_))
  | inl good ↦
      let k = request_key format_int r in
      let (index, ends) = rate_limit_window r.now r.window in
      let w = count_write k r.limit ends in
      rw (good, allow_request)
        (refusal-spent r.limit ends _ k (db.contents t) (db.contents (db.write_item t w).0)
          (db.write_item t w).1 h (db.write_law t w) (rw (good, allow_request) at no_)
          (rw (good, allow_request) at err_))
]
