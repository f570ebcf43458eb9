-- ===== src/Tests/Directory.antt =====
-- Runs of the limiter in front of the old directory.
use awesome_lambda_auth.Common.{
  false, insert, lookup, ◌-◌, ◌+◌, str_eq, true, ◌≤◌, arith, ◌*◌, String, length, ℕ, List, [], ◌∷◌,
  refl, ◌≡◌,
}
use awesome_lambda_auth.Migrating.{
  take_token, is_full, topped, evict_locked, charge, refilled, charge_new, charge_subject,
  token_scale, DirectoryLimiter, InOrder, allow, allowed_calls,
}
use awesome_lambda_auth.Migrating.Global.{allowed_calls-global}
use awesome_lambda_auth.Migrating.Subjects.{allowed_calls-subject}
use awesome_lambda_auth.Migrating.Table.{allow-bounded}
use awesome_lambda_auth.Migrating.Buckets.{IsBucket}

-- Two attempts on an address, and one a minute after them; two at once over all.
abbrev limiter : DirectoryLimiter
limiter = record {
  burst = 2 * token_scale;
  refill = 1;
  global = record { tokens = 2 * token_scale; last = 0; burst = 2 * token_scale; refill = 60 };
  subjects = [];
  max_subjects = 1;
}

abbrev calls : List (ℕ × String)
calls = (1_000_000_000, "a@x.org") ∷ (2_000_000_000, "b@x.org") ∷ (3_000_000_000, "a@x.org") ∷ []

in_order : InOrder 1_000_000_000 3_000_000_000 calls
in_order = (omega arith, (omega arith, (omega arith, omega arith)))

global_fits : IsBucket 1_000_000_000 limiter.global
global_fits = record { held = omega arith; used = omega arith }

allowed_calls-global_example :
    allowed_calls token_scale (λ s. true) limiter calls * token_scale
    ≤ refilled 1_000_000_000 limiter.global + (3_000_000_000 - 1_000_000_000) * 60
allowed_calls-global_example =
    allowed_calls-global token_scale 1_000_000_000 3_000_000_000 limiter calls global_fits in_order

allowed_calls-subject_example :
    allowed_calls token_scale (λ s. str_eq s "a@x.org") limiter calls * token_scale
    ≤ 2 * token_scale + (3_000_000_000 - 1_000_000_000) * 1
allowed_calls-subject_example =
    allowed_calls-subject token_scale 1_000_000_000 3_000_000_000 "a@x.org" limiter calls tt
      in_order

allow-bounded_example :
    length (allow token_scale 1_000_000_000 "a@x.org" limiter).0.subjects
    ≤ (allow token_scale 1_000_000_000 "a@x.org" limiter).0.max_subjects
allow-bounded_example = allow-bounded token_scale 1_000_000_000 "a@x.org" limiter (omega arith)

-- The first call for an address is allowed, and the next one, of another address, is not: the table
-- is full of a subject that still owes a token.
second_refused :
    (allow token_scale 2_000_000_000 "b@x.org"
      (allow token_scale 1_000_000_000 "a@x.org" limiter).0).1
    ≡ false
unfolding allow charge_subject charge_new charge evict_locked topped is_full take_token refilled
    lookup insert
second_refused = refl
