-- ===== src/Migrating/Global.antt =====
-- The bound on all calls to the old directory (`limiter.allow`,
-- internal/store/migrating/limiter.go).
use awesome_lambda_auth.Migrating.Buckets.{
  take_token-refill, span-sum, refilled-later, take_token-paid, take_token-IsBucket, IsBucket,
}
use awesome_lambda_auth.Common.{
  ◌-◌, ◌*◌, true, Bool, str_eq, Bool-cases, inr, inl, ◌+◌, lookup, Option-cases, arith, refl, ◌≤◌,
  ◌≡◌, String, ℕ, List, [], ◌∷◌, if◌then◌else◌,
}
use awesome_lambda_auth.Migrating.{
  InOrder, allowed_calls, take_token, refilled, Bucket, DirectoryLimiter, allow, charge, charge_new,
  charge_subject,
}

charge-global :
    (scale now : ℕ) (subject : String) (b : Bucket) (l : DirectoryLimiter)
    → (charge scale now subject b l).0.global ≡ l.global
unfolding charge
charge-global scale now subject b l = refl

charge_new-global :
    (scale now : ℕ) (subject : String) (l : DirectoryLimiter)
    → (charge_new scale now subject l).0.global ≡ l.global
unfolding charge_new charge
charge_new-global scale now subject l = ground arith

charge_subject-global :
    (scale now : ℕ) (subject : String) (l : DirectoryLimiter)
    → (charge_subject scale now subject l).0.global ≡ l.global
unfolding charge_subject charge
charge_subject-global scale now subject l = elim (Option-cases (lookup subject l.subjects)) [
  | inl missing ↦ rw (missing, charge_subject) (charge_new-global scale now subject l)
  | inr (b, found) ↦ rw (found, charge_subject) refl
]

if-le : (b : Bool) (n : ℕ) → (if b then n else 0) ≤ n
if-le b n = ground arith

-- Each call pays for what it grants out of the global bucket.
allow-paid :
    (scale start now : ℕ) (subject : String) (l : DirectoryLimiter)
    → IsBucket start l.global
    → start ≤ now
    → IsBucket now (allow scale now subject l).0.global
      × ((allow scale now subject l).0.global.refill ≡ l.global.refill)
      × (refilled now (allow scale now subject l).0.global
            + (if (allow scale now subject l).1 then scale else 0)
          ≤ refilled now l.global)
unfolding allow
allow-paid scale start now subject l h k =
    let g = (take_token scale now l.global).0 in
    let after = charge_subject scale now subject (record l { global = g }) in
    let paid = take_token-paid scale now l.global in
    let kept = take_token-IsBucket scale now l.global h.held in
    let rate = take_token-refill scale now l.global in
    elim (Bool-cases (str_eq subject "")) [
      | inl blank ↦
          rw blank (record { held = h.held; used = omega (arith, h.used, k) }, refl, omega arith)
      | inr named ↦ elim (Bool-cases (take_token scale now l.global).1) [
        | inr empty ↦ rw (named, empty) (kept, rate, omega (arith, rw empty at paid))
        | inl granted ↦
            rw (named, granted, charge_subject-global scale now subject (record l { global = g }))
              (kept, rate, omega (arith, rw granted at paid, if-le after.1 scale))
      ]
    ]

pub InOrder-le : (start end : ℕ) (calls : List (ℕ × String)) → InOrder start end calls → start ≤ end
InOrder-le start end [] order = order
InOrder-le start end ((now, subject) ∷ calls) (k, order) =
    omega (arith, k, InOrder-le now end calls order)

-- Whatever subjects are named, the calls that are allowed from one instant to a later one cost no
-- more than what the global bucket holds at first and gains in between at its rate: a flood of
-- subjects cannot raise the load on the old directory.
pub allowed_calls-global :
    (scale start end : ℕ) (l : DirectoryLimiter) (calls : List (ℕ × String))
    → IsBucket start l.global
    → InOrder start end calls
    → allowed_calls scale (λ s. true) l calls * scale
      ≤ refilled start l.global + (end - start) * l.global.refill
unfolding allowed_calls
allowed_calls-global scale start end l [] h order = omega arith
allowed_calls-global scale start end l ((now, subject) ∷ calls) h (k, order) =
    let (kept, rate, paid) = allow-paid scale start now subject l h k in
    let next = (allow scale now subject l).0 in
    let rest = rw rate at (allowed_calls-global scale now end next calls kept order) in
    let before = refilled-later start now l.global h k in
    let time = span-sum l.global.refill start now end k (InOrder-le now end calls order) in
    elim (Bool-cases (allow scale now subject l).1) [
      | inl granted ↦ rw granted (grind (arith, rest, before, time, rw granted at paid))
      | inr refused ↦ rw refused (omega (arith, rest, before, time, rw refused at paid))
    ]
