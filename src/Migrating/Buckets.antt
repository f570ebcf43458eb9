-- ===== src/Migrating/Buckets.antt =====
-- One token bucket (`bucket.take`, internal/store/migrating/limiter.go).
use awesome_lambda_auth.Common.{
  inr, inl, ltb, Bool-cases, if◌then◌else◌, ◌≡◌, ◌*◌, arith, ◌+◌, ◌-◌, ◌≤◌, ℕ,
}
use awesome_lambda_auth.Migrating.{Bucket, refilled, take_token}

-- A bucket that holds no more than its burst, and was last used by this instant.
pub record IsBucket (now : ℕ) (b : Bucket) : Type 0 where
  pub held : b.tokens ≤ b.burst
  pub used : b.last ≤ now

pub span-sum : (rate a b c : ℕ) → a ≤ b → b ≤ c → (b - a) * rate + (c - b) * rate ≡ (c - a) * rate
span-sum rate a b c h k = grind arith

-- Over a span of time a bucket gains at most its rate.
pub refilled-later :
    (start now : ℕ) (b : Bucket)
    → IsBucket start b
    → start ≤ now
    → refilled now b ≤ refilled start b + (now - start) * b.refill
unfolding refilled
refilled-later start now b h k =
    ground (arith, h.held, h.used, span-sum b.refill b.last start now h.used k)

pub refilled-burst : (start now : ℕ) (b : Bucket) → IsBucket start b → refilled now b ≤ b.burst
unfolding refilled
refilled-burst start now b h = ground (arith, h.held)

-- A bucket that was just used holds its tokens.
pub refilled-used :
    (now n : ℕ) (b : Bucket) → refilled now (record b { tokens = n; last = now }) ≡ n
unfolding refilled
refilled-used now n b = ground arith

-- What a take leaves at its instant, and what it grants, were held before.
pub take_token-paid :
    (scale now : ℕ) (b : Bucket)
    → refilled now (take_token scale now b).0 + (if (take_token scale now b).1 then scale else 0)
      ≡ refilled now b
unfolding take_token
take_token-paid scale now b = elim (Bool-cases (ltb (refilled now b) scale)) [
  | inl short ↦ rw (short, refilled-used now (refilled now b) b) (omega arith)
  | inr enough ↦
      let paid : scale ≤ refilled now b = ground (arith, enough) in
      rw (enough, refilled-used now (refilled now b - scale) b) (omega arith)
]

pub take_token-IsBucket :
    (scale now : ℕ) (b : Bucket) → b.tokens ≤ b.burst → IsBucket now (take_token scale now b).0
unfolding take_token refilled
take_token-IsBucket scale now b h = record { held = ground (arith, h); used = ground arith }

pub take_token-burst : (scale now : ℕ) (b : Bucket) → (take_token scale now b).0.burst ≡ b.burst
unfolding take_token
take_token-burst scale now b = ground arith

pub take_token-refill : (scale now : ℕ) (b : Bucket) → (take_token scale now b).0.refill ≡ b.refill
unfolding take_token
take_token-refill scale now b = ground arith
