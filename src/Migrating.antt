-- ===== src/Migrating.antt =====
-- The limiter in front of the old directory: internal/store/migrating/limiter.go. Tokens are counted
-- in units: one token is `scale` of them, and a rate is units for each nanosecond, so that a rate of
-- tokens for each second or minute is a whole number. Go's floating-point numbers are these, rounded.
pub mod Buckets
pub mod Global
pub mod Evict
pub mod Subjects
pub mod Table
pub mod Marker
pub mod Directory
pub mod Verifier
pub mod Gate
pub mod Provision
use awesome_lambda_auth.Common.{
  none, ◌*◌, length, some, true, ◌+◌, ◌-◌, false, insert, leb, lookup, ltb, str_eq, ◌&&◌, ◌==◌, ◌≤◌,
  Bool, String, if◌then◌else◌, ℕ, List, [], ◌∷◌,
}

-- 0 is the zero time of a bucket that nothing was taken from.
pub record Bucket : Type 0 where
  pub tokens : ℕ
  pub last : ℕ
  pub burst : ℕ
  pub refill : ℕ

pub record DirectoryLimiter : Type 0 where
  pub burst : ℕ
  pub refill : ℕ
  pub global : Bucket
  pub subjects : List (String × Bucket)
  pub max_subjects : ℕ

abbrev capped : ℕ → ℕ → ℕ
capped most n = if ltb most n then most else n

-- The tokens that a bucket holds at an instant.
unfoldable pub refilled : ℕ → Bucket → ℕ
refilled now b =
    if b.last == 0
    then b.tokens
    else if ltb b.last now
    then capped b.burst (b.tokens + (now - b.last) * b.refill)
    else b.tokens

-- A token in units: one for each minute is one unit for each nanosecond.
abbrev pub token_scale : ℕ
token_scale = 60_000_000_000

abbrev or_default : ℕ → ℕ → ℕ
or_default n default_ = if n == 0 then default_ else n

-- `newLimiter`, for whole numbers of tokens; 0 stands for what is not positive.
unfoldable pub new_limiter : ℕ → ℕ → ℕ → ℕ → ℕ → DirectoryLimiter
new_limiter per_subject_burst per_subject_per_minute global_burst global_per_second max_subjects =
    record {
      burst = or_default per_subject_burst 5 * token_scale;
      refill = or_default per_subject_per_minute 1;
      global = record {
        tokens = or_default global_burst 50 * token_scale;
        last = 0;
        burst = or_default global_burst 50 * token_scale;
        refill = or_default global_per_second 5 * 60;
      };
      subjects = [];
      max_subjects = or_default max_subjects 10_000;
    }

unfoldable pub take_token : ℕ → ℕ → Bucket → Bucket × Bool
take_token scale now b =
    let held = refilled now b in
    if ltb held scale
    then (record b { tokens = held; last = now }, false)
    else (record b { tokens = held - scale; last = now }, true)

unfoldable pub is_full : Bucket → Bool
is_full b = leb b.burst b.tokens

-- A bucket that is brought up to date; the clock of one that nothing was taken from stays.
unfoldable pub topped : ℕ → Bucket → Bucket
topped now b =
    if b.last == 0
    then b
    else if ltb b.last now
    then record b { tokens = refilled now b; last = now }
    else b

-- `evictLocked`: drops the buckets that are full.
unfoldable pub evict_locked : ℕ → List (String × Bucket) → List (String × Bucket) × Bool
unfolding topped is_full
evict_locked now [] = ([], false)
evict_locked now ((subject, b) ∷ rest) =
    let (kept, freed) = evict_locked now rest in
    if is_full (topped now b) then (kept, true) else ((subject, topped now b) ∷ kept, freed)

-- The end of `allow`: a token of the subject's bucket.
unfoldable pub charge : ℕ → ℕ → String → Bucket → DirectoryLimiter → DirectoryLimiter × Bool
unfolding take_token
charge scale now subject b l =
    let (b', granted) = take_token scale now b in
    (record l { subjects = insert subject b' l.subjects }, granted)

abbrev pub fresh_bucket : DirectoryLimiter → Bucket
fresh_bucket l = record { tokens = l.burst; last = 0; burst = l.burst; refill = l.refill }

unfoldable pub charge_new : ℕ → ℕ → String → DirectoryLimiter → DirectoryLimiter × Bool
unfolding charge evict_locked
charge_new scale now subject l =
    let (kept, freed) = evict_locked now l.subjects in
    if leb l.max_subjects (length l.subjects)
    then (if freed
        then charge scale now subject (fresh_bucket l) (record l { subjects = kept })
        else (record l { subjects = kept }, false))
    else charge scale now subject (fresh_bucket l) l

unfoldable pub charge_subject : ℕ → ℕ → String → DirectoryLimiter → DirectoryLimiter × Bool
unfolding charge_new
charge_subject scale now subject l = elim (lookup subject l.subjects) [
  | some b ↦ charge scale now subject b l
  | none ↦ charge_new scale now subject l
]

-- The global bucket is charged first, and is not refunded.
unfoldable pub allow : ℕ → ℕ → String → DirectoryLimiter → DirectoryLimiter × Bool
unfolding charge_subject
allow scale now subject l =
    let (g, granted) = take_token scale now l.global in
    let l' = record l { global = g } in
    if str_eq subject ""
    then (l, false)
    else if granted
    then charge_subject scale now subject l'
    else (l', false)

-- Calls at their instants, one after the other: how many of those for which the test holds were
-- allowed.
unfoldable pub allowed_calls : ℕ → (String → Bool) → DirectoryLimiter → List (ℕ × String) → ℕ
unfolding allow
allowed_calls scale counts l [] = 0
allowed_calls scale counts l ((now, subject) ∷ calls) =
    let (l', granted) = allow scale now subject l in
    let rest = allowed_calls scale counts l' calls in
    if granted && counts subject then rest + 1 else rest

-- The calls' instants never fall, from a first one to a last one.
abbrev pub InOrder : ℕ → ℕ → List (ℕ × String) → Type 0
InOrder start end [] = start ≤ end
InOrder start end ((now, subject) ∷ calls) = (start ≤ now) × InOrder now end calls
