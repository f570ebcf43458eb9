-- ===== src/Migrating/Table.antt =====
-- The size of the limiter's table (internal/store/migrating/limiter.go).
use awesome_lambda_auth.Common.{
  length-insert-le, length-insert-some, arith, inl, inr, str_eq, leb, lookup, ◌+◌, Bool-cases,
  Option-cases, ◌≤◌, String, length, ℕ, List, [], ◌∷◌, if◌then◌else◌,
}
use awesome_lambda_auth.Migrating.{
  fresh_bucket, take_token, Bucket, DirectoryLimiter, allow, charge, charge_new, charge_subject,
  evict_locked,
}

-- An eviction that frees something shortens the table; one that does not leaves its length.
evict-length :
    (now : ℕ) (m : List (String × Bucket))
    → length (evict_locked now m).0 + (if (evict_locked now m).1 then 1 else 0) ≤ length m
unfolding evict_locked
evict-length now [] = omega arith
evict-length now ((subject, b) ∷ rest) = ground (arith, evict-length now rest)

abbrev Fits : DirectoryLimiter → Type 0
Fits l = length l.subjects ≤ l.max_subjects

charge-Fits :
    (scale now : ℕ) (subject : String) (b : Bucket) (l : DirectoryLimiter)
    → length l.subjects + 1 ≤ l.max_subjects
    → Fits (charge scale now subject b l).0
unfolding charge
charge-Fits scale now subject b l h =
    omega (arith, h, length-insert-le subject (take_token scale now b).0 l.subjects)

charge_new-Fits :
    (scale now : ℕ) (subject : String) (l : DirectoryLimiter)
    → Fits l
    → Fits (charge_new scale now subject l).0
unfolding charge_new
charge_new-Fits scale now subject l h =
    let kept = (evict_locked now l.subjects).0 in
    let shorter = evict-length now l.subjects in
    elim (Bool-cases (leb l.max_subjects (length l.subjects))) [
      | inr room ↦ rw room (charge-Fits scale now subject (fresh_bucket l) l (ground (arith, room)))
      | inl crowded ↦ elim (Bool-cases (evict_locked now l.subjects).1) [
        | inr stuck ↦ rw (crowded, stuck) (omega (arith, h, shorter))
        | inl freed ↦
            rw (crowded, freed)
              (charge-Fits scale now subject (fresh_bucket l) (record l { subjects = kept })
                (omega (arith, h, rw freed at shorter)))
      ]
    ]

charge_subject-Fits :
    (scale now : ℕ) (subject : String) (l : DirectoryLimiter)
    → Fits l
    → Fits (charge_subject scale now subject l).0
unfolding charge_subject charge
charge_subject-Fits scale now subject l h = elim (Option-cases (lookup subject l.subjects)) [
  | inl missing ↦ rw (missing, charge_subject) (charge_new-Fits scale now subject l h)
  | inr (b, found) ↦
      rw (found, charge_subject)
        (omega (arith, h, length-insert-some subject (take_token scale now b).0 b l.subjects found))
]

-- A table that holds no more subjects than its cap never does, whatever subjects the calls name.
pub allow-bounded :
    (scale now : ℕ) (subject : String) (l : DirectoryLimiter)
    → length l.subjects ≤ l.max_subjects
    → length (allow scale now subject l).0.subjects ≤ (allow scale now subject l).0.max_subjects
unfolding allow
allow-bounded scale now subject l h =
    let g = (take_token scale now l.global).0 in
    elim (Bool-cases (str_eq subject "")) [
      | inl blank ↦ rw blank h
      | inr named ↦ elim (Bool-cases (take_token scale now l.global).1) [
        | inr empty ↦ rw (named, empty) h
        | inl granted ↦
            rw (named, granted) (charge_subject-Fits scale now subject (record l { global = g }) h)
      ]
    ]
