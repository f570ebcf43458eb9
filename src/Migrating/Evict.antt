-- ===== src/Migrating/Evict.antt =====
-- What the limiter's table remembers of a subject, and that an eviction forgets nothing
-- (`evictLocked`, internal/store/migrating/limiter.go).
use mathlib.Core.Path.{subst}
use awesome_lambda_auth.Migrating.{
  fresh_bucket, DirectoryLimiter, refilled, Bucket, evict_locked, is_full, topped,
}
use awesome_lambda_auth.Common.{
  refl, inr, Option-cases, inl, none, str_eq, true, All, Bool-cases, arith, some, ◌≡◌, ◌≤◌, Option,
  String, insert, lookup, ℕ, List, [], ◌∷◌,
}
use awesome_lambda_auth.Migrating.Buckets.{refilled-burst, IsBucket}

-- A bucket of the table: it has the limiter's burst and rate.
pub record IsTracked (now burst refill : ℕ) (b : Bucket) : Type 0 where
  pub fits : IsBucket now b
  pub same_burst : b.burst ≡ burst
  pub same_refill : b.refill ≡ refill

abbrev pub AllTracked : ℕ → ℕ → ℕ → List (String × Bucket) → Type 0
AllTracked now burst refill m = All (λ (e : String × Bucket). IsTracked now burst refill e.1) m

-- The tokens that a subject has; one that is not tracked has them all.
abbrev pub held_of : ℕ → ℕ → Option Bucket → ℕ
held_of now burst none = burst
held_of now burst (some b) = refilled now b

pub lookup-IsTracked :
    (now burst refill : ℕ) (subject : String) (b : Bucket) (m : List (String × Bucket))
    → AllTracked now burst refill m
    → lookup subject m ≡ some b
    → IsTracked now burst refill b
unfolding lookup
lookup-IsTracked now burst refill subject b [] all found = absurd (cc found)
lookup-IsTracked now burst refill subject b ((other, c) ∷ rest) (t, all) found =
    elim (Bool-cases (str_eq other subject)) [
      | inl same ↦ subst (IsTracked now burst refill) (some-bucket (rw same at found)) t
      | inr ne ↦ lookup-IsTracked now burst refill subject b rest all (rw ne at found)
    ]
  where
    some-bucket : {x y : Bucket} → some x ≡ some y → x ≡ y
    some-bucket e = cc

pub insert-AllTracked :
    (now burst refill : ℕ) (subject : String) (b : Bucket) (m : List (String × Bucket))
    → IsTracked now burst refill b
    → AllTracked now burst refill m
    → AllTracked now burst refill (insert subject b m)
unfolding insert
insert-AllTracked now burst refill subject b [] t all = (t, tt)
insert-AllTracked now burst refill subject b ((other, c) ∷ rest) t (u, all) =
    elim (Bool-cases (str_eq other subject)) [
      | inl same ↦ rw same (t, all)
      | inr ne ↦ rw ne (u, insert-AllTracked now burst refill subject b rest t all)
    ]

pub later-AllTracked :
    (start now burst refill : ℕ) (m : List (String × Bucket))
    → start ≤ now
    → AllTracked start burst refill m
    → AllTracked now burst refill m
later-AllTracked start now burst refill [] k all = tt
later-AllTracked start now burst refill ((subject, b) ∷ rest) k (t, all) = (
  record {
    fits = record { held = t.fits.held; used = omega (arith, t.fits.used, k) };
    same_burst = t.same_burst;
    same_refill = t.same_refill;
  },
  later-AllTracked start now burst refill rest k all,
)

pub held_of-burst :
    (now burst refill : ℕ) (subject : String) (m : List (String × Bucket))
    → AllTracked now burst refill m
    → held_of now burst (lookup subject m) ≤ burst
held_of-burst now burst refill subject m all = elim (Option-cases (lookup subject m)) [
  | inl missing ↦ rw missing (omega arith)
  | inr (b, found) ↦
      let t = lookup-IsTracked now burst refill subject b m all found in
      rw found (omega (arith, refilled-burst now now b t.fits, t.same_burst))
]

topped-refilled : (now : ℕ) (b : Bucket) → refilled now (topped now b) ≡ refilled now b
unfolding topped refilled
topped-refilled now b = ground arith

topped-IsTracked :
    (now burst refill : ℕ) (b : Bucket)
    → IsTracked now burst refill b
    → IsTracked now burst refill (topped now b)
unfolding topped
topped-IsTracked now burst refill b t = record {
  fits = record {
    held = ground (arith, t.fits.held, refilled-burst now now b t.fits);
    used = ground (arith, t.fits.used);
  };
  same_burst = ground (arith, t.same_burst);
  same_refill = ground (arith, t.same_refill);
}

-- A bucket that is dropped held its whole burst.
full-refilled :
    (now burst refill : ℕ) (b : Bucket)
    → IsTracked now burst refill b
    → is_full (topped now b) ≡ true
    → burst ≤ refilled now b
unfolding is_full topped refilled
full-refilled now burst refill b t h = ground (arith, t.same_burst)

pub evict-AllTracked :
    (now burst refill : ℕ) (m : List (String × Bucket))
    → AllTracked now burst refill m
    → AllTracked now burst refill (evict_locked now m).0
unfolding evict_locked
evict-AllTracked now burst refill [] all = tt
evict-AllTracked now burst refill ((subject, b) ∷ rest) (t, all) =
    elim (Bool-cases (is_full (topped now b))) [
      | inl full ↦ rw full (evict-AllTracked now burst refill rest all)
      | inr owing ↦
          rw owing
            (topped-IsTracked now burst refill b t, evict-AllTracked now burst refill rest all)
    ]

-- An eviction gives no subject more tokens than it had.
pub evict-held :
    (now burst refill : ℕ) (subject : String) (m : List (String × Bucket))
    → AllTracked now burst refill m
    → held_of now burst (lookup subject (evict_locked now m).0)
      ≤ held_of now burst (lookup subject m)
unfolding evict_locked lookup
evict-held now burst refill subject [] all = omega arith
evict-held now burst refill subject ((other, b) ∷ rest) (t, all) =
    let kept = evict-AllTracked now burst refill rest all in
    elim (Bool-cases (is_full (topped now b))) [
      | inl full ↦ elim (Bool-cases (str_eq other subject)) [
        | inr ne ↦ rw (full, ne) (evict-held now burst refill subject rest all)
        | inl same ↦
            rw (full, same)
              (omega (
                arith,
                full-refilled now burst refill b t full,
                held_of-burst now burst refill subject (evict_locked now rest).0 kept,
              ))
      ]
      | inr owing ↦ elim (Bool-cases (str_eq other subject)) [
        | inr ne ↦ rw (owing, ne) (evict-held now burst refill subject rest all)
        | inl same ↦ rw (owing, same, topped-refilled now b) (omega arith)
      ]
    ]

-- A subject that is not tracked stays so.
pub evict-missing :
    (now : ℕ) (subject : String) (m : List (String × Bucket))
    → lookup subject m ≡ none
    → lookup subject (evict_locked now m).0 ≡ none
unfolding evict_locked lookup
evict-missing now subject [] missing = refl
evict-missing now subject ((other, b) ∷ rest) missing = elim (Bool-cases (str_eq other subject)) [
  | inl same ↦ absurd (cc (rw same at missing))
  | inr ne ↦ elim (Bool-cases (is_full (topped now b))) [
    | inl full ↦ rw full (evict-missing now subject rest (rw ne at missing))
    | inr owing ↦ rw (owing, ne) (evict-missing now subject rest (rw ne at missing))
  ]
]

pub fresh-IsTracked :
    (now : ℕ) (l : DirectoryLimiter) → IsTracked now l.burst l.refill (fresh_bucket l)
fresh-IsTracked now l = record {
  fits = record { held = omega arith; used = omega arith };
  same_burst = refl;
  same_refill = refl;
}

pub fresh-refilled : (now : ℕ) (l : DirectoryLimiter) → refilled now (fresh_bucket l) ≤ l.burst
unfolding refilled
fresh-refilled now l = omega arith
