-- ===== src/Migrating/Subjects.antt =====
-- The bound on the calls for one subject, through evictions (`limiter.allow`,
-- internal/store/migrating/limiter.go).
use mathlib.Core.Path.{subst}
use awesome_lambda_auth.Migrating.Global.{InOrder-le}
use awesome_lambda_auth.Migrating.Buckets.{
  refilled-later, span-sum, take_token-paid, take_token-refill, take_token-burst,
  take_token-IsBucket,
}
use awesome_lambda_auth.Migrating.Evict.{
  held_of-burst, later-AllTracked, lookup-IsTracked, evict-missing, fresh-refilled, fresh-IsTracked,
  evict-held, evict-AllTracked, insert-AllTracked, held_of, AllTracked, IsTracked,
}
use awesome_lambda_auth.Common.{
  Option-cases, ◌*◌, ◌-◌, length, leb, refl, Bool-cases, inr, inl, str-cases, lookup-insert, str_eq,
  ◌∙◌, none, ◌+◌, ◌≤◌, arith, lookup, false, true, ◌≡◌, ◌&&◌, Bool, String, ℕ, List, [], ◌∷◌,
  if◌then◌else◌,
}
use awesome_lambda_auth.Migrating.{
  InOrder, allow, allowed_calls, charge_subject, evict_locked, fresh_bucket, refilled, take_token,
  DirectoryLimiter, Bucket, charge, charge_new,
}

-- A step of the limiter at an instant, for one watched subject: what is granted to it is paid for
-- out of its tokens.
record Pays (scale now : ℕ) (watched subject : String) (l l' : DirectoryLimiter) (granted : Bool)
    : Type 0 where
  same_burst : l'.burst ≡ l.burst
  same_refill : l'.refill ≡ l.refill
  tracked : AllTracked now l.burst l.refill l'.subjects
  paid :
      held_of now l.burst (lookup watched l'.subjects)
        + (if granted && str_eq subject watched then scale else 0)
      ≤ held_of now l.burst (lookup watched l.subjects)

and_true : (scale : ℕ) (b : Bool) → (if b && true then scale else 0) ≡ (if b then scale else 0)
and_true scale b = ground arith

and_false : (scale : ℕ) (b : Bool) → (if b && false then scale else 0) ≡ 0
and_false scale b = ground arith

take-IsTracked :
    (scale now burst refill : ℕ) (b : Bucket)
    → IsTracked now burst refill b
    → IsTracked now burst refill (take_token scale now b).0
take-IsTracked scale now burst refill b t = record {
  fits = take_token-IsBucket scale now b t.fits.held;
  same_burst = take_token-burst scale now b ∙ t.same_burst;
  same_refill = take_token-refill scale now b ∙ t.same_refill;
}

charge-Pays :
    (scale now : ℕ) (watched subject : String) (b : Bucket) (l : DirectoryLimiter)
    → AllTracked now l.burst l.refill l.subjects
    → IsTracked now l.burst l.refill b
    → refilled now b ≤ held_of now l.burst (lookup subject l.subjects)
    → Pays scale now watched subject l
        (charge scale now subject b l).0
        (charge scale now subject b l).1
unfolding charge
charge-Pays scale now watched subject b l all t under =
    let b' = (take_token scale now b).0 in
    let entry = lookup-insert subject watched b' l.subjects in
    record {
      same_burst = refl;
      same_refill = refl;
      tracked =
          insert-AllTracked now l.burst l.refill subject b' l.subjects
            (take-IsTracked scale now l.burst l.refill b t) all;
      paid = elim (str-cases subject watched) [
        | inl (e, test) ↦
            rw (entry, test)
              (subst
                (λ s.
                  refilled now b' + (if (take_token scale now b).1 && true then scale else 0)
                  ≤ held_of now l.burst (lookup s l.subjects))
                e
                (omega (
                  arith,
                  under,
                  and_true scale (take_token scale now b).1,
                  take_token-paid scale now b,
                )))
        | inr (_, test) ↦
            rw (entry, test) (omega (arith, and_false scale (take_token scale now b).1))
      ];
    }

charge_new-Pays :
    (scale now : ℕ) (watched subject : String) (l : DirectoryLimiter)
    → AllTracked now l.burst l.refill l.subjects
    → lookup subject l.subjects ≡ none
    → Pays scale now watched subject l
        (charge_new scale now subject l).0
        (charge_new scale now subject l).1
unfolding charge_new
charge_new-Pays scale now watched subject l all missing =
    let b = fresh_bucket l in
    let kept = (evict_locked now l.subjects).0 in
    let m = record l { subjects = kept } in
    let all' = evict-AllTracked now l.burst l.refill l.subjects all in
    let less = evict-held now l.burst l.refill watched l.subjects all in
    let fresh = fresh-IsTracked now l in
    elim (Bool-cases (leb l.max_subjects (length l.subjects))) [
      | inr room ↦
          rw room (
            charge-Pays scale now watched subject b l all fresh (rw missing (fresh-refilled now l)))
      | inl crowded ↦ elim (Bool-cases (evict_locked now l.subjects).1) [
        | inr stuck ↦
            rw (crowded, stuck)
              (record {
                same_burst = refl;
                same_refill = refl;
                tracked = all';
                paid = omega (arith, less);
              })
        | inl freed ↦
            let p =
              charge-Pays scale now watched subject b m all' fresh
                (rw (evict-missing now subject l.subjects missing) (fresh-refilled now l)) in
            rw (crowded, freed)
              (record {
                same_burst = p.same_burst;
                same_refill = p.same_refill;
                tracked = p.tracked;
                paid = omega (arith, p.paid, less);
              })
      ]
    ]

charge_subject-Pays :
    (scale now : ℕ) (watched subject : String) (l : DirectoryLimiter)
    → AllTracked now l.burst l.refill l.subjects
    → Pays scale now watched subject l
        (charge_subject scale now subject l).0
        (charge_subject scale now subject l).1
unfolding charge_subject
charge_subject-Pays scale now watched subject l all =
    elim (Option-cases (lookup subject l.subjects)) [
      | inl missing ↦
          rw (missing, charge_subject) (charge_new-Pays scale now watched subject l all missing)
      | inr (b, found) ↦
          rw (found, charge_subject)
            (charge-Pays scale now watched subject b l all
              (lookup-IsTracked now l.burst l.refill subject b l.subjects all found)
              (rw found (omega arith)))
    ]

idle-Pays :
    (scale now : ℕ) (watched subject : String) (l : DirectoryLimiter) (g : Bucket)
    → AllTracked now l.burst l.refill l.subjects
    → Pays scale now watched subject l (record l { global = g }) false
idle-Pays scale now watched subject l g all = record {
  same_burst = refl;
  same_refill = refl;
  tracked = all;
  paid = omega arith;
}

allow-Pays :
    (scale now : ℕ) (watched subject : String) (l : DirectoryLimiter)
    → AllTracked now l.burst l.refill l.subjects
    → Pays scale now watched subject l (allow scale now subject l).0 (allow scale now subject l).1
unfolding allow
allow-Pays scale now watched subject l all =
    let g = (take_token scale now l.global).0 in
    elim (Bool-cases (str_eq subject "")) [
      | inl blank ↦ rw blank (idle-Pays scale now watched subject l l.global all)
      | inr named ↦ elim (Bool-cases (take_token scale now l.global).1) [
        | inr empty ↦ rw (named, empty) (idle-Pays scale now watched subject l g all)
        | inl granted ↦
            let p = charge_subject-Pays scale now watched subject (record l { global = g }) all in
            rw (named, granted)
              (record {
                same_burst = p.same_burst;
                same_refill = p.same_refill;
                tracked = p.tracked;
                paid = p.paid;
              })
      ]
    ]

held_of-later :
    (start now burst refill : ℕ) (subject : String) (m : List (String × Bucket))
    → start ≤ now
    → AllTracked start burst refill m
    → held_of now burst (lookup subject m)
      ≤ held_of start burst (lookup subject m) + (now - start) * refill
held_of-later start now burst refill subject m k all = elim (Option-cases (lookup subject m)) [
  | inl missing ↦ rw missing (omega arith)
  | inr (b, found) ↦
      let t = lookup-IsTracked start burst refill subject b m all found in
      rw found (
        subst (λ r. refilled now b ≤ refilled start b + (now - start) * r) t.same_refill
          (refilled-later start now b t.fits k))
]

allowed_calls-held :
    (scale start end burst refill : ℕ) (watched : String) (l : DirectoryLimiter)
    (calls : List (ℕ × String))
    → l.burst ≡ burst
    → l.refill ≡ refill
    → AllTracked start burst refill l.subjects
    → InOrder start end calls
    → allowed_calls scale (λ s. str_eq s watched) l calls * scale
      ≤ held_of start burst (lookup watched l.subjects) + (end - start) * refill
unfolding allowed_calls
allowed_calls-held scale start end burst refill watched l [] b r all order = omega arith
allowed_calls-held scale start end burst refill watched l ((now, subject) ∷ calls) b r all
      (k, order) =
    let all' = later-AllTracked start now burst refill l.subjects k all in
    let p = allow-Pays scale now watched subject l (rw (b, r) all') in
    let next = (allow scale now subject l).0 in
    let granted_here = (allow scale now subject l).1 && str_eq subject watched in
    let tracked =
      subst (λ u. AllTracked now u refill next.subjects) b
        (subst (λ u. AllTracked now l.burst u next.subjects) r p.tracked) in
    let paid =
      subst
        (λ u.
          held_of now u (lookup watched next.subjects) + (if granted_here then scale else 0)
          ≤ held_of now u (lookup watched l.subjects))
        b p.paid in
    let rest =
      allowed_calls-held scale now end burst refill watched next calls (p.same_burst ∙ b)
        (p.same_refill ∙ r) tracked order in
    let before = held_of-later start now burst refill watched l.subjects k all in
    let time = span-sum refill start now end k (InOrder-le now end calls order) in
    elim (Bool-cases granted_here) [
      | inl granted ↦ rw granted (grind (arith, rest, before, time, rw granted at paid))
      | inr other ↦ rw other (omega (arith, rest, before, time, rw other at paid))
    ]

-- Whatever other subjects are named, and however often the table is full and evicts, the calls that
-- are allowed for one subject from one instant to a later one cost no more than the burst and what
-- its bucket gains in between at its rate: flooding the table gives no subject a fresh budget.
pub allowed_calls-subject :
    (scale start end : ℕ) (watched : String) (l : DirectoryLimiter) (calls : List (ℕ × String))
    → AllTracked start l.burst l.refill l.subjects
    → InOrder start end calls
    → allowed_calls scale (λ s. str_eq s watched) l calls * scale
      ≤ l.burst + (end - start) * l.refill
allowed_calls-subject scale start end watched l calls all order = omega (
  arith,
  allowed_calls-held scale start end l.burst l.refill watched l calls refl refl all order,
  held_of-burst start l.burst l.refill watched l.subjects all,
)
