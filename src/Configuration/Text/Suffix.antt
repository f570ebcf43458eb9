-- ===== src/Configuration/Text/Suffix.antt =====
-- What the test of a suffix says.
use Prim.Native.Char.{Char}
use Prim.Native.String.{◌++◌}
use text.Mathlib.TextLemmas.{nil-append, cons-append}
use awesome_lambda_auth.Common.{
  String, true, false, ◌≡◌, refl, inl, inr, str_eq, eq_iff, arith, Bool-cases, ◌∙◌, sym, ap, ◌≢◌,
  ◌↔◌,
}
use awesome_lambda_auth.Configuration.Text.{has_suffix}

has_suffix_self : (s : String) → has_suffix s s ≡ true
unfolding has_suffix
has_suffix_self String.[] = refl
has_suffix_self (String.◌∷◌ letter rest) =
    let s = String.◌∷◌ letter rest in rw ((eq_iff s s).1 refl) refl

has_suffix-cons :
    (letter : Char) (rest suffix : String)
    → has_suffix rest suffix ≡ true
    → has_suffix (String.◌∷◌ letter rest) suffix ≡ true
unfolding has_suffix
has_suffix-cons letter rest suffix h = ground arith

pub has_suffix-append : (front suffix : String) → has_suffix (front ++ suffix) suffix ≡ true
has_suffix-append String.[] suffix = rw (nil-append suffix) (has_suffix_self suffix)
has_suffix-append (String.◌∷◌ letter rest) suffix =
    rw (cons-append letter rest suffix)
      (has_suffix-cons letter (rest ++ suffix) suffix (has_suffix-append rest suffix))

pub append-of_has_suffix :
    (s suffix : String) → has_suffix s suffix ≡ true → (front : String) × (s ≡ front ++ suffix)
unfolding has_suffix
append-of_has_suffix String.[] suffix h = ("", rw ((eq_iff suffix "").0 h) refl)
append-of_has_suffix (String.◌∷◌ letter rest) suffix h =
    let s = String.◌∷◌ letter rest in
    elim (Bool-cases (str_eq s suffix)) [
      | inl whole ↦ ("", (eq_iff s suffix).0 whole ∙ sym (nil-append suffix))
      | inr less ↦
          let (front, e) = append-of_has_suffix rest suffix (ground arith) in
          (
            String.◌∷◌ letter front,
            ap (λ t. String.◌∷◌ letter t) e ∙ sym (cons-append letter front suffix),
          )
    ]

-- A text ends so where something stands before the ending.
pub has_suffix_iff :
    (s suffix : String) → (has_suffix s suffix ≡ false) ↔ ((front : String) → s ≢ front ++ suffix)
has_suffix_iff s suffix = (
  λ h front e. cc (h, has_suffix-append front suffix, ap (λ t. has_suffix t suffix) e),
  λ h. elim (Bool-cases (has_suffix s suffix)) [
    | inl ends ↦ let (front, e) = append-of_has_suffix s suffix ends in absurd (h front e)
    | inr not_so ↦ not_so
  ],
)
