-- ===== src/Configuration/Duration/Grammar.antt =====
-- What `parse_ms` reads: one number and one unit.
use text.Mathlib.TextLemmas.{append-eq-nil_iff, append-nil, nil-append, cons-append}
use Prim.Native.Char.{Char, code}
use Prim.Native.String.{◌++◌}
use awesome_lambda_auth.Configuration.Blocks.{bad_number}
use awesome_lambda_auth.Configuration.Duration.{
  malformed, ms_units, span_of, parse_ms, split_sign, with_unit, parse_number, split_fraction,
  digits, after_digits,
}
use awesome_lambda_auth.Common.{
  lookup, if◌then◌else◌, arith, inr, inl, ◌⊎◌, str-ne, ap, ◌∙◌, ◌≢◌, String, true, false, ◌≡◌, refl,
  sym, Option, none, some, ◌==◌,
}
use awesome_lambda_auth.Configuration.Text.{Std, trim_space, is_digit}

abbrev pub AllDigits : String → Type 0
AllDigits String.[] = Unit
AllDigits (String.◌∷◌ letter rest) = (is_digit (code letter) ≡ true) × AllDigits rest

-- The text is empty, or it starts with a character that is no digit.
abbrev pub StopsDigits : String → Type 0
StopsDigits String.[] = Unit
StopsDigits (String.◌∷◌ letter rest) = is_digit (code letter) ≡ false

abbrev pub StopsNumber : String → Type 0
StopsNumber String.[] = Unit
StopsNumber (String.◌∷◌ letter rest) =
    (is_digit (code letter) ≡ false) × (code letter == b'.' ≡ false)

digits-append : (ds t : String) → AllDigits ds → digits (ds ++ t) ≡ ds ++ digits t
unfolding digits
digits-append String.[] t all = rw (nil-append t, nil-append (digits t)) refl
digits-append (String.◌∷◌ letter rest) t all =
    rw (cons-append letter rest t, all.0, digits-append rest t all.1)
      (sym (cons-append letter rest (digits t)))

after_digits-append : (ds t : String) → AllDigits ds → after_digits (ds ++ t) ≡ after_digits t
unfolding after_digits
after_digits-append String.[] t all = rw (nil-append t) refl
after_digits-append (String.◌∷◌ letter rest) t all =
    rw (cons-append letter rest t, all.0) (after_digits-append rest t all.1)

digits_stop : (t : String) → StopsDigits t → digits t ≡ ""
unfolding digits
digits_stop String.[] stops = refl
digits_stop (String.◌∷◌ letter rest) stops = rw stops refl

after_digits_stop : (t : String) → StopsDigits t → after_digits t ≡ t
unfolding after_digits
after_digits_stop String.[] stops = refl
after_digits_stop (String.◌∷◌ letter rest) stops = rw stops refl

-- A number's digits, and the digits of its fraction behind the point.
abbrev pub fraction_text : Option String → String
fraction_text none = ""
fraction_text (some fs) = "." ++ fs

abbrev pub IsFraction : Option String → Type 0
IsFraction none = Unit
IsFraction (some fs) = AllDigits fs

abbrev pub Stops : Option String → String → Type 0
Stops none t = StopsNumber t
Stops (some fs) t = StopsDigits t

abbrev dot : Char
dot = "."

point-append : (t : String) → "." ++ t ≡ String.◌∷◌ dot t
point-append t = cons-append dot "" t ∙ ap (λ r. String.◌∷◌ dot r) (nil-append t)

split_fraction_lem :
    (f : Option String) (u : String)
    → IsFraction f
    → Stops f u
    → split_fraction (fraction_text f ++ u) ≡ (fraction_text f, u)
unfolding split_fraction
split_fraction_lem none String.[] all stops = refl
split_fraction_lem none (String.◌∷◌ letter rest) all stops =
    rw (nil-append (String.◌∷◌ letter rest), stops.1) refl
split_fraction_lem (some fs) u all stops =
    let r : digits (fs ++ u) ≡ fs =
      digits-append fs u all ∙ ap (λ t. fs ++ t) (digits_stop u stops) ∙ append-nil fs in
    rw
      (
        point-append fs,
        cons-append dot fs u,
        r,
        after_digits-append fs u all,
        after_digits_stop u stops,
      )
      refl

fraction-StopsDigits :
    (f : Option String) (u : String) → Stops f u → StopsDigits (fraction_text f ++ u)
unfolding is_digit
fraction-StopsDigits none String.[] stops = tt
fraction-StopsDigits none (String.◌∷◌ letter rest) stops =
    rw (nil-append (String.◌∷◌ letter rest)) stops.0
fraction-StopsDigits (some fs) u stops = rw (point-append fs, cons-append dot fs u) refl

-- A sign, or none.
abbrev pub IsSign : String → Type 0
IsSign sign = (sign ≡ "") ⊎ (sign ≡ "+") ⊎ (sign ≡ "-")

split_sign_digit :
    (letter : Char) (rest : String)
    → is_digit (code letter) ≡ true
    → split_sign (String.◌∷◌ letter rest) ≡ ("", String.◌∷◌ letter rest)
unfolding split_sign is_digit
split_sign_digit letter rest h =
    let plus : (code letter == b'+') ≡ false = ground arith in
    let minus : (code letter == b'-') ≡ false = ground arith in rw (plus, minus) refl

split_unsigned :
    (ds u : String) (f : Option String)
    → AllDigits ds
    → ds ++ fraction_text f ≢ ""
    → split_sign (ds ++ (fraction_text f ++ u)) ≡ ("", ds ++ (fraction_text f ++ u))
unfolding split_sign
split_unsigned (String.◌∷◌ letter rest) u f all some_digit =
    rw (cons-append letter rest (fraction_text f ++ u))
      (split_sign_digit letter (rest ++ (fraction_text f ++ u)) all.0)
split_unsigned String.[] u none all some_digit = absurd (some_digit (nil-append ""))
split_unsigned String.[] u (some fs) all some_digit =
    rw (nil-append (("." ++ fs) ++ u), point-append fs, cons-append dot fs u) refl

abbrev plus : Char
plus = "+"

abbrev minus : Char
minus = "-"

split_signed :
    (sign t : String)
    → IsSign sign
    → (sign ≡ "" → split_sign t ≡ ("", t))
    → split_sign (sign ++ t) ≡ (sign, t)
unfolding split_sign
split_signed sign t (inl none_written) plain = rw (none_written, nil-append t) (plain none_written)
split_signed sign t (inr (inl written)) plain =
    rw (written, cons-append plus "" t, nil-append t) refl
split_signed sign t (inr (inr written)) plain =
    rw (written, cons-append minus "" t, nil-append t) refl

module _ (x : Std) where
  parse_number_lem :
      (sign ds u : String) (f : Option String)
      → AllDigits ds
      → IsFraction f
      → Stops f u
      → ds ++ fraction_text f ≢ ""
      → parse_number x sign (ds ++ (fraction_text f ++ u))
        ≡ with_unit x (sign ++ (ds ++ fraction_text f)) u
  unfolding parse_number
  parse_number_lem sign ds u f all all_f stops some_digit =
      let t = fraction_text f ++ u in
      let plain = fraction-StopsDigits f u stops in
      let read : digits (ds ++ t) ≡ ds =
        digits-append ds t all ∙ ap (λ r. ds ++ r) (digits_stop t plain) ∙ append-nil ds in
      let left : after_digits (ds ++ t) ≡ t =
        after_digits-append ds t all ∙ after_digits_stop t plain in
      rw
        (
          read,
          left,
          split_fraction_lem f u all_f stops,
          str-ne (ds ++ fraction_text f) "" some_digit,
        )
        refl

  -- A text that reads, once trimmed, as an optional sign, digits, an optional fraction and a
  -- unit, with at least a digit or a fraction and the number ending where the unit begins,
  -- parses by its unit in lower case: where `ParseFloat` accepts the number, to the number
  -- times a unit of the table, or to an unknown unit; otherwise to a bad number.
  pub parse_ms_lem :
      (s sign ds u : String) (f : Option String)
      → trim_space s ≡ sign ++ (ds ++ (fraction_text f ++ u))
      → IsSign sign
      → AllDigits ds
      → IsFraction f
      → ds ++ fraction_text f ≢ ""
      → Stops f u
      → let number = sign ++ (ds ++ fraction_text f) in
        parse_ms x s ≡ (
          if x.is_float number
          then span_of (lookup (x.to_lower (trim_space u)) ms_units) (x.float_times number)
          else malformed bad_number)
  unfolding parse_ms with_unit
  parse_ms_lem s sign ds u f trimmed is_sign all all_f some_digit stops =
      let t = ds ++ (fraction_text f ++ u) in
      let written : sign ++ t ≢ "" = λ e.
        let (digitless, behind) = append-eq-nil_iff.0 (append-eq-nil_iff.0 e).1 in
        some_digit (append-eq-nil_iff.1 (digitless, (append-eq-nil_iff.0 behind).0)) in
      let split = split_signed sign t is_sign (λ e. split_unsigned ds u f all some_digit) in
      rw (trimmed, str-ne (sign ++ t) "" written, split)
        (parse_number_lem sign ds u f all all_f stops some_digit)
