-- ===== src/Errors.antt =====
-- The errors of internal/store/dynamodb (errors.go, and those of the core that its methods return)
-- as values, and the results that carry one.
use mathlib.Core.Path.{◌≡◌, refl}
use mathlib.Core.Logic.{◌⊎◌, inl, inr}
use mathlib.Core.Option.{Option, none, some}

-- The errors of the store's methods that their callers tell apart.
pub data StoreError : Type 0 where
  tenant_required invalid_identifier invalid_email : StoreError
  user_not_found session_not_found session_revoked invalid_token : StoreError
  -- a hash that is bound to another session, or to another user
  hash_bound : StoreError
  rotation_refused : StoreError
  -- an item of a newer schema, or one whose timestamp does not parse
  version_too_new bad_time : StoreError
  -- `wrap`: the service failed
  service : StoreError
  no_pointer wrong_extras : StoreError
  invalid_scope invalid_subject bad_limit : StoreError
  invalid_code user_exists no_pending_email_change : StoreError
  result_too_large page_window_too_large still_unprocessed : StoreError
  link_not_found link_conflict link_id_taken pending_link_not_found pending_link_expired :
      StoreError

-- The first error of two checks.
infixr 30 ◌or_else◌
abbrev pub ◌or_else◌ : Option StoreError → Option StoreError → Option StoreError
none or_else later = later
some e or_else later = some e

pub data Result {ℓ} (A : Type ℓ) : Type ℓ where
  err : StoreError → Result A
  ok : A → Result A

pub Result-cases {ℓ} :
    {A : Type ℓ} (r : Result A) → ((e : StoreError) × (r ≡ err e)) ⊎ ((a : A) × (r ≡ ok a))
Result-cases (err e) = inl (e, refl)
Result-cases (ok a) = inr (a, refl)

-- The rest of a method runs on the value, and an error ends the method.
infixl 5 ◌>>=◌
abbrev pub ◌>>=◌ {ℓ} : {A B : Type ℓ} → Result A → (A → Result B) → Result B
err failure >>= rest = err failure
ok value >>= rest = rest value

infixl 5 ◌>>◌
abbrev pub ◌>>◌ : {B : Type 0} → Result (Unit {0}) → Result B → Result B
check >> rest = check >>= λ done. rest

-- A check that passes says nothing.
abbrev pub passes : Option StoreError → Result (Unit {0})
passes none = ok tt
passes (some e) = err e

-- A computation that gives a value ran both of its parts.
pub bind-ok {ℓ} :
    {A B : Type ℓ} (r : Result A) (rest : A → Result B) (b : B)
    → (r >>= rest) ≡ ok b
    → (a : A) × (r ≡ ok a) × (rest a ≡ ok b)
bind-ok (err e) rest b h = absurd (cc h)
bind-ok (ok a) rest b h = (a, refl, h)
