-- ===== src/Items.antt =====
-- Reading an item back with the error of a timestamp that does not parse, and of an item of a newer
-- schema: `getTime`, `getTimePtr` and `checkVersion`, internal/store/dynamodb/item.go.
use awesome_lambda_auth.Common.{
  refl, inr, sym, inl, arith, str-cases, ◌≡◌, str_eq, ◌==◌, ltb, if◌then◌else◌, none, String, some,
  Option, ℕ,
}
use awesome_lambda_auth.Database.{text, stamp, Item}
use awesome_lambda_auth.Database.Expression.{get_s, get_n, schema_version, get_time_ptr}
use awesome_lambda_auth.Errors.{◌>>=◌, version_too_new, ok, bad_time, err, Result, StoreError}

unfoldable pub check_version : Item → Option StoreError
check_version i = if ltb schema_version (get_n i "_v") then some version_too_new else none

abbrev parsed {ℓ} : {A : Type ℓ} → Option A → Result A
parsed none = err bad_time
parsed (some a) = ok a

abbrev pub or_zero : Option ℕ → ℕ
or_zero none = 0
or_zero (some t) = t

abbrev pub decode_time_ptr : Item → String → Result (Option ℕ)
decode_time_ptr i name = parsed (get_time_ptr i name)

-- The zero time where there is none.
abbrev pub decode_time : Item → String → Result ℕ
decode_time i name = do t ← decode_time_ptr i name; ok (or_zero t)

-- An empty text that was left out reads as empty.
pub put_s-get : (v : String) → get_s (λ a. if str_eq v "" then none else some (text v)) "" ≡ v
put_s-get v = elim (str-cases v "") [
  | inl (e, test) ↦ rw test (sym e)
  | inr (_, test) ↦ rw test refl
]

pub put_t-get : (t : ℕ) → decode_time (λ a. if t == 0 then none else some (stamp t)) "" ≡ ok t
put_t-get t = ground arith
