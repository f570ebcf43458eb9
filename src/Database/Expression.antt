-- ===== src/Database/Expression.antt =====
-- Condition and update expressions, and the readers and builders of item.go.
use awesome_lambda_auth.Common.{
  ℕ, ◌+◌, ◌/◌, String, Bool, true, false, not, Option, none, some, List, [], ◌∷◌, str_eq, ltb, ◌==◌,
  if◌then◌else◌,
}
use awesome_lambda_auth.Database.{Value, text, num, stamp, flag, Item, no_attributes}

abbrev pub is_some {ℓ} : {A : Type ℓ} → Option A → Bool
is_some none = false
is_some (some a) = true

abbrev pub attribute_exists : String → Item → Bool
attribute_exists name i = is_some (i name)

abbrev pub attribute_not_exists : String → Item → Bool
attribute_not_exists name i = not (is_some (i name))

-- Values of two kinds are never equal and never ordered; nor is a missing one.
abbrev pub value_eq : Value → Value → Bool
value_eq (text a) (text b) = str_eq a b
value_eq (num a) (num b) = a == b
value_eq (stamp a) (stamp b) = a == b
value_eq (flag true) (flag b) = b
value_eq (flag false) (flag b) = not b
value_eq _ _ = false

abbrev pub value_lt : Value → Value → Bool
value_lt (num a) (num b) = ltb a b
value_lt (stamp a) (stamp b) = ltb a b
value_lt _ _ = false

abbrev pub eq_at : Option Value → Value → Bool
eq_at none v = false
eq_at (some w) v = value_eq w v

abbrev gt_at : Option Value → Value → Bool
gt_at none v = false
gt_at (some w) v = value_lt v w

abbrev lt_at : Option Value → Value → Bool
lt_at none v = false
lt_at (some w) v = value_lt w v

-- `#name = :v`, `#name > :v`, `#name < :v`
abbrev pub equals : String → Value → Item → Bool
equals name v i = eq_at (i name) v

abbrev pub exceeds : String → Value → Item → Bool
exceeds name v i = gt_at (i name) v

abbrev pub below : String → Value → Item → Bool
below name v i = lt_at (i name) v

-- `SET #name = :v` and `REMOVE #name`
abbrev pub assign : String → Value → Item → Item
assign name v i = λ a. if str_eq a name then some v else i a

abbrev pub remove : String → Item → Item
remove name i = λ a. if str_eq a name then none else i a

abbrev pub add_to : Option Value → ℕ → Value
add_to (some (num a)) n = num (a + n)
add_to _ n = num n

-- `ADD #name :n`: an attribute that is missing counts from 0.
abbrev pub add : String → ℕ → Item → Item
add name n i = assign name (add_to (i name) n) i

-- `SET #name = if_not_exists(#name, :v)`
abbrev pub assign_if_missing : String → Value → Item → Item
assign_if_missing name v i = if is_some (i name) then i else assign name v i

-- The map literal of `item{}.s(...).n(...)`, later entries first.
abbrev pub item_of : List (String × Value) → Item
item_of [] = no_attributes
item_of ((name, v) ∷ rest) = assign name v (item_of rest)

abbrev text_of : Option Value → String
text_of (some (text v)) = v
text_of _ = ""

abbrev pub number_of : Option Value → ℕ
number_of (some (num n)) = n
number_of _ = 0

abbrev pub get_s : Item → String → String
get_s i name = text_of (i name)

abbrev pub get_n : Item → String → ℕ
get_n i name = number_of (i name)

abbrev has_text : Option Value → Bool
has_text (some (text v)) = not (str_eq v "")
has_text (some (stamp v)) = true
has_text _ = false

-- `getS(m, name) != ""`, where the attribute may hold a timestamp.
abbrev pub has_s : Item → String → Bool
has_s i name = has_text (i name)

abbrev time_of : Option Value → Option (Option ℕ)
time_of (some (stamp t)) = some (some t)
time_of (some (text v)) = if str_eq v "" then some none else none
time_of _ = some none

-- `getTimePtr`: `none` when the text does not parse, `some none` when there is none.
abbrev pub get_time_ptr : Item → String → Option (Option ℕ)
get_time_ptr i name = time_of (i name)

abbrev is_true : Option Value → Bool
is_true (some (flag b)) = b
is_true _ = false

abbrev pub get_bool : Item → String → Bool
get_bool i name = is_true (i name)

-- Sets an attribute unless the test holds.
abbrev pub assign_unless : Bool → String → Value → Item → Item
assign_unless skip name v i = λ a. if str_eq a name then (if skip then i a else some v) else i a

-- `s`: an empty text is left out.
abbrev pub put_s : String → String → Item → Item
put_s name v i = assign_unless (str_eq v "") name (text v) i

-- `t`: so is the zero time.
abbrev pub put_t : String → ℕ → Item → Item
put_t name t i = assign_unless (t == 0) name (stamp t) i

-- Nanoseconds to whole seconds, as `time.Time.Unix`.
abbrev pub second : ℕ
second = 1_000_000_000

abbrev pub unix : ℕ → ℕ
unix t = t / second

abbrev pub schema_version : ℕ
schema_version = 1
