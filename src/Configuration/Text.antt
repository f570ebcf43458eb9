-- ===== src/Configuration/Text.antt =====
-- What internal/config takes from Go's `strings`, `net/url`, `net`, `strconv` and `fmt`. The
-- functions on texts that need no table of Unicode are written out; the others are fields of `Std`.
pub mod Suffix
use Prim.Native.Char.{Char, code}
use awesome_lambda_auth.Common.{
  ℕ, String, Bool, true, false, ◌&&◌, ◌||◌, Option, none, some, List, [], ◌∷◌, str_eq, leb, ◌==◌,
  if◌then◌else◌, ℤ,
}

-- What `url.Parse` answers, with `Hostname` of the result.
pub record Url : Type 0 where
  pub scheme : String
  pub host : String
  pub hostname : String

pub record Std : Type 0 where
  pub to_lower : String → String
  -- `url.Parse`, `none` for an error
  pub parse_url : String → Option Url
  -- `net.ParseIP` answers an address, and `IsLoopback` of it
  pub is_loopback_ip : String → Bool
  -- `%d` of an index
  pub itoa : ℕ → String
  -- `strconv.ParseFloat` accepts a text, and the product of its number and a span, as an integer
  pub is_float : String → Bool
  pub float_times : String → ℕ → ℤ

unfoldable pub is_lower : ℕ → Bool
is_lower c = leb b'a' c && leb c b'z'

unfoldable pub is_upper : ℕ → Bool
is_upper c = leb b'A' c && leb c b'Z'

unfoldable pub is_digit : ℕ → Bool
is_digit c = leb b'0' c && leb c b'9'

-- `unicode.IsSpace`
pub is_space : ℕ → Bool
is_space c =
    (leb 9 c && leb c 13)
    || c == 32
    || c == 0x85
    || c == 0xA0
    || c == 0x1680
    || (leb 0x2000 c && leb c 0x200A)
    || c == 0x2028
    || c == 0x2029
    || c == 0x202F
    || c == 0x205F
    || c == 0x3000

pub trim_left : String → String
unfolding is_space
trim_left String.[] = ""
trim_left (String.◌∷◌ letter rest) =
    if is_space (code letter) then trim_left rest else String.◌∷◌ letter rest

pub keep_unless_last : Char → String → String
unfolding is_space
keep_unless_last letter rest =
    if is_space (code letter) && str_eq rest "" then "" else String.◌∷◌ letter rest

pub trim_right : String → String
unfolding keep_unless_last
trim_right String.[] = ""
trim_right (String.◌∷◌ letter rest) = keep_unless_last letter (trim_right rest)

-- `strings.TrimSpace`
unfoldable pub trim_space : String → String
unfolding trim_left trim_right
trim_space s = trim_right (trim_left s)

pub is_among : ℕ → List ℕ → Bool
is_among c [] = false
is_among c (d ∷ ds) = c == d || is_among c ds

-- `strings.ContainsAny(s, chars)`
unfoldable pub contains_any : List ℕ → String → Bool
unfolding is_among
contains_any chars String.[] = false
contains_any chars (String.◌∷◌ letter rest) =
    is_among (code letter) chars || contains_any chars rest

-- `strings.HasPrefix(s, prefix)`
unfoldable pub has_prefix : String → String → Bool
has_prefix s String.[] = true
has_prefix String.[] (String.◌∷◌ wanted more) = false
has_prefix (String.◌∷◌ letter rest) (String.◌∷◌ wanted more) =
    code letter == code wanted && has_prefix rest more

-- `strings.CutPrefix(s, prefix)`
unfoldable pub cut_prefix : String → String → Option String
cut_prefix s String.[] = some s
cut_prefix String.[] (String.◌∷◌ wanted more) = none
cut_prefix (String.◌∷◌ letter rest) (String.◌∷◌ wanted more) =
    let cut = cut_prefix rest more in if code letter == code wanted then cut else none

-- `strings.HasSuffix(s, suffix)`
unfoldable pub has_suffix : String → String → Bool
has_suffix String.[] suffix = str_eq suffix ""
has_suffix (String.◌∷◌ letter rest) suffix =
    str_eq (String.◌∷◌ letter rest) suffix || has_suffix rest suffix

-- `strings.Contains(s, part)`
unfoldable pub contains : String → String → Bool
unfolding has_prefix
contains String.[] part = str_eq part ""
contains (String.◌∷◌ letter rest) part =
    has_prefix (String.◌∷◌ letter rest) part || contains rest part

-- What comes before the first character with the code (all of it, if there is none), and what
-- comes from it on.
unfoldable pub before : ℕ → String → String
before c String.[] = ""
before c (String.◌∷◌ letter rest) =
    if code letter == c then "" else String.◌∷◌ letter (before c rest)

unfoldable pub from_first : ℕ → String → String
from_first c String.[] = ""
from_first c (String.◌∷◌ letter rest) =
    if code letter == c then String.◌∷◌ letter rest else from_first c rest

-- `strings.TrimRight(s, "<c>")`, and `strings.TrimSuffix(s, "<c>")`.
unfoldable pub trim_right_of : ℕ → String → String
trim_right_of c String.[] = ""
trim_right_of c (String.◌∷◌ letter rest) =
    let kept = trim_right_of c rest in
    if code letter == c && str_eq kept "" then "" else String.◌∷◌ letter kept

unfoldable pub trim_suffix_of : ℕ → String → String
trim_suffix_of c String.[] = ""
trim_suffix_of c (String.◌∷◌ letter rest) =
    let kept = trim_suffix_of c rest in
    if code letter == c && str_eq rest "" then "" else String.◌∷◌ letter kept
