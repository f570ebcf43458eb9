-- ===== src/Keys/Injective.antt =====
-- Different things get different keys (internal/store/dynamodb/keys.go).
use Prim.Native.Char.{Char, code}
use Prim.Native.String.{String, ◌++◌}
use text.Mathlib.TextLemmas.{append_cancel_left, nil-append, cons-append, cons-eq-cons, cons-ne-nil}
use awesome_lambda_auth.Common.{◌≡◌, ◌≢◌, refl, sym, ap, ◌∙◌, Bool, true, none, arith, eq_iff}
use awesome_lambda_auth.Keys.{
  codes, is_alphanumeric, is_id_char, all_id_chars, id_pattern, check_tenant, key_sep, user_pk,
  session_pk, refresh_pk,
}

pub session_pk_injective : (a b : String) → session_pk a ≡ session_pk b → a ≡ b
unfolding session_pk
session_pk_injective a b e = append_cancel_left "SESSION#" a b e

pub refresh_pk_injective : (a b : String) → refresh_pk a ≡ refresh_pk b → a ≡ b
unfolding refresh_pk
refresh_pk_injective a b e = append_cancel_left "REFRESH#" a b e

-- The text holds no such character.
abbrev pub Lacks : Char → String → Type 0
Lacks sep String.[] = Unit
Lacks sep (String.◌∷◌ c s) = (c ≢ sep) × Lacks sep s

-- Two texts that a separator ends are the same up to it, where neither holds the separator.
pub split_at_sep :
    (sep : Char) (a b c d : String)
    → Lacks sep a
    → Lacks sep c
    → a ++ String.◌∷◌ sep b ≡ c ++ String.◌∷◌ sep d
    → (a ≡ c) × (b ≡ d)
split_at_sep sep String.[] b String.[] d h k e =
    let e' = sym (nil-append (String.◌∷◌ sep b)) ∙ e ∙ nil-append (String.◌∷◌ sep d) in
    (refl, (cons-eq-cons.0 e').1)
split_at_sep sep String.[] b (String.◌∷◌ c s) d h k e =
    let e' = sym (nil-append (String.◌∷◌ sep b)) ∙ e ∙ cons-append c s (String.◌∷◌ sep d) in
    absurd (k.0 (sym (cons-eq-cons.0 e').0))
split_at_sep sep (String.◌∷◌ c s) b String.[] d h k e =
    let e' = sym (cons-append c s (String.◌∷◌ sep b)) ∙ e ∙ nil-append (String.◌∷◌ sep d) in
    absurd (h.0 (cons-eq-cons.0 e').0)
split_at_sep sep (String.◌∷◌ c s) b (String.◌∷◌ c' s') d h k e =
    let (same, rest) =
      cons-eq-cons.0
        (sym (cons-append c s (String.◌∷◌ sep b)) ∙ e ∙ cons-append c' s' (String.◌∷◌ sep d)) in
    let (heads, tails) = split_at_sep sep s b s' d h.1 k.1 rest in (cc, tails)

abbrev hash_sign : Char
hash_sign = "#"

key_sep-append : (b : String) → key_sep ++ b ≡ String.◌∷◌ hash_sign b
key_sep-append b = cons-append hash_sign String.[] b ∙ ap (String.◌∷◌ hash_sign) (nil-append b)

-- What passes the check of an identifier holds no separator.
all_id_chars-Lacks : (s : String) → all_id_chars (codes s) ≡ true → Lacks hash_sign s
unfolding all_id_chars is_id_char is_alphanumeric
all_id_chars-Lacks String.[] h = tt
all_id_chars-Lacks (String.◌∷◌ c s) h =
    (λ e. not_hash (ap code e) h, all_id_chars-Lacks s (ground arith))
  where
    not_hash : code c ≡ b'#' → all_id_chars (codes (String.◌∷◌ c s)) ≡ true → ⊥
    not_hash e k = ground arith

pub id_pattern-Lacks : (s : String) → id_pattern (codes s) ≡ true → Lacks hash_sign s
unfolding id_pattern all_id_chars is_id_char
id_pattern-Lacks String.[] h = tt
id_pattern-Lacks (String.◌∷◌ c s) h = all_id_chars-Lacks (String.◌∷◌ c s) (ground arith)

check_tenant-Lacks : (multi : Bool) (s : String) → check_tenant multi s ≡ none → Lacks hash_sign s
unfolding check_tenant
check_tenant-Lacks multi String.[] h = tt
check_tenant-Lacks multi (String.◌∷◌ c s) h =
    id_pattern-Lacks (String.◌∷◌ c s) (ground (arith, eq_iff (String.◌∷◌ c s) "", cons-ne-nil c s))

pub sep_split :
    (a b c d : String)
    → Lacks hash_sign a
    → Lacks hash_sign c
    → a ++ (key_sep ++ b) ≡ c ++ (key_sep ++ d)
    → (a ≡ c) × (b ≡ d)
sep_split a b c d h k e =
    split_at_sep hash_sign a b c d h k
      (ap (λ s. a ++ s) (sym (key_sep-append b)) ∙ e ∙ ap (λ s. c ++ s) (key_sep-append d))

-- Where both tenants pass the store's check, users of two tenants, or two users of one, never share a
-- key.
pub user_pk_injective :
    (multi : Bool) (t u t' u' : String)
    → check_tenant multi t ≡ none
    → check_tenant multi t' ≡ none
    → user_pk t u ≡ user_pk t' u'
    → (t ≡ t') × (u ≡ u')
unfolding user_pk
user_pk_injective multi t u t' u' h k e =
    sep_split t u t' u' (check_tenant-Lacks multi t h) (check_tenant-Lacks multi t' k)
      (append_cancel_left "USER#" _ _ e)
