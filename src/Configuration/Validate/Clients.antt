-- ===== src/Configuration/Validate/Clients.antt =====
-- internal/config/validate.go: the OIDC client registry and the KMS keys, and `upperSnake` of
-- secret.go.
pub mod Registry
use Prim.Native.Char.{code, len_utf8}
use Prim.Native.String.{◌++◌, char_at}
use awesome_lambda_auth.Common.{
  ℕ, zero, suc, ◌+◌, ◌-◌, String, Bool, true, false, not, ◌&&◌, ◌||◌, List, [], ◌∷◌, str_eq, ◌==◌,
  if◌then◌else◌,
}
use awesome_lambda_auth.Configuration.Surfaces.{Config, IdpClient}
use awesome_lambda_auth.Configuration.Text.{
  Std, trim_space, contains_any, is_lower, is_upper, is_digit,
}
use awesome_lambda_auth.Configuration.Checks.{
  Diagnostic, errf, report, secret_value, secret_failed, is_one_of, check_redirect_uri, ◌and◌,
}

unfoldable pub is_client_id_safe : String → Bool
unfolding is_lower is_upper is_digit
is_client_id_safe String.[] = true
is_client_id_safe (String.◌∷◌ letter rest) =
    (is_lower (code letter)
      || is_upper (code letter)
      || is_digit (code letter)
      || code letter == b'_'
      || code letter == b'-')
    && is_client_id_safe rest

-- `b.WriteByte('_')`, once for each byte.
pub underscores : ℕ → String → String
underscores zero rest = rest
underscores (suc n) rest = "_" ++ underscores n rest

-- The loop of `upperSnake`, behind the character before.
pub upper_snake_after : ℕ → String → String
unfolding underscores is_lower is_upper is_digit
upper_snake_after previous String.[] = ""
upper_snake_after previous (String.◌∷◌ letter rest) =
    let later = upper_snake_after (code letter) rest in
    if is_lower (code letter)
    then String.◌∷◌ (char_at "ABCDEFGHIJKLMNOPQRSTUVWXYZ" (code letter - b'a')) later
    else if is_upper (code letter)
    then (if is_lower previous then "_" ++ String.◌∷◌ letter later else String.◌∷◌ letter later)
    else if is_digit (code letter)
    then String.◌∷◌ letter later
    else underscores (len_utf8 letter) later

unfoldable pub upper_snake : String → String
unfolding upper_snake_after
upper_snake s = upper_snake_after 0 s

unfoldable pub client_env_name : String → String
client_env_name id = "AWESOME_AUTH_IDP_CLIENT_" ++ (upper_snake id ++ "_SECRET")

unfoldable pub client_secret_path : String → String
client_secret_path id = "idProvider.clients." ++ (id ++ ".clientSecret")

module _ (x : Std) (c : Config) where
  unfoldable pub check_redirect_uris : String → ℕ → List String → List Diagnostic
  unfolding check_redirect_uri
  check_redirect_uris base j [] = []
  check_redirect_uris base j (uri ∷ rest) =
      check_redirect_uri c x (base ++ (".redirectUris[" ++ (x.itoa j ++ "]"))) uri
      and check_redirect_uris base (j + 1) rest

  -- The checks of an entry whose id is new, safe, and has a variable of its own.
  unfoldable pub validate_client : String → String → IdpClient → List Diagnostic
  unfolding errf secret_value secret_failed check_redirect_uris
  validate_client base id client =
      report
        (not (secret_failed c (client_secret_path id))
          && str_eq (secret_value c (client_secret_path id)) "")
        (errf c "" (client_secret_path id))
      and (elim client.redirect_uris [
        | [] ↦ errf c "" (base ++ ".redirectUris") ∷ []
        | uri ∷ rest ↦ check_redirect_uris base 0 (uri ∷ rest)
      ])

  -- The loop over the entries: `seen` and `env_names` are the keys of the loop's two maps.
  unfoldable pub validate_clients : List String → List String → ℕ → List IdpClient → List Diagnostic
  unfolding errf is_one_of validate_client
  validate_clients seen env_names i [] = []
  validate_clients seen env_names i (client ∷ rest) =
      let base = "idProvider.clients[" ++ (x.itoa i ++ "]") in
      let id = trim_space client.client_id in
      let refused = errf c "" (base ++ ".clientId") in
      let passed_over = refused ∷ validate_clients seen env_names (i + 1) rest in
      let unsafe = refused ∷ validate_clients (id ∷ seen) env_names (i + 1) rest in
      let kept =
        validate_client base id client
        and validate_clients (id ∷ seen) (client_env_name id ∷ env_names) (i + 1) rest in
      if str_eq id ""
      then passed_over
      else if is_one_of id seen
      then passed_over
      else if not (is_client_id_safe id)
      then unsafe
      else if is_one_of (client_env_name id) env_names
      then unsafe
      else kept

  unfoldable pub validate_id_provider_clients : List Diagnostic
  unfolding validate_clients
  validate_id_provider_clients = validate_clients [] [] 0 c.id_provider.clients

  unfoldable pub previous_keys : List String → ℕ → List String → List Diagnostic
  unfolding errf is_one_of
  previous_keys seen i [] = []
  previous_keys seen i (raw ∷ rest) =
      let refused = errf c "" ("idProvider.kmsPreviousKeyIds[" ++ (x.itoa i ++ "]")) in
      let id = trim_space raw in
      let passed_over = refused ∷ previous_keys seen (i + 1) rest in
      let kept = previous_keys (id ∷ seen) (i + 1) rest in
      if str_eq id "" then passed_over else if is_one_of id seen then passed_over else kept

  abbrev is_nonempty : List String → Bool
  is_nonempty [] = false
  is_nonempty (first ∷ rest) = true

  unfoldable pub validate_id_provider_kms : List Diagnostic
  unfolding errf previous_keys
  validate_id_provider_kms =
      let key = c.id_provider.kms_key_id in
      let primary = trim_space key in
      report (not (str_eq primary key) || contains_any (b' ' ∷ 9 ∷ 10 ∷ []) key)
        (errf c "" "idProvider.kmsKeyId")
      and previous_keys (if str_eq primary "" then [] else primary ∷ []) 0
          c.id_provider.kms_previous_key_ids
      and report (is_nonempty c.id_provider.kms_previous_key_ids && str_eq primary "")
          (errf c "" "idProvider.kmsPreviousKeyIds")
