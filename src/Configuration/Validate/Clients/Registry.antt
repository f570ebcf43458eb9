-- ===== src/Configuration/Validate/Clients/Registry.antt =====
-- The registry of OIDC clients that the checks of internal/config/validate.go leave.
use Prim.Native.String.{◌++◌}
use awesome_lambda_auth.Common.{
  ℕ, ◌+◌, String, true, false, ◌⊎◌, inl, inr, List, [], ◌∷◌, ◌≡◌, ◌≢◌, arith, ap, All, some, str_eq,
  eq_iff, Bool-cases, Option-cases, not, ◌&&◌,
}
use awesome_lambda_auth.Configuration.Surfaces.{Config, IdpClient}
use awesome_lambda_auth.Configuration.Text.{Std, Url, trim_space}
use awesome_lambda_auth.Configuration.Checks.{
  errf, report, secret_value, secret_failed, is_one_of, check_redirect_uri, absolute,
  is_loopback_host,
}
use awesome_lambda_auth.Configuration.Checks.Silence.{Silent, Silent-append, Silent-report}
use awesome_lambda_auth.Configuration.Validate.Clients.{
  is_client_id_safe, client_env_name, client_secret_path, check_redirect_uris, validate_client,
  validate_clients, validate_id_provider_clients,
}

abbrev pub id_of : IdpClient → String
id_of client = trim_space client.client_id

abbrev pub env_of : IdpClient → String
env_of client = client_env_name (id_of client)

-- No two entries share the key.
abbrev pub ApartBy : (IdpClient → String) → List IdpClient → Type 0
ApartBy key [] = Unit
ApartBy key (client ∷ rest) = All (λ other. key client ≢ key other) rest × ApartBy key rest

-- What the checks ask of one entry.
abbrev pub IsRedirect : Std → String → Type 0
IsRedirect x uri =
    (u : Url) × (x.parse_url uri ≡ some u)
    × (u.host ≢ "")
    × ((u.scheme ≡ "https")
        ⊎ ((u.scheme ≡ "http")
            × (is_one_of (x.to_lower u.hostname) ("localhost" ∷ "127.0.0.1" ∷ "::1" ∷ []) ≡ true)))

pub record IsClient (x : Std) (c : Config) (client : IdpClient) : Type 0 where
  pub has_id : id_of client ≢ ""
  pub is_safe : is_client_id_safe (id_of client) ≡ true
  pub has_secret :
      (secret_failed c (client_secret_path (id_of client)) ≡ true)
      ⊎ (secret_value c (client_secret_path (id_of client)) ≢ "")
  pub has_redirect : client.redirect_uris ≢ []
  pub redirects : All (IsRedirect x) client.redirect_uris

still :
    (got before : String) (l : List String)
    → is_one_of got l ≡ true
    → is_one_of got (before ∷ l) ≡ true
unfolding is_one_of
still got before l h = ground arith

first_one : (got : String) (l : List String) → is_one_of got (got ∷ l) ≡ true
unfolding is_one_of
first_one got l = ground (arith, eq_iff got got)

module _ (x : Std) (c : Config) where
  check_redirect_uri-Silent :
      (path uri : String) → Silent (check_redirect_uri c x path uri) → IsRedirect x uri
  unfolding check_redirect_uri absolute is_loopback_host
  check_redirect_uri-Silent path uri h = elim (Option-cases (x.parse_url uri)) [
    | inl malformed ↦ absurd (ground arith)
    | inr (u, parsed) ↦ (
      u,
      parsed,
      ground (arith, eq_iff u.host "", eq_iff u.scheme ""),
      ground (
        arith,
        eq_iff u.host "",
        eq_iff u.scheme "",
        eq_iff u.scheme "https",
        eq_iff u.scheme "http",
      ),
    )
  ]

  check_redirect_uris-Silent :
      (base : String) (j : ℕ) (uris : List String)
      → Silent (check_redirect_uris x c base j uris)
      → All (IsRedirect x) uris
  unfolding check_redirect_uris
  check_redirect_uris-Silent base j [] h = tt
  check_redirect_uris-Silent base j (uri ∷ rest) h =
      let path = base ++ (".redirectUris[" ++ (x.itoa j ++ "]")) in
      let (here, later) =
        (Silent-append (check_redirect_uri c x path uri)
            (check_redirect_uris x c base (j + 1) rest)).0
          h in
      (check_redirect_uri-Silent path uri here, check_redirect_uris-Silent base (j + 1) rest later)

  -- One round of the loop that appends nothing.
  round :
      (seen env_names : List String) (i : ℕ) (client : IdpClient) (rest : List IdpClient)
      → Silent (validate_clients x c seen env_names i (client ∷ rest))
      → (str_eq (id_of client) "" ≡ false)
        × (is_one_of (id_of client) seen ≡ false)
        × (is_client_id_safe (id_of client) ≡ true)
        × (is_one_of (env_of client) env_names ≡ false)
        × Silent
            (validate_client x c ("idProvider.clients[" ++ (x.itoa i ++ "]")) (id_of client) client)
        × Silent
            (validate_clients x c (id_of client ∷ seen) (env_of client ∷ env_names) (i + 1) rest)
  unfolding validate_clients
  round seen env_names i client rest h = elim (Bool-cases (str_eq (id_of client) "")) [
    | inl empty ↦ absurd (rw empty at h)
    | inr named ↦ elim (Bool-cases (is_one_of (id_of client) seen)) [
      | inl again ↦ absurd (rw (named, again) at h)
      | inr new ↦ elim (Bool-cases (is_client_id_safe (id_of client))) [
        | inr unsafe ↦ absurd (rw (named, new, unsafe) at h)
        | inl safe ↦ elim (Bool-cases (is_one_of (env_of client) env_names)) [
          | inl clash ↦ absurd (rw (named, new, safe, clash) at h)
          | inr apart ↦
              let both =
                (Silent-append
                    (validate_client x c ("idProvider.clients[" ++ (x.itoa i ++ "]")) (id_of client)
                      client)
                    _).0
                  (rw (named, new, safe, apart) at h) in
              (named, new, safe, apart, both.0, both.1)
        ]
      ]
    ]
  ]

  validate_client-Silent :
      (base : String) (client : IdpClient)
      → str_eq (id_of client) "" ≡ false
      → is_client_id_safe (id_of client) ≡ true
      → Silent (validate_client x c base (id_of client) client)
      → IsClient x c client
  unfolding validate_client
  validate_client-Silent base client named safe h =
      let path = client_secret_path (id_of client) in
      let unset = not (secret_failed c path) && str_eq (secret_value c path) "" in
      let (secret, uris) = (Silent-append (report unset (errf c "" path)) _).0 h in
      let held = (Silent-report unset (errf c "" path)).0 secret in
      let redirects = by_uris client.redirect_uris uris in
      record {
        has_id = ground (arith, eq_iff (id_of client) "");
        is_safe = safe;
        has_secret = ground (arith, eq_iff (secret_value c path) "");
        has_redirect = redirects.0;
        redirects = redirects.1;
      }
    where
      by_uris :
          (uris : List String)
          → Silent (elim uris [
            | [] ↦ errf c "" (base ++ ".redirectUris") ∷ []
            | uri ∷ rest ↦ check_redirect_uris x c base 0 (uri ∷ rest)
          ])
          → (uris ≢ []) × All (IsRedirect x) uris
      by_uris [] none_listed = absurd none_listed
      by_uris (uri ∷ rest) silent = (λ e. cc, check_redirect_uris-Silent base 0 (uri ∷ rest) silent)

  -- Neither an id nor a variable that the loop has seen comes again.
  fresh :
      (seen env_names : List String) (i : ℕ) (clients : List IdpClient) (id env : String)
      → is_one_of id seen ≡ true
      → is_one_of env env_names ≡ true
      → Silent (validate_clients x c seen env_names i clients)
      → All (λ other. id ≢ id_of other) clients × All (λ other. env ≢ env_of other) clients
  fresh seen env_names i [] id env old taken h = (tt, tt)
  fresh seen env_names i (client ∷ rest) id env old taken h =
      let (named, new, safe, apart, here, later) = round seen env_names i client rest h in
      let (ids, envs) =
        fresh (id_of client ∷ seen) (env_of client ∷ env_names) (i + 1) rest id env
          (still id (id_of client) seen old) (still env (env_of client) env_names taken) later in
      (
        (λ e. cc (old, new, ap (λ k. is_one_of k seen) e), ids),
        (λ e. cc (taken, apart, ap (λ k. is_one_of k env_names) e), envs),
      )

  registry :
      (seen env_names : List String) (i : ℕ) (clients : List IdpClient)
      → Silent (validate_clients x c seen env_names i clients)
      → All (IsClient x c) clients × ApartBy id_of clients × ApartBy env_of clients
  registry seen env_names i [] h = (tt, tt, tt)
  registry seen env_names i (client ∷ rest) h =
      let (named, new, safe, apart, here, later) = round seen env_names i client rest h in
      let (ids, envs) =
        fresh (id_of client ∷ seen) (env_of client ∷ env_names) (i + 1) rest (id_of client)
          (env_of client) (first_one (id_of client) seen) (first_one (env_of client) env_names)
          later in
      let (all, apart_ids, apart_envs) =
        registry (id_of client ∷ seen) (env_of client ∷ env_names) (i + 1) rest later in
      (
        (
          validate_client-Silent ("idProvider.clients[" ++ (x.itoa i ++ "]")) client named safe
              here,
          all,
        ),
        (ids, apart_ids),
        (envs, apart_envs),
      )

  -- Where the client registry is validated with nothing to report, each entry has what a
  -- client needs (`IsClient`), no two entries share an id, and no two share the environment
  -- variable of their secrets.
  pub validate_id_provider_clients-Silent :
      Silent (validate_id_provider_clients x c)
      → All (IsClient x c) c.id_provider.clients
        × ApartBy id_of c.id_provider.clients
        × ApartBy env_of c.id_provider.clients
  unfolding validate_id_provider_clients
  validate_id_provider_clients-Silent h = registry [] [] 0 c.id_provider.clients h
