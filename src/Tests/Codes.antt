-- ===== src/Tests/Codes.antt =====
-- Runs of the authorization codes, and of the keys.
use awesome_lambda_auth.AuthCodes.{
  auth_code_pk, code_item, auth_code_from_item, once_cond, code_key, once_done, consume_item_once,
  once_write, check_code, save_write, saved, AuthCode, consume_code, save_code,
}
use awesome_lambda_auth.Items.{check_version}
use awesome_lambda_auth.AuthCodes.Replay.{consume_code-once, redeem, run_code_calls, save, CodeCall}
use awesome_lambda_auth.Errors.{service, invalid_code, ok, err}
use awesome_lambda_auth.Keys.{check_hash, id_pattern, check_tenant}
use awesome_lambda_auth.Database.Local.{write_local-ne_failed, local}
use awesome_lambda_auth.AuthCodes.Redeem.{save_consume}
use awesome_lambda_auth.Tests.Data.{empty, env_at}
use awesome_lambda_auth.Keys.Injective.{user_pk_injective}
use awesome_lambda_auth.Common.{
  String, List, [], ◌∷◌, ◌≢◌, ◌⊎◌, refl, none, ◌≡◌, true, arith, eq_iff, inr,
}
use awesome_lambda_auth.Database.{Contents}
use awesome_lambda_auth.Env.{Env}

abbrev code : AuthCode
code = record {
  code_hash = "c1";
  user_id = "u1";
  tenant_id = "acme";
  client_id = "spa";
  redirect_uri = "https://x.org/cb";
  nonce = "";
  scope = "openid";
  code_challenge = "";
  code_challenge_method = "";
  expires_at = 60;
}

abbrev with_code : Contents
with_code = (save_code local (env_at 1) empty code).0

saves_it : (save_code local (env_at 1) empty code).1 ≡ none
unfolding save_code saved save_write check_code check_hash check_tenant id_pattern
saves_it = refl

save_consume_example : (consume_code local (env_at 2) with_code "c1").1 ≡ ok code
save_consume_example =
    save_consume local (env_at 1) (env_at 2) empty code saves_it (inr (omega arith))
      (write_local-ne_failed with_code (once_write 2 (code_key "c1") "expiresAt"))

redeems_it : (consume_code local (env_at 2) with_code "c1").1 ≡ ok code
unfolding consume_code consume_item_once once_done once_write once_cond auth_code_from_item
    check_version code_item check_hash save_code saved save_write check_code check_tenant id_pattern
    auth_code_pk
redeems_it = refl

abbrev code_calls : List (Env × CodeCall)
code_calls = (env_at 3, save (record code { code_hash = "c2" })) ∷ (env_at 4, redeem "c2") ∷ []

c2-ne_c1 : ◌≢◌ {A = String} "c2" "c1"
c2-ne_c1 = ground (arith, eq_iff "c2" "c1")

consume_code-once_example :
    let again =
      (consume_code local
        (env_at 5)
        (run_code_calls local (consume_code local (env_at 2) with_code "c1").0 code_calls)
        "c1").1 in
    (again ≡ err invalid_code) ⊎ (again ≡ err service)
consume_code-once_example =
    consume_code-once local (env_at 2) (env_at 5) with_code "c1" code code_calls redeems_it
      (c2-ne_c1, (tt, tt))

tenant_fine : check_tenant true "acme" ≡ none
unfolding check_tenant id_pattern
tenant_fine = refl

user_pk_injective_example : (◌≡◌ {A = String} "acme" "acme") × (◌≡◌ {A = String} "u#1" "u#1")
user_pk_injective_example =
    user_pk_injective true "acme" "u#1" "acme" "u#1" tenant_fine tenant_fine refl
