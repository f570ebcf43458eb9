-- ===== src/Tests/Linking.antt =====
-- Runs of binding the account of an OAuth provider, and of the stash of its flow.
use awesome_lambda_auth.Linking.{
  link_id_pk, oauth_pk, bind_writes, LinkedAccount, find_by_provider, save_link,
}
use awesome_lambda_auth.Transaction.{is_transaction_conflict, transact_write}
use awesome_lambda_auth.Linking.Pending.{pending_link_pk, PendingMeta, get_pending, save_pending}
use awesome_lambda_auth.AuthCodes.{once_write}
use awesome_lambda_auth.Keys.{check_id}
use awesome_lambda_auth.Common.{none, ◌≡◌, refl}
use awesome_lambda_auth.Database.{Contents, Key, fetched}
use awesome_lambda_auth.Database.Local.{local}
use awesome_lambda_auth.Errors.{ok, err, pending_link_not_found}
use awesome_lambda_auth.Linking.Binding.{Binds, save_link-Binds}
use awesome_lambda_auth.Tests.Data.{empty, env_at}

abbrev google_link : LinkedAccount
google_link = record {
  id = "l1";
  user_id = "u1";
  provider = "google";
  provider_id = "1042";
  email = "a@x.org";
  name = "Ada";
  picture = "";
  created_at = 7;
}

-- The account is bound to one user, and then to another under a new id.
abbrev other_link : LinkedAccount
other_link = record google_link { id = "l2"; user_id = "u2" }

abbrev bound_once : Contents
bound_once = (save_link local (env_at 7) empty google_link).0

rebinds : (save_link local (env_at 8) bound_once other_link).1 ≡ none
unfolding save_link check_id transact_write is_transaction_conflict bind_writes oauth_pk link_id_pk
rebinds = refl

save_link-Binds_example :
    let t' = (save_link local (env_at 8) bound_once other_link).0 in
    Binds other_link bound_once t'
    × (((k : Key) → local.get_item t' k ≡ fetched (local.contents t' k))
        → find_by_provider local t' "google" "1042" ≡ ok other_link)
save_link-Binds_example = save_link-Binds local (env_at 8) bound_once other_link rebinds

abbrev stash : PendingMeta
stash = record {
  provider = "google";
  redirect_url = "https://x.org/cb";
  tenant_id = "acme";
  user_id = "u1";
  email = "a@x.org";
  provider_account_id = "1042";
  expires_at = 0;
}

abbrev stashed : Contents
stashed = (save_pending local (env_at 7) empty "link-token:t" stash 60).0

-- A link token is read once.
second_read :
    (get_pending local
      (env_at 9)
      (get_pending local (env_at 8) stashed "link-token:t").0
      "link-token:t").1
    ≡ err pending_link_not_found
unfolding get_pending once_write save_pending pending_link_pk
second_read = refl
