-- ===== src/Session/SortKeys.antt =====
-- The items of a session have different sort keys (internal/store/dynamodb/keys.go).
use awesome_lambda_auth.Common.{String, ◌≢◌, ap, arith, eq_iff}
use awesome_lambda_auth.Database.{Key}

pub refresh-ne : ◌≢◌ {A = String} "REFRESH" "SESSION"
refresh-ne = ground (arith, eq_iff "REFRESH" "SESSION")

pub index-ne : ◌≢◌ {A = String} "SESSION" "SIDX"
index-ne = ground (arith, eq_iff "SESSION" "SIDX")

pub refresh_index-ne : ◌≢◌ {A = String} "SIDX" "REFRESH"
refresh_index-ne = ground (arith, eq_iff "SIDX" "REFRESH")

pub sort-ne : (j k : Key) → j.1 ≢ k.1 → j ≢ k
sort-ne j k h e = h (ap (λ (l : Key). l.1) e)
