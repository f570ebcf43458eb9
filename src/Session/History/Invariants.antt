-- ===== src/Session/History/Invariants.antt =====
-- What every interleaving keeps: generations never fall, and a revocation stands
-- (internal/store/dynamodb/sessions.go).
use awesome_lambda_auth.Common.{ℕ, ◌+◌, String, ◌≡◌, Option, arith}
use awesome_lambda_auth.Database.{Value, Item, Contents}
use awesome_lambda_auth.Database.Expression.{get_n}
use awesome_lambda_auth.Session.{Session, session_key, rotation_cond, rotated}
use awesome_lambda_auth.Env.{Env}
use awesome_lambda_auth.Session.History.{History, here, then, GenFrom, RevokedBy}
use awesome_lambda_auth.Session.History.ItemSteps.{
  ItemStep, kept, gone, rotation, written, Step-ItemStep,
}

pub gen-rotated :
    (env : Env) (sess : Session) (i : Item) → get_n (rotated env sess i) "gen" ≡ get_n i "gen" + 1
unfolding rotated
gen-rotated env sess i = ground arith

ItemStep-GenFrom : (g : ℕ) {o o' : Option Item} → ItemStep o o' → GenFrom g o → GenFrom g o'
ItemStep-GenFrom g (kept o) h = h
ItemStep-GenFrom g (gone o) h = tt
ItemStep-GenFrom g (rotation env sess pre have_pre i allowed) h =
    omega (arith, gen-rotated env sess i, h)
ItemStep-GenFrom g (written i j same _ _) h = rw same h

ItemStep-RevokedBy :
    (at reason : Value) {o o' : Option Item}
    → ItemStep o o'
    → RevokedBy at reason o
    → RevokedBy at reason o'
unfolding rotation_cond
ItemStep-RevokedBy at reason (kept o) h = h
ItemStep-RevokedBy at reason (gone o) h = tt
ItemStep-RevokedBy at reason (rotation env sess pre have_pre i allowed) (h, _) =
    absurd (ground arith)
ItemStep-RevokedBy at reason (written i j _ stays keeps) (h, k) = (stays at h, keeps at reason h k)

pub History-GenFrom :
    (id : String) (g : ℕ) {start end : Contents}
    → History id start end
    → GenFrom g (start (session_key id))
    → GenFrom g (end (session_key id))
History-GenFrom id g here h = h
History-GenFrom id g (then past step) h =
    ItemStep-GenFrom g (Step-ItemStep step) (History-GenFrom id g past h)

-- Whatever other requests and the table's TTL do, a revoked session stays revoked, with the instant
-- and the reason of its first revocation, for as long as its item is there.
pub History-RevokedBy :
    (id : String) (at reason : Value) {start end : Contents}
    → History id start end
    → RevokedBy at reason (start (session_key id))
    → RevokedBy at reason (end (session_key id))
History-RevokedBy id at reason here h = h
History-RevokedBy id at reason (then past step) h =
    ItemStep-RevokedBy at reason (Step-ItemStep step) (History-RevokedBy id at reason past h)
