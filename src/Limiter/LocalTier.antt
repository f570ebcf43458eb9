-- ===== src/Limiter/LocalTier.antt =====
-- The in-process tier alone (`localRateLimiter`, cmd/auth/ratelimit.go).
use Prim.Native.Char.{Char}
use Prim.Native.String.{◌++◌}
use text.Mathlib.TextLemmas.{nil-append, cons-append}
use awesome_lambda_auth.Common.{
  length-insert-some, length-insert-le, inr, inl, Option-cases, ℕ, ◌+◌, ◌≤◌, String, ◌≡◌, ap, sym,
  ◌∙◌, arith, length, lookup,
}
use awesome_lambda_auth.Keys.Injective.{Lacks, split_at_sep}
use awesome_lambda_auth.Limiter.{
  LocalRateLimiter, local_key, enter_window, count_local, local_allow,
}

abbrev pub nul : Char
nul = "\0"

nul-append : (b : String) → "\0" ++ b ≡ String.◌∷◌ nul b
nul-append b = cons-append nul String.[] b ∙ ap (String.◌∷◌ nul) (nil-append b)

-- Two pairs never share an entry of the table, where the scopes hold no NUL.
pub local_key_injective :
    (scope subject scope' subject' : String)
    → Lacks nul scope
    → Lacks nul scope'
    → local_key scope subject ≡ local_key scope' subject'
    → (scope ≡ scope') × (subject ≡ subject')
unfolding local_key
local_key_injective scope subject scope' subject' h k e =
    split_at_sep nul scope subject scope' subject' h k (
      ap (λ s. scope ++ s) (sym (nul-append subject))
      ∙ e
      ∙ ap (λ s. scope' ++ s) (nul-append subject'))

count_local-bounded :
    (k : String) (l : LocalRateLimiter)
    → length l.counts ≤ l.max_subjects
    → length (count_local k l).0.counts ≤ (count_local k l).0.max_subjects
unfolding count_local
count_local-bounded k l h = elim (Option-cases (lookup k l.counts)) [
  | inl missing ↦ rw missing (ground (arith, length-insert-le k 1 l.counts))
  | inr (n, found) ↦ rw found (ground (arith, length-insert-some k (n + 1) n l.counts found))
]

-- A table that holds no more subjects than its cap never does, whatever subjects the requests name.
pub local_allow-bounded :
    (now : ℕ) (scope subject : String) (l : LocalRateLimiter)
    → length l.counts ≤ l.max_subjects
    → length (local_allow now scope subject l).0.counts
      ≤ (local_allow now scope subject l).0.max_subjects
unfolding local_allow enter_window
local_allow-bounded now scope subject l h =
    count_local-bounded (local_key scope subject) (enter_window now l) (ground arith)
