-- ===== src/Configuration/Load/Outcome.antt =====
-- What `load` concludes: the tree, or every problem that was found, in order.
use mathlib.Core.List.{Perm}
use awesome_lambda_auth.Common.{
  true, false, List, [], ◌∷◌, ◌≡◌, ◌≢◌, refl, inl, inr, none, some, str-cases, arith, eq_iff,
}
use awesome_lambda_auth.Configuration.Surfaces.{Config}
use awesome_lambda_auth.Configuration.Text.{Std}
use awesome_lambda_auth.Configuration.Sorting.Order.{le_text_total}
use awesome_lambda_auth.Configuration.Sorting.Sorted.{
  Ordered, sort_stable-perm, sort_stable-Ordered,
}
use awesome_lambda_auth.Configuration.Checks.{Diagnostic}
use awesome_lambda_auth.Configuration.Load.{
  warnings, Loaded, refused, loaded, Options, err, reported_before, resolved, reported, load,
}

reported_before_total :
    (a b : Diagnostic) → reported_before a b ≡ false → reported_before b a ≡ true
unfolding reported_before
reported_before_total a b h = elim (str-cases a.path b.path) [
  | inl (same, test) ↦
      ground (arith, le_text_total a.rule b.rule, eq_iff a.path b.path, eq_iff b.path a.path)
  | inr (other, test) ↦
      ground (arith, le_text_total a.path b.path, eq_iff a.path b.path, eq_iff b.path a.path)
]

-- A refusal lists all that was reported, each diagnostic as often, by path and rule; the tree is
-- answered where nothing was.
abbrev pub Concludes : List Diagnostic → Config → Loaded → Type 0
Concludes all c (refused list) = (all ≢ []) × Perm list all × Ordered reported_before list
Concludes all c (loaded c' warned) = (all ≡ []) × (c' ≡ c)

concludes :
    (all : List Diagnostic) (c : Config) (warned : List Diagnostic)
    → Concludes all c (elim (err all) [ some list ↦ refused list | none ↦ loaded c warned ])
unfolding err
concludes [] c warned = (refl, refl)
concludes (d ∷ rest) c warned = (
  λ e. cc,
  sort_stable-perm reported_before (d ∷ rest),
  sort_stable-Ordered reported_before reported_before_total (d ∷ rest),
)

module _ (x : Std) (opts : Options) (tree : Config) (layered : List Diagnostic) where
  -- Loading answers the resolved tree where no step reported anything; otherwise it refuses
  -- with a list that is a permutation of everything that was reported, ordered by path and,
  -- for one path, by rule.
  pub load_outcome :
      Concludes (reported x opts tree layered) (resolved x opts tree).0 (load x opts tree layered)
  unfolding load
  load_outcome = concludes (reported x opts tree layered) (resolved x opts tree).0 _

  -- With nothing to report, the tree is answered.
  pub load-loaded :
      reported x opts tree layered ≡ []
      → load x opts tree layered
        ≡ loaded (resolved x opts tree).0 (warnings x opts (resolved x opts tree).0)
  unfolding load err
  load-loaded silent = outcome (reported x opts tree layered) silent
    where
      outcome :
          (all : List Diagnostic)
          → all ≡ []
          → elim (err all) [
            | some list ↦ refused list
            | none ↦ loaded (resolved x opts tree).0 (warnings x opts (resolved x opts tree).0)
          ]
            ≡ loaded (resolved x opts tree).0 (warnings x opts (resolved x opts tree).0)
      outcome [] e = refl
      outcome (d ∷ rest) e = cc
