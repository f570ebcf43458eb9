-- ===== src/Configuration/Checks/Silence.antt =====
-- Checks that append nothing.
use awesome_lambda_auth.Common.{
  if◌then◌else◌, Bool, true, false, not, ◌⊎◌, inl, inr, List, [], ◌∷◌, ◌++◌, ◌≡◌, refl, ◌↔◌,
}
use awesome_lambda_auth.Configuration.Checks.{Diagnostic, report}

abbrev pub Silent : List Diagnostic → Type 0
Silent [] = Unit
Silent (d ∷ rest) = ⊥

pub Silent-append : (ds es : List Diagnostic) → Silent (ds ++ es) ↔ (Silent ds × Silent es)
Silent-append [] es = (λ h. (tt, h), λ h. h.1)
Silent-append (d ∷ ds) es = (λ h. absurd h, λ h. absurd h.0)

pub Silent-report : (b : Bool) (d : Diagnostic) → Silent (report b d) ↔ (b ≡ false)
Silent-report true d = (λ h. absurd h, λ h. cc)
Silent-report false d = (λ h. refl, λ h. tt)

pub Silent-eq : (ds : List Diagnostic) → Silent ds → ds ≡ []
Silent-eq [] h = refl
Silent-eq (d ∷ ds) h = absurd h

-- Two checks, one after the other, against what each of them leaves.
pub each :
    {P Q : Type 0} (ds es : List Diagnostic)
    → (Silent ds → P)
    → (Silent es → Q)
    → Silent (ds ++ es)
    → P × Q
each ds es p q h = let (left, right) = (Silent-append ds es).0 h in (p left, q right)

-- A check that is not looked at.
pub skip : (ds : List Diagnostic) → Silent ds → Unit {0}
skip ds h = tt

-- A block that is checked where it is switched on.
pub switch :
    (on : Bool) (ds : List Diagnostic)
    → Silent (if not on then [] else ds)
    → (on ≡ false) ⊎ Silent ds
switch true ds h = inr h
switch false ds h = inl refl

-- The second of two checks.
pub behind : {Q : Type 0} (ds es : List Diagnostic) → (Silent es → Q) → Silent (ds ++ es) → Q
behind ds es q h = q ((Silent-append ds es).0 h).1
