-- ===== src/Configuration/Sorting/Order.antt =====
-- The order of texts decides each pair.
use Prim.Native.Nat.{Ordering, compare as compare_ℕ}
use Prim.Native.Char.{code}
use Prim.Native.String.{compare, then}
use Prim.Native.String.compare.{nil-cons, cons-nil, cons-cons}
use awesome_lambda_auth.Common.{ℕ, String, true, false, ◌≡◌, refl, arith}
use awesome_lambda_auth.Configuration.Sorting.{le_order, le_text}

-- What the order of `b` and `a` is when that of `a` and `b` is the argument.
abbrev pub flip : Ordering → Ordering
flip Ordering.lt = Ordering.gt
flip Ordering.eq = Ordering.eq
flip Ordering.gt = Ordering.lt

compare_code_flip : (m n : ℕ) → compare_ℕ n m ≡ flip (compare_ℕ m n)
compare_code_flip m n = ground arith

flip-then : (o p : Ordering) → then (flip o) (flip p) ≡ flip (then o p)
flip-then Ordering.lt p = refl
flip-then Ordering.eq p = refl
flip-then Ordering.gt p = refl

pub compare-flip : (a b : String) → compare b a ≡ flip (compare a b)
compare-flip String.[] String.[] = refl
compare-flip String.[] (String.◌∷◌ d t) = rw (cons-nil d t, nil-cons d t) refl
compare-flip (String.◌∷◌ c s) String.[] = rw (cons-nil c s, nil-cons c s) refl
compare-flip (String.◌∷◌ c s) (String.◌∷◌ d t) =
    rw (cons-cons c d s t, cons-cons d c t s, compare_code_flip (code c) (code d), compare-flip s t)
      (flip-then (compare_ℕ (code c) (code d)) (compare s t))

le_order-flip : (o : Ordering) → le_order o ≡ false → le_order (flip o) ≡ true
le_order-flip Ordering.lt h = cc
le_order-flip Ordering.eq h = cc
le_order-flip Ordering.gt h = refl

pub le_text_total : (a b : String) → le_text a b ≡ false → le_text b a ≡ true
unfolding le_text
le_text_total a b h = rw (compare-flip a b) (le_order-flip (compare a b) h)
