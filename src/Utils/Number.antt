-- ===== src/Utils/Number.antt =====
-- src/utils/number.cpp, over any type of floating-point numbers.
use clean_architecture_cpp.Base.{◌≡◌, ap, Bool}

-- What the comparison uses of `float` or `double`.
pub record Floating (F : Type 0) : Type 0 where
  pub minus : F → F → F
  pub fabs : F → F
  pub less : F → F → Bool
  pub epsilon : F

-- `compare_float` and `compare_double`
unfoldable pub compare_float : {F : Type 0} → Floating F → F → F → Bool
compare_float ops f g = ops.less (ops.fabs (ops.minus f g)) ops.epsilon

-- The comparison is symmetric, if the absolute value of a difference does not depend on its order.
pub compare_float_comm :
    {F : Type 0} (ops : Floating F) (f g : F)
    → ops.fabs (ops.minus f g) ≡ ops.fabs (ops.minus g f)
    → compare_float ops f g ≡ compare_float ops g f
unfolding compare_float
compare_float_comm ops f g e = ap (λ d. ops.less d ops.epsilon) e
