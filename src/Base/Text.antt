-- ===== src/Base/Text.antt =====
-- The order of Go strings, which is that of their UTF-8 bytes, and so of the characters' numbers.
use Prim.Native.Nat.{Ordering}
use Prim.Native.String.{compare}
use Prim.Native.String.compare
use text.Mathlib.Text.{is_lt, ◌==◌}
use text.Mathlib.TextEquality.{path_by_compare, eq_iff}
use text.Mathlib.TextPositions.{compare_refl}
use boatstack.Base.Names.{◌≡◌, refl, sym, subst, ◌⊎◌, inl, inr, Bool, true, false, String, arith}
use boatstack.Base.Tests.{Bool-cases}

-- `s < t`
unfoldable pub str_ltb : String → String → Bool
str_ltb s t = is_lt (compare s t)

abbrev flip : Ordering → Ordering
flip Ordering.lt = Ordering.gt
flip Ordering.eq = Ordering.eq
flip Ordering.gt = Ordering.lt

compare-flip : (s t : String) → compare t s ≡ flip (compare s t)
compare-flip String.[] String.[] = refl
compare-flip String.[] (String.◌∷◌ d t) = rw (compare.cons-nil d t, compare.nil-cons d t)
compare-flip (String.◌∷◌ c s) String.[] = rw (compare.cons-nil c s, compare.nil-cons c s)
compare-flip (String.◌∷◌ c s) (String.◌∷◌ d t) =
    rw (compare.cons-cons c d s t, compare.cons-cons d c t s) (ground (arith, compare-flip s t))

nothing_below_nil : (s : String) → ¬ (compare s String.[] ≡ Ordering.lt)
nothing_below_nil String.[] h = cc
nothing_below_nil (String.◌∷◌ c s) h = cc (compare.cons-nil c s)

compare-lt_trans :
    (s t u : String)
    → compare s t ≡ Ordering.lt
    → compare t u ≡ Ordering.lt
    → compare s u ≡ Ordering.lt
compare-lt_trans s t String.[] h k = absurd (nothing_below_nil t k)
compare-lt_trans String.[] t (String.◌∷◌ e u) h k = compare.nil-cons e u
compare-lt_trans (String.◌∷◌ c s) String.[] (String.◌∷◌ e u) h k =
    absurd (nothing_below_nil (String.◌∷◌ c s) h)
compare-lt_trans (String.◌∷◌ c s) (String.◌∷◌ d t) (String.◌∷◌ e u) h k =
    rw (compare.cons-cons c e s u) (
      ground (
        arith,
        rw (compare.cons-cons c d s t) at h,
        rw (compare.cons-cons d e t u) at k,
        compare-lt_trans s t u,
      ))

-- The order is strict and total.
pub str_ltb_irrefl : (s : String) → str_ltb s s ≡ false
unfolding str_ltb
str_ltb_irrefl s = rw (compare_refl s)

pub str_ltb_asym : (s t : String) → str_ltb s t ≡ true → str_ltb t s ≡ false
unfolding str_ltb
str_ltb_asym s t h = ground (arith, compare-flip s t)

pub str_ltb_trans : (s t u : String) → str_ltb s t ≡ true → str_ltb t u ≡ true → str_ltb s u ≡ true
unfolding str_ltb
str_ltb_trans s t u h k = ground (arith, compare-lt_trans s t u)

pub str_ltb_total : (s t : String) → (str_ltb s t ≡ true) ⊎ (s ≡ t) ⊎ (str_ltb t s ≡ true)
unfolding str_ltb
str_ltb_total s t = ground (arith, compare-flip s t, path_by_compare s t)

pub str_ltb_neg_trans :
    (s t u : String) → str_ltb t s ≡ false → str_ltb u t ≡ false → str_ltb u s ≡ false
str_ltb_neg_trans s t u h k = ground (arith, str_ltb_total u t, str_ltb_trans t u s)

-- What is less is not equal.
pub str_ltb-unlike : (x y : String) → str_ltb x y ≡ true → (x == y) ≡ false
str_ltb-unlike x y h = elim (Bool-cases (x == y)) [
  | inl e ↦
      let same : x ≡ y = ground (arith, eq_iff x y) in
      let gt : str_ltb y x ≡ true =
        subst (λ z. str_ltb z x ≡ true) same (subst (λ z. str_ltb x z ≡ true) (sym same) h) in
      absurd (ground (arith, str_ltb_asym x y h))
  | inr e ↦ e
]
