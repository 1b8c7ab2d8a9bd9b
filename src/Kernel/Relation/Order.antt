-- ===== src/Kernel/Relation/Order.antt =====
-- The order in which boatstack/kernel/relation.go prefers candidates.
use boatstack.Base.{◌≡◌, refl, Bool, true, false, not, ◌&&◌, ◌||◌, List, [], ◌∷◌, arith, All, keep}
use boatstack.Base.Int.{ltb_ℤ, eqb_ℤ}
use boatstack.Base.Text.{str_ltb_asym, str_ltb_neg_trans}
use boatstack.Base.Sort.{IsStrictWeak}
use boatstack.Kernel.Relation.{RelationCandidate, candidate_before, as_preferred}

-- `a` has a better rank than `b`, or the same rank and a better priority.
abbrev pub outranks : RelationCandidate → RelationCandidate → Bool
outranks a b = ltb_ℤ a.rank b.rank || eqb_ℤ a.rank b.rank && ltb_ℤ a.priority b.priority

before_asym : (a b : RelationCandidate) → candidate_before a b ≡ true → candidate_before b a ≡ false
before_asym a b h = ground (arith, str_ltb_asym a.id b.id)

before_trans :
    (a b c : RelationCandidate)
    → candidate_before b a ≡ false
    → candidate_before c b ≡ false
    → candidate_before c a ≡ false
before_trans a b c h k = ground (arith, str_ltb_neg_trans a.id b.id c.id)

pub candidate_order : IsStrictWeak candidate_before
candidate_order = record { asym = before_asym; trans = before_trans }

-- Of what does not come before `top`, the candidates as preferred as `top` are those that it does
-- not outrank.
pub equals_of_sorted :
    (top : RelationCandidate) (xs : List RelationCandidate)
    → All (λ x. candidate_before x top ≡ false) xs
    → keep (as_preferred top) xs ≡ keep (λ x. not (outranks top x)) xs
equals_of_sorted top [] h = refl
equals_of_sorted top (x ∷ xs) h = ground (arith, h.0, equals_of_sorted top xs h.1)

pub not_outranks_self : (a : RelationCandidate) → outranks a a ≡ false
not_outranks_self a = ground arith

pub before_of_outranks :
    (a b : RelationCandidate) → outranks a b ≡ true → candidate_before a b ≡ true
before_of_outranks a b h = ground arith
