-- ===== src/Delivery/Model/Facet/Total.antt =====
-- That Snapshot.Facet of boatstack/internal/softwaredelivery/model/facet.go knows each controlling facet.
use boatstack.Base.{
  String, true, ◌==◌, some, List, [], ◌∷◌, map, contains, ◌≡◌, refl, arith, inl, inr, Bool-cases,
}
use boatstack.Delivery.Model.FacetName.{FacetName, is_controlling}
use boatstack.Delivery.Model.Observation.{Snapshot}
use boatstack.Delivery.Model.Facet.{FacetView, controlling_views, facet, lookup}

contains-lookup :
    {V : Type 0} (m : List (String × V)) (key : String)
    → contains (map (λ entry. entry.0) m) key ≡ true
    → (v : V) × (lookup m key ≡ some v)
unfolding contains
contains-lookup [] key h = cc
contains-lookup ((k, v) ∷ m) key h = elim (Bool-cases (k == key)) [
  | inl e ↦ (v, rw e refl)
  | inr e ↦ let (w, found) = contains-lookup m key (ground (arith)) in (w, rw e found)
]

-- Every controlling facet has a status and a value in every snapshot.
pub facet-is_controlling :
    (s : Snapshot) (name : FacetName)
    → is_controlling name ≡ true
    → (view : FacetView) × (facet s name ≡ some view)
unfolding facet
facet-is_controlling s name h =
    let (view, found) = contains-lookup (controlling_views s) name h in (view, rw found refl)
