-- ===== src/Delivery/Model/Contexts/Policy.antt =====
-- The canonical form of a configuration policy that ConfigurationPolicy.Validate accepts.
use boatstack.Base.{
  String, true, false, not, ◌&&◌, ◌||◌, ◌==◌, eq_iff, List, [], ◌∷◌, contains, is_empty, In,
  contains→In, In→contains, All, ◌≡◌, ◌∙◌, refl, arith,
}
use boatstack.Base.Text.{str_ltb, str_ltb-unlike}
use boatstack.Base.Sort.{is_empty-sort, sort, In-of_sort, All-sort}
use boatstack.Kernel.Error.{ok, check-then, refuse_if-then, refuse_if-eq-ok}
use boatstack.Kernel.Capability.Normal.{IsAscending, IsDistinct, sort-IsAscending}
use boatstack.Delivery.Model.Contexts.{ConfigurationPolicy, canonical, check_hosts, validate_policy}

-- Each host that the loop accepts has a name, and is none of those seen before.
hosts-inverse :
    (seen hosts : List String)
    → check_hosts seen hosts ≡ ok tt
    → All (λ h. (h == "") ≡ false) hosts
      × All (λ h. contains seen h ≡ false) hosts
      × IsDistinct hosts
unfolding check_hosts contains
hosts-inverse seen [] h = (tt, tt, tt)
hosts-inverse seen (x ∷ xs) h =
    let (fresh, h) = refuse_if-then (x == "" || contains seen x) _ _ h in
    let (full, apart, distinct) = hosts-inverse (x ∷ seen) xs h in
    ((ground arith, full), (ground arith, split xs apart), (other xs apart, distinct))
  where
    split :
        (ys : List String)
        → All (λ y. contains (x ∷ seen) y ≡ false) ys
        → All (λ y. contains seen y ≡ false) ys
    split [] h = tt
    split (y ∷ ys) h = (ground (arith, h.0), split ys h.1)

    other : (ys : List String) → All (λ y. contains (x ∷ seen) y ≡ false) ys → contains ys x ≡ false
    other [] h = refl
    other (y ∷ ys) h = ground (arith, h.0, other ys h.1, eq_iff x y, eq_iff y x)

apart_next :
    (seen : List String) (x : String) (ys : List String)
    → All (λ y. str_ltb x y ≡ true) ys
    → All (λ y. contains seen y ≡ false) ys
    → All (λ y. contains (x ∷ seen) y ≡ false) ys
unfolding contains
apart_next seen x [] above apart = tt
apart_next seen x (y ∷ ys) above apart =
    (rw (str_ltb-unlike x y above.0) apart.0, apart_next seen x ys above.1 apart.1)

hosts_ascending :
    (seen hosts : List String)
    → All (λ h. (h == "") ≡ false) hosts
    → All (λ h. contains seen h ≡ false) hosts
    → IsAscending hosts
    → check_hosts seen hosts ≡ ok tt
unfolding check_hosts
hosts_ascending seen [] full apart h = refl
hosts_ascending seen (x ∷ xs) full apart h =
    rw (full.0, apart.0)
      (hosts_ascending (x ∷ seen) xs full.1 (apart_next seen x xs h.0 apart.1) h.1)

nothing_seen : (xs : List String) → All (λ h. contains [] h ≡ false) xs
unfolding contains
nothing_seen [] = tt
nothing_seen (x ∷ xs) = (refl, nothing_seen xs)

-- The canonical form of a valid policy is valid, and has its hosts in ascending order.
pub canonical-valid :
    (p : ConfigurationPolicy)
    → validate_policy p ≡ ok tt
    → (validate_policy (canonical p) ≡ ok tt) × IsAscending (canonical p).hosts
unfolding validate_policy canonical
canonical-valid p h =
    let (plan, h) =
      refuse_if-then
        (not (p.plan_approval == "human") && not (p.plan_approval == "human-or-autonomy")) _ _ h in
    let (visual, h) =
      refuse_if-then
        (not (p.visual_evidence == "off")
          && not (p.visual_evidence == "optional")
          && not (p.visual_evidence == "required"))
        _ _ h in
    let (external, h) =
      refuse_if-then (not (p.external_effect_authority == "human-or-autonomy-plus-provider")) _ _
        h in
    let (some_host, h) = refuse_if-then (is_empty p.hosts) _ _ h in
    let (hosts, cli) = check-then (check_hosts [] p.hosts) _ h in
    let has_cli = refuse_if-eq-ok (not (contains p.hosts "cli")) _ cli in
    let (full, _, distinct) = hosts-inverse [] p.hosts hosts in
    let ascending = sort-IsAscending p.hosts distinct in
    let cli_in : In "cli" (sort str_ltb p.hosts) =
      In-of_sort str_ltb "cli" p.hosts (contains→In p.hosts "cli" (ground arith)) in
    let still = In→contains (sort str_ltb p.hosts) "cli" cli_in in
    let empty_sort = is_empty-sort str_ltb p.hosts ∙ some_host in
    let checked =
      hosts_ascending [] (sort str_ltb p.hosts)
        (All-sort str_ltb (λ h. (h == "") ≡ false) p.hosts full)
        (nothing_seen (sort str_ltb p.hosts)) ascending in
    (rw (plan, visual, external, empty_sort, checked, still) refl, ascending)
