-- ===== src/Route/Rules/Collected.antt =====
-- What the loop over the deficits in `validate_satisfied_capabilities` (src/context_route.rs)
-- collects.
use workspace_atlas.Common.{
  ℕ, zero, suc, ◌≤◌, if◌then◌else◌, ◌≡◌, refl, Bool, true, false, not, ◌||◌, List, [], ◌∷◌, ok,
  arith, ◌==◌, contains, set_insert, Ascending, set_insert-Ascending, contains-set_insert,
}
use workspace_atlas.Route.Vocabulary.{RequiredCapability, capability_rank}
use workspace_atlas.Route.Request.{Capabilities}
use workspace_atlas.Route.Signals.{keys}
use workspace_atlas.Route.Attempt.{RouteDeficit, CapabilityDeficitReason}
use workspace_atlas.Route.Rules.{is_absent, get, deficit_capabilities}

-- Some deficit is about the capability; the capability is requested.
abbrev pub deficient : RequiredCapability → List RouteDeficit → Bool
deficient c [] = false
deficient c (RouteDeficit.capability k reason ∷ l) =
    capability_rank c == capability_rank k || deficient c l
deficient c (RouteDeficit.route reason ∷ l) = deficient c l

-- How many of the deficits are about the capability.
abbrev pub times_deficient : RequiredCapability → List RouteDeficit → ℕ
times_deficient c [] = zero
times_deficient c (RouteDeficit.capability k reason ∷ l) =
    let rest = times_deficient c l in
    if capability_rank c == capability_rank k then suc rest else rest
times_deficient c (RouteDeficit.route reason ∷ l) = times_deficient c l

pub times-deficient :
    (c : RequiredCapability) (l : List RouteDeficit)
    → deficient c l ≡ true
    → 1 ≤ times_deficient c l
times-deficient c [] h = cc
times-deficient c (RouteDeficit.capability k reason ∷ l) h = ground (arith, times-deficient c l)
times-deficient c (RouteDeficit.route reason ∷ l) h = times-deficient c l h

pub times-not_deficient :
    (c : RequiredCapability) (l : List RouteDeficit)
    → deficient c l ≡ false
    → times_deficient c l ≡ 0
times-not_deficient c [] h = refl
times-not_deficient c (RouteDeficit.capability k reason ∷ l) h =
    ground (arith, times-not_deficient c l)
times-not_deficient c (RouteDeficit.route reason ∷ l) h = times-not_deficient c l h

abbrev pub requested : RequiredCapability → Capabilities → Bool
requested c m = contains capability_rank c (keys m)

pub is_absent-get :
    (c : RequiredCapability) (m : Capabilities) → is_absent (get c m) ≡ not (requested c m)
unfolding get
is_absent-get c [] = refl
is_absent-get c ((k, state) ∷ m) = ground (arith, is_absent-get c m)

-- What the loop over the deficits has collected.
pub record Collected (m : Capabilities) (satisfied seen : List RequiredCapability)
    (l : List RouteDeficit) (out : List RequiredCapability) : Type 0 where
  pub ascending : Ascending capability_rank out
  pub members :
      (c : RequiredCapability)
      → contains capability_rank c out ≡ (contains capability_rank c seen || deficient c l)
  pub asked : (c : RequiredCapability) → deficient c l ≡ true → requested c m ≡ true
  pub unsatisfied :
      (c : RequiredCapability) → deficient c l ≡ true → contains capability_rank c satisfied ≡ false
  pub once : (c : RequiredCapability) → times_deficient c l ≤ 1
  pub unseen :
      (c : RequiredCapability) → contains capability_rank c seen ≡ true → times_deficient c l ≡ 0

contains-same :
    (z k : RequiredCapability) (l : List RequiredCapability)
    → capability_rank z ≡ capability_rank k
    → contains capability_rank z l ≡ contains capability_rank k l
contains-same z k [] e = refl
contains-same z k (y ∷ l) e = ground (arith, contains-same z k l)

deficit_capabilities-eq-ok :
    (m : Capabilities) (satisfied seen : List RequiredCapability) (k : RequiredCapability)
    (reason : CapabilityDeficitReason) (l : List RouteDeficit) {out : List RequiredCapability}
    → deficit_capabilities m satisfied seen (RouteDeficit.capability k reason ∷ l) ≡ ok out
    → (is_absent (get k m) ≡ false)
      × (contains capability_rank k seen ≡ false)
      × (contains capability_rank k satisfied ≡ false)
      × (deficit_capabilities m satisfied (set_insert capability_rank k seen) l ≡ ok out)
unfolding deficit_capabilities
deficit_capabilities-eq-ok m satisfied seen k reason l h =
    (ground arith, ground arith, ground arith, ground arith)

pub deficit_capabilities-Collected :
    (m : Capabilities) (satisfied seen : List RequiredCapability) (l : List RouteDeficit)
    {out : List RequiredCapability}
    → Ascending capability_rank seen
    → deficit_capabilities m satisfied seen l ≡ ok out
    → Collected m satisfied seen l out
unfolding deficit_capabilities
deficit_capabilities-Collected m satisfied seen [] a h = record {
  ascending = ground arith;
  members = λ c. ground arith;
  asked = λ c q. cc;
  unsatisfied = λ c q. cc;
  once = λ c. omega arith;
  unseen = λ c q. refl;
}
deficit_capabilities-Collected m satisfied seen (RouteDeficit.route reason ∷ l) a h =
    let rest = deficit_capabilities-Collected m satisfied seen l a h in
    record {
      ascending = rest.ascending;
      members = rest.members;
      asked = rest.asked;
      unsatisfied = rest.unsatisfied;
      once = rest.once;
      unseen = rest.unseen;
    }
deficit_capabilities-Collected m satisfied seen (RouteDeficit.capability k reason ∷ l) a h =
    let (asked, unseen, unsatisfied, h1) =
      deficit_capabilities-eq-ok m satisfied seen k reason l h in
    let rest =
      deficit_capabilities-Collected m satisfied (set_insert capability_rank k seen) l
        (set_insert-Ascending capability_rank k seen a) h1 in
    record {
      ascending = rest.ascending;
      members = λ c. ground (arith, rest.members c, contains-set_insert capability_rank c k seen);
      asked = λ c q. ground (arith, rest.asked c, is_absent-get k m, contains-same c k (keys m));
      unsatisfied = λ c q. ground (arith, rest.unsatisfied c, contains-same c k satisfied);
      once = λ c.
          ground (arith, rest.once c, rest.unseen c, contains-set_insert capability_rank c k seen);
      unseen = λ c q. ground (
        arith,
        rest.unseen c,
        contains-set_insert capability_rank c k seen,
        contains-same c k seen,
      );
    }
