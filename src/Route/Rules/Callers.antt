-- ===== src/Route/Rules/Callers.antt =====
-- That what the caller satisfies passes `validate_satisfied_capabilities` (src/context_route.rs).
use workspace_atlas.Common.{
  ℕ, ◌≡◌, refl, ◌∙◌, ap, ◌<◌, Bool, true, false, List, [], ◌∷◌, Option, none, some, ok, arith, any,
  contains, set_of, set_insert, Ascending,
}
use workspace_atlas.Route.Vocabulary.{
  Route, RequiredCapability, CallerCapabilityState, capability_rank,
}
use workspace_atlas.Route.Request.{Capabilities}
use workspace_atlas.Route.Signals.{keys}
use workspace_atlas.Route.Decided.{ContextRouteDecision}
use workspace_atlas.Route.Attempt.{RouteDeficit, RouteFailureReason}
use workspace_atlas.Route.Dispatch.{satisfied_by_caller}
use workspace_atlas.Route.Rules.{
  get, unserved, deficit_capabilities, validate_satisfied_capabilities,
}

-- Everything in the list stands above the bound.
abbrev Above : ℕ → List RequiredCapability → Type 0
Above n l = (c : RequiredCapability) → contains capability_rank c l ≡ true → n < capability_rank c

tail-Ascending :
    (c : RequiredCapability) (l : List RequiredCapability)
    → Ascending capability_rank (c ∷ l)
    → Ascending capability_rank l
tail-Ascending c [] a = tt
tail-Ascending c (k ∷ l) a = a.1

Ascending-Above :
    (c : RequiredCapability) (l : List RequiredCapability)
    → Ascending capability_rank (c ∷ l)
    → Above (capability_rank c) l
Ascending-Above c [] a z h = cc
Ascending-Above c (k ∷ l) a z h = ground (arith, Ascending-Above k l (tail-Ascending c (k ∷ l) a) z)

set_of-id :
    (l : List RequiredCapability) → Ascending capability_rank l → set_of capability_rank l ≡ l
unfolding set_of set_insert
set_of-id [] a = refl
set_of-id (c ∷ []) a = refl
set_of-id (c ∷ k ∷ l) a = ap (set_insert capability_rank c) (set_of-id (k ∷ l) a.1) ∙ ground arith

satisfied-keys :
    (c : RequiredCapability) (m : Capabilities)
    → contains capability_rank c (satisfied_by_caller m) ≡ true
    → contains capability_rank c (keys m) ≡ true
unfolding satisfied_by_caller
satisfied-keys c [] h = cc
satisfied-keys c ((k, CallerCapabilityState.satisfied) ∷ m) h = ground (arith, satisfied-keys c m)
satisfied-keys c ((k, CallerCapabilityState.unsatisfied) ∷ m) h = ground (arith, satisfied-keys c m)
satisfied-keys c ((k, CallerCapabilityState.unknown) ∷ m) h = ground (arith, satisfied-keys c m)

Ascending-cons :
    (c : RequiredCapability) (l : List RequiredCapability)
    → Above (capability_rank c) l
    → Ascending capability_rank l
    → Ascending capability_rank (c ∷ l)
Ascending-cons c [] h a = tt
Ascending-cons c (k ∷ l) h a = (h k (ground arith), a)

pub satisfied-Ascending :
    (m : Capabilities)
    → Ascending capability_rank (keys m)
    → Ascending capability_rank (satisfied_by_caller m)
unfolding satisfied_by_caller
satisfied-Ascending [] a = tt
satisfied-Ascending ((k, CallerCapabilityState.satisfied) ∷ m) a =
    Ascending-cons k (satisfied_by_caller m)
      (λ c h. Ascending-Above k (keys m) a c (satisfied-keys c m h))
      (satisfied-Ascending m (tail-Ascending k (keys m) a))
satisfied-Ascending ((k, CallerCapabilityState.unsatisfied) ∷ m) a =
    satisfied-Ascending m (tail-Ascending k (keys m) a)
satisfied-Ascending ((k, CallerCapabilityState.unknown) ∷ m) a =
    satisfied-Ascending m (tail-Ascending k (keys m) a)

get-satisfied :
    (c : RequiredCapability) (m : Capabilities)
    → Ascending capability_rank (keys m)
    → contains capability_rank c (satisfied_by_caller m) ≡ true
    → get c m ≡ some CallerCapabilityState.satisfied
unfolding get satisfied_by_caller
get-satisfied c [] a h = cc
get-satisfied c ((k, CallerCapabilityState.satisfied) ∷ m) a h =
    ground (arith, get-satisfied c m (tail-Ascending k (keys m) a))
get-satisfied c ((k, CallerCapabilityState.unsatisfied) ∷ m) a h = ground (
  arith,
  get-satisfied c m (tail-Ascending k (keys m) a) h,
  Ascending-Above k (keys m) a c (satisfied-keys c m h),
)
get-satisfied c ((k, CallerCapabilityState.unknown) ∷ m) a h = ground (
  arith,
  get-satisfied c m (tail-Ascending k (keys m) a) h,
  Ascending-Above k (keys m) a c (satisfied-keys c m h),
)

any-absent :
    (p : RequiredCapability → Bool) (l : List RequiredCapability)
    → ((c : RequiredCapability) → contains capability_rank c l ≡ true → p c ≡ false)
    → any p l ≡ false
any-absent p [] h = refl
any-absent p (c ∷ l) h =
    ground (arith, h c (ground arith), any-absent p l (λ k q. h k (ground arith)))

unserved-satisfied :
    (route : Option Route) (c : RequiredCapability)
    → unserved (some CallerCapabilityState.satisfied) route c ≡ false
unfolding unserved
unserved-satisfied none c = refl
unserved-satisfied (some r) c = refl

unserved-none :
    (m : Capabilities) (route : Option Route)
    → Ascending capability_rank (keys m)
    → any (λ c. unserved (get c m) route c) (satisfied_by_caller m) ≡ false
unserved-none m route a =
    any-absent (λ c. unserved (get c m) route c) (satisfied_by_caller m)
      (λ c h. rw (get-satisfied c m a h) (unserved-satisfied route c))

-- What the caller satisfies is accepted beside a route failure, on any route.
pub caller_satisfied_ok :
    (d : ContextRouteDecision) (failure : RouteFailureReason) (route : Option Route)
    → Ascending capability_rank (keys d.requested_capabilities)
    → validate_satisfied_capabilities d
        (satisfied_by_caller d.requested_capabilities)
        (RouteDeficit.route failure ∷ [])
        route
        false
        false
      ≡ ok tt
unfolding validate_satisfied_capabilities deficit_capabilities
caller_satisfied_ok d failure route a =
    let m = d.requested_capabilities in
    ground
      (arith, set_of-id (satisfied_by_caller m) (satisfied-Ascending m a), unserved-none m route a)
