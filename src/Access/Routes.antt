-- ===== src/Access/Routes.antt =====
-- What the check of routes keeps from agents without permissions
-- (backend/src/modules/business/application/permissions.ts).
use mathlib.Core.Path.{subst}
use oculus_business.Common.{
  Bool, true, false, not, ◌&&◌, ◌||◌, Option, none, some, List, [], ◌∷◌, find, take, ◌≡◌, inl, inr,
  refl, arith, Has, Bool-cases,
}
use oculus_business.Common.Text.{Text, lit, text_eq}
use oculus_business.Common.Outcome.{is_ok}
use oculus_business.Identity.{User, agent, same_role}
use oculus_business.Access.{
  Actor, LogEntry, get_user_for_agent_check, AgentAccess, capability, human, admin_role, anyone,
  RouteRule, is_rule, access_of, assert_route_allowed, AgentCapability,
}
use oculus_business.Access.Policy.{route_policy}
use oculus_business.Access.Laws.{
  IsAllowed, IsGranted, IsListed, assert_route_allowed-IsAllowed, agent_only,
}

-- The entries of finance, and those that delete.
abbrev pub is_sensitive : RouteRule → Bool
unfolding text_eq
is_sensitive r = text_eq (take 8 r.area) (lit "finance.") || text_eq r.method (lit "DELETE")

-- A rule that an agent without permissions does not meet.
abbrev pub is_closed : Option AgentAccess → Bool
is_closed none = false
is_closed (some anyone) = false
is_closed (some human) = true
is_closed (some admin_role) = true
is_closed (some (capability c)) = true

-- The rule that the check finds for the area and method of an entry is closed.
unfoldable is_guarded : RouteRule → Bool
unfolding is_rule
is_guarded r = is_closed (access_of (find (is_rule r.area r.method) route_policy))

abbrev all_guarded : List RouteRule → Bool
all_guarded [] = true
all_guarded (r ∷ rs) = (not (is_sensitive r) || is_guarded r) && all_guarded rs

route_policy-guarded : all_guarded route_policy ≡ true
unfolding route_policy is_guarded text_eq
route_policy-guarded = refl

guarded-Has :
    (r : RouteRule) (rs : List RouteRule)
    → all_guarded rs ≡ true
    → Has r rs
    → is_sensitive r ≡ true
    → is_guarded r ≡ true
guarded-Has r [] g m s = elim m [ ]
guarded-Has r (x ∷ rs) g (inl e) s =
    subst (λ (y : RouteRule). is_sensitive y ≡ true → is_guarded y ≡ true) e (λ q. ground arith) s
guarded-Has r (x ∷ rs) g (inr m) s = guarded-Has r rs (ground arith) m s

abbrev pub is_empty_list : Option (List Text) → Bool
is_empty_list none = true
is_empty_list (some []) = true
is_empty_list (some (p ∷ ps)) = false

-- The row gives no permission.
abbrev pub is_permissionless : Option User → Bool
is_permissionless none = true
is_permissionless (some u) = is_empty_list u.agent_permissions

unlisted :
    (c : AgentCapability) (o : Option (List Text)) → is_empty_list o ≡ true → IsListed c o → ⊥
unlisted c none e m = m
unlisted c (some []) e m = m
unlisted c (some (p ∷ ps)) e m = cc

ungranted : (c : AgentCapability) (o : Option User) → is_permissionless o ≡ true → IsGranted c o → ⊥
ungranted c none e m = m
ungranted c (some u) e m = unlisted c u.agent_permissions e m

closed-refused :
    (users : List User) (actor : Actor) (o : Option AgentAccess)
    → is_closed o ≡ true
    → same_role actor.role agent ≡ true
    → is_permissionless (get_user_for_agent_check actor.user_id users) ≡ true
    → IsAllowed users actor o
    → ⊥
closed-refused users actor none k e p h = cc
closed-refused users actor (some anyone) k e p h = cc
closed-refused users actor (some human) k e p h = cc
closed-refused users actor (some admin_role) k e p h = let (a, b) = agent_only actor.role e in cc
closed-refused users actor (some (capability c)) k e p (inl h) = cc
closed-refused users actor (some (capability c)) k e p (inr g) = ungranted c _ p g

-- For each entry of the table of routes whose method is DELETE or whose area is of finance: the check
-- of that area and method refuses an agent whose row gives no permission. Of a route that is not in
-- the table, or does not run the check, this says nothing.
pub assert_route_allowed-is_sensitive :
    (r : RouteRule) (users : List User) (actor : Actor) (log : List LogEntry)
    → Has r route_policy
    → is_sensitive r ≡ true
    → same_role actor.role agent ≡ true
    → is_permissionless (get_user_for_agent_check actor.user_id users) ≡ true
    → is_ok (assert_route_allowed route_policy users actor r.area r.method log).0 ≡ false
unfolding is_guarded
assert_route_allowed-is_sensitive r users actor log m s e p =
    let answer = is_ok (assert_route_allowed route_policy users actor r.area r.method log).0 in
    let allowed = assert_route_allowed-IsAllowed route_policy users actor r.area r.method log in
    elim (Bool-cases answer) [
      | inr h ↦ h
      | inl h ↦
          elim (closed-refused users actor _ (guarded-Has r route_policy route_policy-guarded m s) e
            p (allowed.0 h)) [ ]
    ]
