-- ===== src/Access/Laws.antt =====
-- Who passes the checks of the business module, and that refusals are logged
-- (backend/src/modules/business/application).
use mathlib.Core.Path.{subst}
use oculus_business.Common.{
  suc, Bool, true, false, Option, none, some, List, [], ◌∷◌, find, length, ◌≡◌, ◌↔◌, ◌⊎◌, inl, inr,
  refl, arith, Has, Bool-cases, if◌then◌else◌, sym,
}
use oculus_business.Common.Text.{Text, text_eq, text_eq_refl, text_eq-eq}
use oculus_business.Common.Outcome.{Outcome, ok, fail, is_ok}
use oculus_business.Identity.{User, Role, user, admin, agent, same_role}
use oculus_business.Access.{
  AgentCapability, name_of, permissions_of, includes, ensure_capability, Actor, LogEntry,
  log_refusal, get_user_for_agent_check, permissions_in, principal_of, logged, assert_capability,
  AgentAccess, capability, human, admin_role, anyone, RouteRule, assert_access, is_rule, access_of,
  assert_route_allowed, AccessMessage,
}

includes_iff : (s : Text) (ps : List Text) → (includes s ps ≡ true) ↔ Has s ps
unfolding includes
includes_iff s [] = ((λ h. cc), (λ m. elim m [ ]))
includes_iff s (p ∷ ps) = (
  (λ h. ground (arith, text_eq-eq s p, includes_iff s ps)),
  (λ m. elim m [
    | inl e ↦ ground (arith, subst (λ z. text_eq s z ≡ true) (sym e) (text_eq_refl s))
    | inr q ↦ ground (arith, (includes_iff s ps).1 q)
  ]),
)

abbrev pub IsListed : AgentCapability → Option (List Text) → Type 0
IsListed c none = ⊥
IsListed c (some ps) = Has (name_of c) ps

-- The row gives the capability.
abbrev pub IsGranted : AgentCapability → Option User → Type 0
IsGranted c none = ⊥
IsGranted c (some u) = IsListed c u.agent_permissions

-- Who may pass, in words of its own.
abbrev pub IsAllowed : List User → Actor → Option AgentAccess → Type 0
IsAllowed users actor none = Unit
IsAllowed users actor (some anyone) = Unit
IsAllowed users actor (some human) = same_role actor.role agent ≡ false
IsAllowed users actor (some admin_role) = same_role actor.role admin ≡ true
IsAllowed users actor (some (capability c)) =
    (same_role actor.role agent ≡ false)
    ⊎ IsGranted c (get_user_for_agent_check actor.user_id users)

pub agent_only :
    (r : Role) → same_role r agent ≡ true → (same_role r admin ≡ false) × (same_role r user ≡ false)
agent_only Role.user h = cc
agent_only Role.admin h = cc
agent_only Role.agent h = (refl, refl)

-- The same as tests.
abbrev pub names_capability : AgentCapability → Option (List Text) → Bool
names_capability c none = false
names_capability c (some ps) = includes (name_of c) ps

abbrev pub grants : AgentCapability → Option User → Bool
grants c none = false
grants c (some u) = names_capability c u.agent_permissions

grants-includes :
    (c : AgentCapability) (role : Role) (o : Option User)
    → includes (name_of c) (elim (permissions_in role o) [ none ↦ [] | some ps ↦ ps ]) ≡ grants c o
unfolding includes
grants-includes c role none = refl
grants-includes c role (some u) = ground arith

names_capability_iff :
    (c : AgentCapability) (o : Option (List Text)) → (names_capability c o ≡ true) ↔ IsListed c o
names_capability_iff c none = ((λ h. cc), (λ m. elim m [ ]))
names_capability_iff c (some ps) = includes_iff (name_of c) ps

grants_iff : (c : AgentCapability) (o : Option User) → (grants c o ≡ true) ↔ IsGranted c o
grants_iff c none = ((λ h. cc), (λ m. elim m [ ]))
grants_iff c (some u) = names_capability_iff c u.agent_permissions

pub assert_capability-grants :
    (users : List User) (actor : Actor) (c : AgentCapability) (operation : Text)
    (log : List LogEntry)
    → same_role actor.role agent ≡ true
    → is_ok (assert_capability users actor c operation false log).0
      ≡ grants c (get_user_for_agent_check actor.user_id users)
unfolding assert_capability ensure_capability permissions_of
assert_capability-grants users actor c operation log e =
    let (a, b) = agent_only actor.role e in
    let g = grants-includes c actor.role (get_user_for_agent_check actor.user_id users) in
    ground (arith, g)

access_capability :
    (users : List User) (actor : Actor) (c : AgentCapability) (operation : Text)
    → (log : List LogEntry) → (agentic : Bool) → same_role actor.role agent ≡ agentic
    → assert_access users actor (some (capability c)) operation log
      ≡ (if agentic then assert_capability users actor c operation false log else (ok tt, log))
unfolding assert_access
access_capability users actor c operation log agentic e = rw e refl

capability-IsAllowed :
    (users : List User) (actor : Actor) (c : AgentCapability) (operation : Text)
    → (log : List LogEntry)
    → (is_ok (assert_access users actor (some (capability c)) operation log).0 ≡ true)
      ↔ IsAllowed users actor (some (capability c))
capability-IsAllowed users actor c operation log = elim (Bool-cases (same_role actor.role agent)) [
  | inr e ↦ rw (access_capability users actor c operation log false e) ((λ h. inl e), (λ h. refl))
  | inl e ↦
      let same = assert_capability-grants users actor c operation log e in
      let granted = grants_iff c (get_user_for_agent_check actor.user_id users) in
      rw (access_capability users actor c operation log true e, same)
        ((λ h. inr (granted.0 h)), (λ m. elim m [ inl f ↦ cc | inr g ↦ granted.1 g ]))
]

assert_access-IsAllowed :
    (users : List User) (actor : Actor) (o : Option AgentAccess) (operation : Text)
    → (log : List LogEntry)
    → (is_ok (assert_access users actor o operation log).0 ≡ true) ↔ IsAllowed users actor o
unfolding assert_access
assert_access-IsAllowed users actor none operation log = ((λ _. tt), (λ _. refl))
assert_access-IsAllowed users actor (some anyone) operation log = ((λ _. tt), (λ _. refl))
assert_access-IsAllowed users actor (some human) operation log =
    ((λ h. ground arith), (λ h. ground arith))
assert_access-IsAllowed users actor (some admin_role) operation log =
    ((λ h. ground arith), (λ h. ground arith))
assert_access-IsAllowed users actor (some (capability c)) operation log =
    capability-IsAllowed users actor c operation log

-- The check of a route passes exactly those that its rule allows: everyone where the table has no
-- rule for the area and method or the first one is for anyone, people, administrators, or, of the
-- agents, those whose row holds the capability now.
pub assert_route_allowed-IsAllowed :
    (policy : List RouteRule) (users : List User) (actor : Actor) (area method : Text)
    → (log : List LogEntry)
    → (is_ok (assert_route_allowed policy users actor area method log).0 ≡ true)
      ↔ IsAllowed users actor (access_of (find (is_rule area method) policy))
unfolding assert_route_allowed
assert_route_allowed-IsAllowed policy users actor area method log =
    assert_access-IsAllowed users actor _ _ log

logged-length :
    (actor : Actor) (operation : Text) (log : List LogEntry) (r : Outcome AccessMessage Unit)
    → same_role actor.role agent ≡ true
    → length (logged actor operation log r).1 ≡ (if is_ok r then length log else suc (length log))
unfolding log_refusal
logged-length actor operation log (ok u) e = refl
logged-length actor operation log (fail k m) e = rw e refl

capability_logged :
    (users : List User) (actor : Actor) (c : AgentCapability) (operation : Text)
    → (log : List LogEntry) → same_role actor.role user ≡ false
    → assert_capability users actor c operation false log
      ≡ logged actor operation log (
          ensure_capability
            (principal_of actor (get_user_for_agent_check actor.user_id users))
            c
            false)
unfolding assert_capability
capability_logged users actor c operation log e = rw e refl

logged-is_ok :
    (actor : Actor) (operation : Text) (log : List LogEntry) (r : Outcome AccessMessage Unit)
    → is_ok (logged actor operation log r).0 ≡ is_ok r
logged-is_ok actor operation log (ok u) = refl
logged-is_ok actor operation log (fail k m) = refl

abbrev IsLogged : List LogEntry → Outcome AccessMessage Unit × List LogEntry → Type 0
IsLogged log r = length r.1 ≡ (if is_ok r.0 then length log else suc (length log))

capability-log :
    (users : List User) (actor : Actor) (c : AgentCapability) (operation : Text)
    → (log : List LogEntry) → same_role actor.role agent ≡ true
    → IsLogged log (assert_access users actor (some (capability c)) operation log)
capability-log users actor c operation log e =
    let answer =
      ensure_capability (principal_of actor (get_user_for_agent_check actor.user_id users)) c
        false in
    rw
      (
        access_capability users actor c operation log true e,
        capability_logged users actor c operation log (agent_only actor.role e).1,
        logged-is_ok actor operation log answer,
      )
      (logged-length actor operation log answer e)

access-log :
    (users : List User) (actor : Actor) (o : Option AgentAccess) (operation : Text)
    → (log : List LogEntry) → same_role actor.role agent ≡ true
    → IsLogged log (assert_access users actor o operation log)
unfolding assert_access
access-log users actor none operation log e = refl
access-log users actor (some anyone) operation log e = refl
access-log users actor (some human) operation log e = rw e refl
access-log users actor (some admin_role) operation log e =
    let (a, b) = agent_only actor.role e in rw (a, b, e) refl
access-log users actor (some (capability c)) operation log e =
    capability-log users actor c operation log e
