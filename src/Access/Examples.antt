-- ===== src/Access/Examples.antt =====
-- Tests of the checks, and the theorems at an agent.
use oculus_business.Common.{true, false, none, some, List, [], ◌∷◌, find, ◌≡◌, ◌↔◌, inl, inr, refl}
use oculus_business.Common.Text.{Text, lit, text_eq}
use oculus_business.Common.Outcome.{fail, forbidden, is_ok}
use oculus_business.Identity.{User, admin, agent}
use oculus_business.Identity.Roles.{update_agent_permissions}
use oculus_business.Access.{
  Actor, name_of, includes, finance_confirm, won_confirm, draft_approve, get_user_for_agent_check,
  ensure_capability, permissions_of, assert_capability, assert_human_only, assert_route_allowed,
  assert_access, log_refusal, is_rule, access_of, to_lower_case, RouteRule, capability, human_only,
  capability_missing,
}
use oculus_business.Access.Policy.{route_policy}
use oculus_business.Access.Laws.{IsAllowed, assert_route_allowed-IsAllowed}
use oculus_business.Access.Grants.{update_agent_permissions-assert_capability}
use oculus_business.Access.Routes.{assert_route_allowed-is_sensitive}

abbrev robot : User
robot = record {
  id = 9;
  email = 75;
  password_hash = none;
  role = agent;
  agent_permissions = some [];
}

abbrev robot_call : Actor
robot_call = record { user_id = 9; role = agent; run_id = some 4 }

abbrev staff : List User
staff = robot ∷ []

abbrev finance_permission : List Text
finance_permission = lit "finance.confirm" ∷ []

abbrev trusted : List User
trusted = (update_agent_permissions admin 9 finance_permission staff).0

-- The rule of `/dnc` is found for `/dnc/lift` too.
lift_passes :
    is_ok (assert_route_allowed route_policy staff robot_call (lit "crm.dnc") (lit "POST") []).0
    ≡ true
unfolding assert_route_allowed route_policy
lift_passes = refl

stages_are_for_people :
    (assert_route_allowed route_policy staff robot_call (lit "crm.stages") (lit "POST") []).0
    ≡ fail forbidden human_only
unfolding assert_route_allowed route_policy
stages_are_for_people = refl

accepted_change :
    (update_agent_permissions admin 9 finance_permission staff).0
    ≡ record robot { agent_permissions = some finance_permission } ∷ []
unfolding update_agent_permissions
accepted_change = refl

assert_route_allowed-IsAllowed_example :
    (is_ok
        (assert_route_allowed route_policy trusted robot_call
          (lit "finance.txns")
          (lit "POST")
          []).0
      ≡ true)
    ↔ IsAllowed trusted robot_call
        (access_of (find (is_rule (lit "finance.txns") (lit "POST")) route_policy))
assert_route_allowed-IsAllowed_example =
    assert_route_allowed-IsAllowed route_policy trusted robot_call (lit "finance.txns") (lit "POST")
      []

update_agent_permissions-assert_capability_example :
    is_ok (assert_capability trusted robot_call won_confirm (lit "deal.move") false []).0
    ≡ includes (name_of won_confirm) finance_permission
unfolding update_agent_permissions
update_agent_permissions-assert_capability_example =
    update_agent_permissions-assert_capability admin finance_permission staff robot_call won_confirm
      (lit "deal.move") [] refl refl

abbrev delete_deal : RouteRule
delete_deal = record {
  method = lit "DELETE";
  path = lit "/api/crm/deals/{id}";
  area = lit "crm.deals";
  agent_access = capability oculus_business.Access.deal_delete;
}

assert_route_allowed-is_sensitive_example :
    is_ok (assert_route_allowed route_policy staff robot_call (lit "crm.deals") (lit "DELETE") []).0
    ≡ false
unfolding route_policy get_user_for_agent_check text_eq
assert_route_allowed-is_sensitive_example =
    assert_route_allowed-is_sensitive delete_deal staff robot_call [] (inr (inr (inr (inl refl))))
      refl refl refl
