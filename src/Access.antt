-- ===== src/Access.antt =====
-- Who may do what in the business module:
-- backend/src/modules/business/application/permissions.ts, and the checks `assertCapability`,
-- `assertHumanOnly` and `assertRouteAllowed` of
-- backend/src/modules/business/application/sales-service.ts. The message of a refusal is one of
-- four, and the log entry of an agent's refusal is a value. The table of routes is the child
-- `Policy`.
pub mod Policy
pub mod Laws
pub mod Grants
pub mod Routes
mod Examples
use oculus_business.Common.{
  ℕ, ◌+◌, leb, ◌++◌, Bool, true, false, not, ◌&&◌, ◌||◌, ◌==◌, Option, none, some, List, [], ◌∷◌,
  find, any, is_some, if◌then◌else◌,
}
use oculus_business.Common.Text.{Text, lit, text_eq}
use oculus_business.Common.Outcome.{Outcome, ok, fail, forbidden}
use oculus_business.Identity.{User, Role, user, admin, agent, same_role}

-- `AGENT_CAPABILITIES`.
pub data AgentCapability : Type 0 where
  finance_confirm won_confirm deal_delete subscription_manage pricing_change : AgentCapability
  claim_confirm draft_approve pilot_decide case_allow : AgentCapability

-- The string of a capability.
unfoldable pub name_of : AgentCapability → Text
name_of finance_confirm = lit "finance.confirm"
name_of won_confirm = lit "won.confirm"
name_of deal_delete = lit "deal.delete"
name_of subscription_manage = lit "subscription.manage"
name_of pricing_change = lit "pricing.change"
name_of claim_confirm = lit "claim.confirm"
name_of draft_approve = lit "draft.approve"
name_of pilot_decide = lit "pilot.decide"
name_of case_allow = lit "case.allow"

-- `PrincipalLike`.
pub record Principal : Type 0 where
  pub user_id : ℕ
  pub role : Role
  pub agent_permissions : Option (List Text)

pub data AccessMessage : Type 0 where
  administrator_only human_only human_only_note : AccessMessage
  capability_missing : AgentCapability → AccessMessage

unfoldable pub permissions_of : Principal → List Text
permissions_of p =
    if same_role p.role agent then elim p.agent_permissions [ none ↦ [] | some ps ↦ ps ] else []

-- `includes`.
unfoldable pub includes : Text → List Text → Bool
unfolding text_eq
includes s = any (text_eq s)

unfoldable pub ensure_capability : Principal → AgentCapability → Bool → Outcome AccessMessage Unit
unfolding permissions_of includes
ensure_capability p capability admin_only =
    if same_role p.role admin
    then ok tt
    else if same_role p.role user
    then (if admin_only then fail forbidden administrator_only else ok tt)
    else if admin_only
    then fail forbidden administrator_only
    else if not (includes (name_of capability) (permissions_of p))
    then fail forbidden (capability_missing capability)
    else ok tt

-- `ActorContext`: who calls, and the run of the agent.
pub record Actor : Type 0 where
  pub user_id : ℕ
  pub role : Role
  pub run_id : Option ℕ

pub record LogEntry : Type 0 where
  pub actor_id : ℕ
  pub run_id : Option ℕ
  pub operation : Text
  pub succeeded : Bool
  pub message : AccessMessage

-- `logAgentOp` for a refusal: agents, and calls that belong to a run.
unfoldable pub log_refusal : Actor → Text → AccessMessage → List LogEntry → List LogEntry
log_refusal actor operation message log =
    if not (same_role actor.role agent) && not (is_some actor.run_id)
    then log
    else record {
      actor_id = actor.user_id;
      run_id = actor.run_id;
      operation = operation;
      succeeded = false;
      message = message;
    }
      ∷ log

-- `getUserForAgentCheck`: the row of the caller now.
unfoldable pub get_user_for_agent_check : ℕ → List User → Option User
get_user_for_agent_check id = find (λ (u : User). u.id == id)

-- The permissions that the row gives: its array, or an empty one where the roles agree.
abbrev pub permissions_in : Role → Option User → Option (List Text)
permissions_in role none = none
permissions_in role (some u) = elim u.agent_permissions [
  | some ps ↦ some ps
  | none ↦ if same_role u.role role then some [] else none
]

abbrev pub principal_of : Actor → Option User → Principal
principal_of actor row = record {
  user_id = actor.user_id;
  role = actor.role;
  agent_permissions = permissions_in actor.role row;
}

-- The answer, with the log: a refusal is logged before it is thrown again.
abbrev pub logged :
    Actor
    → Text
    → List LogEntry
    → Outcome AccessMessage Unit
    → Outcome AccessMessage Unit × List LogEntry
logged actor operation log (ok u) = (ok u, log)
logged actor operation log (fail kind message) =
    (fail kind message, log_refusal actor operation message log)

unfoldable pub assert_capability :
    List User
    → Actor
    → AgentCapability
    → Text
    → Bool
    → List LogEntry
    → Outcome AccessMessage Unit × List LogEntry
unfolding get_user_for_agent_check ensure_capability log_refusal
assert_capability users actor capability operation admin_only log =
    if same_role actor.role user && not admin_only
    then (ok tt, log)
    else logged actor operation log (
        ensure_capability (principal_of actor (get_user_for_agent_check actor.user_id users))
          capability admin_only)

unfoldable pub assert_human_only :
    Actor → Text → List LogEntry → Outcome AccessMessage Unit × List LogEntry
unfolding log_refusal
assert_human_only actor operation log =
    if same_role actor.role agent
    then (fail forbidden human_only, log_refusal actor operation human_only_note log)
    else (ok tt, log)

-- Who may use a route: an agent with a capability, people, administrators, or anyone.
pub data AgentAccess : Type 0 where
  capability : AgentCapability → AgentAccess
  human admin_role anyone : AgentAccess

-- An entry of `ROUTE_POLICY`. `legacy` is not read.
pub record RouteRule : Type 0 where
  pub method : Text
  pub path : Text
  pub area : Text
  pub agent_access : AgentAccess

-- The rule that is found, or none, which lets everyone pass.
unfoldable pub assert_access :
    List User
    → Actor
    → Option AgentAccess
    → Text
    → List LogEntry
    → Outcome AccessMessage Unit × List LogEntry
unfolding assert_capability log_refusal
assert_access users actor none operation log = (ok tt, log)
assert_access users actor (some anyone) operation log = (ok tt, log)
assert_access users actor (some human) operation log =
    if same_role actor.role agent
    then (fail forbidden human_only, log_refusal actor operation human_only log)
    else (ok tt, log)
assert_access users actor (some admin_role) operation log =
    if same_role actor.role admin
    then (ok tt, log)
    else if same_role actor.role user
    then (fail forbidden administrator_only, log)
    else (fail forbidden human_only, log_refusal actor operation human_only log)
assert_access users actor (some (capability c)) operation log =
    if same_role actor.role agent
    then assert_capability users actor c operation false log
    else (ok tt, log)

-- `entry.area === area && entry.method === method`.
unfoldable pub is_rule : Text → Text → RouteRule → Bool
unfolding text_eq
is_rule area method r = text_eq r.area area && text_eq r.method method

abbrev pub access_of : Option RouteRule → Option AgentAccess
access_of none = none
access_of (some r) = some r.agent_access

-- `toLowerCase` on the ASCII letters, of which the names of methods consist.
unfoldable pub to_lower_case : Text → Text
to_lower_case [] = []
to_lower_case (c ∷ s) =
    let rest = to_lower_case s in if leb 65 c && leb c 90 then (c + 32) ∷ rest else c ∷ rest

-- `assertRouteAllowed` on a table of rules.
unfoldable pub assert_route_allowed :
    List RouteRule
    → List User
    → Actor
    → Text
    → Text
    → List LogEntry
    → Outcome AccessMessage Unit × List LogEntry
unfolding assert_access is_rule to_lower_case
assert_route_allowed policy users actor area method log =
    assert_access users actor (access_of (find (is_rule area method) policy))
      (area ++ lit "." ++ to_lower_case method) log
