-- ===== src/Access/Grants.antt =====
-- A change of an agent's permissions takes effect at the next check, and what the table of routes
-- keeps from agents without permissions (backend/src/modules/users,
-- backend/src/modules/business/application/permissions.ts).
use oculus_business.Common.{
  Bool, is_some, ==_iff, true, false, not, Option, none, some, List, [], ◌∷◌, find, ◌≡◌, inl, inr,
  refl, arith, Bool-cases, sym, ◌∙◌, ℕ,
}
use oculus_business.Common.Text.{Text}
use oculus_business.Common.Outcome.{is_ok}
use oculus_business.Identity.{User, Role, admin, agent, same_role}
use oculus_business.Common.Rows.{update_many, find-Has}
use oculus_business.Identity.Roles.{
  Changed, changed, rejected, has_id, set_permissions, grant_found, update_agent_permissions,
  all_allowed,
}
use oculus_business.Access.{
  AgentCapability, name_of, includes, Actor, LogEntry, get_user_for_agent_check, assert_capability,
}
use oculus_business.Access.Laws.{assert_capability-grants, grants}

-- What the row of the agent gives after the change.
grants-set_permissions :
    (c : AgentCapability) (id : ℕ) (ps : List Text) (t : List User)
    → is_some (find (has_id id) t) ≡ true
    → grants c (find (has_id id) (set_permissions id ps t)) ≡ includes (name_of c) ps
unfolding set_permissions update_many
grants-set_permissions c id ps [] e = cc
grants-set_permissions c id ps (x ∷ t) e = ground (arith, grants-set_permissions c id ps t)

abbrev is_changed : Changed User → Bool
is_changed (changed u) = true
is_changed (rejected f) = false

granted-cases :
    (id : ℕ) (ps : List Text) (t : List User) (o : Option User)
    → find (has_id id) t ≡ o
    → is_changed (grant_found o ps t).1 ≡ true
    → ((grant_found o ps t).0 ≡ set_permissions id ps t) × (is_some (find (has_id id) t) ≡ true)
unfolding grant_found
granted-cases id ps t none e h = cc
granted-cases id ps t (some u) e h =
    let (m, q) = find-Has (has_id id) u t e in
    (rw (sym ((==_iff u.id id).0 q)) (ground arith), rw e refl)

update_agent_permissions-cases :
    (caller : Role) (id : ℕ) (ps : List Text) (t : List User)
    → is_changed (update_agent_permissions caller id ps t).1 ≡ true
    → ((update_agent_permissions caller id ps t).0 ≡ set_permissions id ps t)
      × (is_some (find (has_id id) t) ≡ true)
unfolding update_agent_permissions
update_agent_permissions-cases caller id ps t h = elim (Bool-cases (not (same_role caller admin))) [
  | inl e ↦ cc
  | inr e ↦ elim (Bool-cases (not (all_allowed ps))) [
    | inl q ↦ cc
    | inr q ↦ rw (e, q) (granted-cases id ps t _ refl (ground arith))
  ]
]

-- Once an administrator's change of an agent's permissions is accepted, the very next check of
-- the agent passes exactly for the capabilities of the new list; an empty list refuses all.
pub update_agent_permissions-assert_capability :
    (caller : Role) (ps : List Text) (users : List User) (actor : Actor) (c : AgentCapability)
    → (operation : Text) → (log : List LogEntry) → same_role actor.role agent ≡ true
    → is_changed (update_agent_permissions caller actor.user_id ps users).1 ≡ true
    → let users' = (update_agent_permissions caller actor.user_id ps users).0 in
      is_ok (assert_capability users' actor c operation false log).0 ≡ includes (name_of c) ps
unfolding get_user_for_agent_check
update_agent_permissions-assert_capability caller ps users actor c operation log e h =
    let (same, here) = update_agent_permissions-cases caller actor.user_id ps users h in
    rw same (
      assert_capability-grants (set_permissions actor.user_id ps users) actor c operation log e
      ∙ grants-set_permissions c actor.user_id ps users here)
