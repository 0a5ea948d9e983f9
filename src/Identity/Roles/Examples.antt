-- ===== src/Identity/Roles/Examples.antt =====
-- Tests of roles and permissions, and the theorem at two users.
use oculus_business.Common.{◌≡◌, ◌⊎◌, refl, some, none, [], ◌∷◌}
use oculus_business.Common.Text.{lit, text_eq}
use oculus_business.Identity.{User, user, admin, agent}
use oculus_business.Identity.Reset.{Accounts}
use oculus_business.Identity.Roles.{
  update_role, update_role_of, update_agent_permissions, changed, rejected, own_role,
  unknown_permission, not_an_agent, all_allowed, grant_found,
}
use oculus_business.Identity.Roles.Laws.{IsRoleChange, update_role-IsRoleChange}

abbrev chief : User
chief = record {
  id = 1;
  email = 70;
  password_hash = none;
  role = admin;
  agent_permissions = some [];
}

abbrev clerk : User
clerk = record chief { id = 2; email = 71; role = user }

abbrev office : Accounts
office = record { users = chief ∷ clerk ∷ []; sessions = []; reset_tokens = []; notices = [] }

own_role_is_kept : (update_role 1 1 user 5000 office).1 ≡ rejected own_role
unfolding update_role update_role_of
own_role_is_kept = refl

clerk_becomes_agent :
    (update_role 1 2 agent 5000 office).1 ≡ changed (record clerk { role = agent })
unfolding update_role update_role_of
clerk_becomes_agent = refl

unknown_permission_is_refused :
    (update_agent_permissions admin 2 (lit "root" ∷ []) office.users).1
    ≡ rejected unknown_permission
unfolding update_agent_permissions all_allowed text_eq
unknown_permission_is_refused = refl

clerk_is_no_agent :
    (update_agent_permissions admin 2 (lit "won.confirm" ∷ []) office.users).1
    ≡ rejected not_an_agent
unfolding update_agent_permissions all_allowed text_eq grant_found
clerk_is_no_agent = refl

update_role-IsRoleChange_example :
    let r = update_role 1 2 agent 5000 office in (r.0 ≡ office) ⊎ IsRoleChange 1 2 agent office r.0
update_role-IsRoleChange_example = update_role-IsRoleChange 1 agent 5000 office 2
