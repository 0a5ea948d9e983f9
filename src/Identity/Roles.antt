-- ===== src/Identity/Roles.antt =====
-- Roles and agent permissions: `updateRole` of
-- backend/src/modules/users/infrastructure/users-repository.ts and `updateAgentPermissions` of
-- backend/src/modules/users/application/users-service.ts with its store. Both lock or touch one
-- row, so each is one step.
pub mod Laws
mod Examples
use oculus_business.Common.{
  ℕ, Bool, true, false, not, ◌&&◌, ◌||◌, ◌==◌, Option, none, some, List, [], ◌∷◌, find, filter,
  length, any, leb, if◌then◌else◌, ◌<◌,
}
use oculus_business.Common.Text.{Text, lit, text_eq}
use oculus_business.Common.Rows.{update_many}
use oculus_business.Identity.{User, Role, user, admin, agent, same_role, Session, ResetToken}
use oculus_business.Identity.Reset.{Accounts, revoke_sessions_of, use_tokens_of}

pub data UsersFailure : Type 0 where
  admin_required user_not_found own_role last_admin unknown_permission not_an_agent : UsersFailure

pub data Changed (A : Type 0) : Type 0 where
  changed : A → Changed A
  rejected : UsersFailure → Changed A

abbrev pub has_id : ℕ → User → Bool
has_id id u = u.id == id

abbrev pub is_admin : User → Bool
is_admin u = same_role u.role admin

-- `tx.user.count({ where: { role: 'admin' } })`.
unfoldable pub admin_count : List User → ℕ
admin_count t = length (filter is_admin t)

-- `actor?.role !== 'admin'` is false.
abbrev pub is_admin_row : Option User → Bool
is_admin_row none = false
is_admin_row (some u) = is_admin u

unfoldable pub set_role : ℕ → Role → List User → List User
unfolding update_many
set_role id role t = (update_many (has_id id) (λ (u : User). record u { role = role }) t).0

-- The writes of `updateRole`.
unfoldable pub apply_role : ℕ → Role → ℕ → Accounts → Accounts
unfolding set_role revoke_sessions_of use_tokens_of
apply_role id role now a = record a {
  users = set_role id role a.users;
  sessions = revoke_sessions_of now id a.sessions;
  reset_tokens = use_tokens_of now id a.reset_tokens;
}

-- `updateRole` for a target that exists.
unfoldable pub update_role_of : ℕ → User → Role → ℕ → Accounts → Accounts × Changed User
unfolding apply_role admin_count
update_role_of actor_id target role now a =
    if same_role target.role role
    then (a, changed target)
    else if target.id == actor_id && not (same_role role admin)
    then (a, rejected own_role)
    else if is_admin target && same_role role user && leb (admin_count a.users) 1
    then (a, rejected last_admin)
    else (apply_role target.id role now a, changed (record target { role = role }))

abbrev pub update_role_found : ℕ → Option User → Role → ℕ → Accounts → Accounts × Changed User
update_role_found actor_id none role now a = (a, rejected user_not_found)
update_role_found actor_id (some target) role now a = update_role_of actor_id target role now a

-- `updateRole`, one transaction.
unfoldable pub update_role : ℕ → ℕ → Role → ℕ → Accounts → Accounts × Changed User
unfolding update_role_of
update_role actor_id target_id role now a =
    if is_admin_row (find (has_id actor_id) a.users)
    then update_role_found actor_id (find (has_id target_id) a.users) role now a
    else (a, rejected admin_required)

-- The set `allowed` of `updateAgentPermissions`.
unfoldable pub allowed_permissions : List Text
allowed_permissions =
    lit "finance.confirm"
    ∷ lit "won.confirm"
    ∷ lit "deal.delete"
    ∷ lit "subscription.manage"
    ∷ lit "pricing.change"
    ∷ lit "claim.confirm"
    ∷ lit "draft.approve"
    ∷ lit "pilot.decide"
    ∷ lit "case.allow"
    ∷ []

-- The loop over the permissions.
unfoldable pub all_allowed : List Text → Bool
unfolding allowed_permissions text_eq
all_allowed [] = true
all_allowed (p ∷ ps) = any (text_eq p) allowed_permissions && all_allowed ps

-- `setPermissions`.
unfoldable pub set_permissions : ℕ → List Text → List User → List User
unfolding update_many
set_permissions id ps t =
    (update_many (has_id id) (λ (u : User). record u { agent_permissions = some ps }) t).0

unfoldable pub grant_found : Option User → List Text → List User → List User × Changed User
unfolding set_permissions
grant_found none ps t = (t, rejected user_not_found)
grant_found (some target) ps t =
    if same_role target.role agent
    then (set_permissions target.id ps t, changed (record target { agent_permissions = some ps }))
    else (t, rejected not_an_agent)

-- `updateAgentPermissions`, called with the role of the caller.
unfoldable pub update_agent_permissions :
    Role → ℕ → List Text → List User → List User × Changed User
unfolding all_allowed grant_found
update_agent_permissions caller target_id ps t =
    if not (same_role caller admin)
    then (t, rejected admin_required)
    else if not (all_allowed ps)
    then (t, rejected unknown_permission)
    else grant_found (find (has_id target_id) t) ps t
