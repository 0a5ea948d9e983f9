-- ===== src/Identity.antt =====
-- Accounts and their credentials: the tables that backend/src/modules/auth and
-- backend/src/modules/users read and write (backend/prisma/schema.prisma). Identifiers, tokens,
-- their hashes and addresses are only compared, so they are numbers; times are milliseconds. The
-- columns are those that the modelled functions read or write. A statement of the database is one
-- function on the list of rows.
pub mod Sessions
pub mod Reset
pub mod Roles
use oculus_business.Common.{ℕ, Bool, true, false, Option, List, [], ◌∷◌, suc, if◌then◌else◌}
use oculus_business.Common.Text.{Text}

pub data Role : Type 0 where
  user admin agent : Role

abbrev pub same_role : Role → Role → Bool
same_role Role.user Role.user = true
same_role Role.admin Role.admin = true
same_role Role.agent Role.agent = true
same_role _ _ = false

-- `agent_permissions` is none where the column holds no array.
pub record User : Type 0 where
  pub id : ℕ
  pub email : ℕ
  pub password_hash : Option ℕ
  pub role : Role
  pub agent_permissions : Option (List Text)

pub record Metadata : Type 0 where
  pub user_agent : Option Text
  pub ip_address : Option Text

pub record Session : Type 0 where
  pub id : ℕ
  pub user_id : ℕ
  pub refresh_token_hash : ℕ
  pub refresh_token_family_hash : Option ℕ
  pub previous_refresh_token_hash : Option ℕ
  pub refresh_rotated_at : Option ℕ
  pub expires_at : ℕ
  pub revoked_at : Option ℕ
  pub created_at : ℕ
  pub metadata : Metadata

pub record ResetToken : Type 0 where
  pub user_id : ℕ
  pub token_hash : ℕ
  pub expires_at : ℕ
  pub used_at : Option ℕ
  pub created_at : ℕ
