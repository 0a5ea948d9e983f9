-- ===== src/Identity/Reset.antt =====
-- Password reset: `deliverPasswordReset` and `confirmPasswordReset` of
-- backend/src/modules/auth/application/auth-service.ts, on the statements of
-- backend/src/modules/auth/infrastructure/auth-repository.ts. The hashes of tokens and passwords
-- and what the mail provider does are parameters. `createdAt` of a new row is the database's time,
-- an argument. A bound `now - cooldown <= created` is written `now <= created + cooldown`.
pub mod Laws
pub mod Once
pub mod Delivery
mod Examples
use oculus_business.Common.{
  ℕ, ◌+◌, ◌*◌, Bool, true, false, not, ◌&&◌, ◌||◌, ◌==◌, Option, none, some, List, [], ◌∷◌, ◌++◌,
  find, any, is_some, ltb, leb, if◌then◌else◌, zero, suc, ◌-◌, ◌≤◌, ◌<◌, ◌≡◌, refl, sym, ap, ◌∙◌,
  ◌≢◌, ◌↔◌, ◌⊎◌, inl, inr, arith, ==_iff, Bool-cases, Option-cases, filter, All, Has,
}
use oculus_business.Common.Rows.{update_many}
use oculus_business.Identity.{User, Session, ResetToken}

-- A queued notice: the task `auth:password-changed` with its deduplication key.
pub record Notice : Type 0 where
  pub dedupe_key : ℕ
  pub email : ℕ

pub record Accounts : Type 0 where
  pub users : List User
  pub sessions : List Session
  pub reset_tokens : List ResetToken
  pub notices : List Notice

abbrev pub is_unused_of : ℕ → ResetToken → Bool
is_unused_of user_id k = k.user_id == user_id && not (is_some k.used_at)

abbrev pub use_token : ℕ → ResetToken → ResetToken
use_token now k = record k { used_at = some now }

abbrev pub is_recent : ℕ → ℕ → ℕ → ResetToken → Bool
is_recent user_id cooldown_ms now k = k.user_id == user_id && leb now (k.created_at + cooldown_ms)

-- `createPasswordResetToken`, one transaction.
unfoldable pub create_password_reset_token :
    ℕ → ℕ → ℕ → ℕ → ℕ → ℕ → List ResetToken → List ResetToken × Bool
unfolding update_many
create_password_reset_token db_now cooldown_ms now user_id token_hash expires_at t =
    if any (is_recent user_id cooldown_ms now) t then (t, false) else (
      record {
        user_id = user_id;
        token_hash = token_hash;
        expires_at = expires_at;
        used_at = none;
        created_at = db_now;
      }
          ∷ (update_many (is_unused_of user_id) (use_token now) t).0,
      true,
    )

abbrev pub is_unused_hash : ℕ → ResetToken → Bool
is_unused_hash token_hash k = k.token_hash == token_hash && not (is_some k.used_at)

-- `invalidatePasswordResetToken`.
unfoldable pub invalidate_password_reset_token : ℕ → ℕ → List ResetToken → List ResetToken
unfolding update_many
invalidate_password_reset_token now token_hash t =
    (update_many (is_unused_hash token_hash) (use_token now) t).0

-- A token that can still be used.
unfoldable pub is_active : ℕ → ℕ → ResetToken → Bool
is_active now token_hash k =
    k.token_hash == token_hash && not (is_some k.used_at) && ltb now k.expires_at

-- `hasActivePasswordResetToken`.
unfoldable pub has_active_password_reset_token : ℕ → ℕ → List ResetToken → Bool
unfolding is_active
has_active_password_reset_token now token_hash t = any (is_active now token_hash) t

abbrev pub is_unrevoked_of : ℕ → Session → Bool
is_unrevoked_of user_id s = s.user_id == user_id && not (is_some s.revoked_at)

-- The session ends of `completePasswordReset` and of `updateRole`.
unfoldable pub revoke_sessions_of : ℕ → ℕ → List Session → List Session
unfolding update_many
revoke_sessions_of now user_id t =
    (update_many (is_unrevoked_of user_id) (λ (s : Session). record s { revoked_at = some now })
      t).0

unfoldable pub use_tokens_of : ℕ → ℕ → List ResetToken → List ResetToken
unfolding update_many
use_tokens_of now user_id t = (update_many (is_unused_of user_id) (use_token now) t).0

unfoldable pub set_password : ℕ → ℕ → List User → List User
unfolding update_many
set_password user_id hash t =
    (update_many (λ (u : User). u.id == user_id)
      (λ (u : User). record u { password_hash = some hash }) t).0

-- The writes of `completePasswordReset` for the user of the token.
unfoldable pub apply_reset : ℕ → ℕ → ℕ → ℕ → ℕ → Accounts → Accounts
unfolding set_password use_tokens_of revoke_sessions_of
apply_reset now token_hash password_hash user_id email a = record {
  users = set_password user_id password_hash a.users;
  sessions = revoke_sessions_of now user_id a.sessions;
  reset_tokens = use_tokens_of now user_id a.reset_tokens;
  notices = record { dedupe_key = token_hash; email = email } ∷ a.notices;
}

-- A token whose user is gone does not exist (a foreign key), so `none` for the user does not occur.
abbrev pub complete_for : ℕ → ℕ → ℕ → Option User → Accounts → Accounts × Option ℕ
complete_for now token_hash password_hash none a = (a, none)
complete_for now token_hash password_hash (some u) a =
    (apply_reset now token_hash password_hash u.id u.email a, some u.email)

abbrev pub complete_found : ℕ → ℕ → ℕ → Option ResetToken → Accounts → Accounts × Option ℕ
complete_found now token_hash password_hash none a = (a, none)
complete_found now token_hash password_hash (some k) a =
    complete_for now token_hash password_hash (find (λ (u : User). u.id == k.user_id) a.users) a

-- `completePasswordReset`, one transaction, so that its two reads of the token are one; with the
-- address that it returns.
unfoldable pub complete_password_reset : ℕ → ℕ → ℕ → Accounts → Accounts × Option ℕ
unfolding is_active apply_reset
complete_password_reset now token_hash password_hash a =
    complete_found now token_hash password_hash (find (is_active now token_hash) a.reset_tokens) a

-- `confirmPasswordReset`: true where it returns, false where it throws `password_reset_invalid`.
-- `now` is the time of the check and `later` the time of the transaction.
unfoldable pub confirm_password_reset : ℕ → ℕ → ℕ → ℕ → Accounts → Accounts × Bool
unfolding has_active_password_reset_token complete_password_reset
confirm_password_reset now later token_hash password_hash a =
    let (a', completed) = complete_password_reset later token_hash password_hash a in
    if has_active_password_reset_token now token_hash a.reset_tokens
    then (a', is_some completed)
    else (a, false)

-- What the provider did with the mail and, where it failed, whether the database fails in the write
-- that then takes the token back.
pub data Sent : Type 0 where
  delivered : Sent
  failed_permanently failed_for_now : Bool → Sent

pub data DeliveryOutcome : Type 0 where
  done skipped thrown : DeliveryOutcome

pub record ResetConfig : Type 0 where
  pub token_ttl_minutes : ℕ
  pub cooldown_seconds : ℕ

-- The write that takes the token back; where it throws, its error takes the place of the mail's and
-- the token stays as it is.
abbrev pub take_back : ℕ → ℕ → Bool → List ResetToken → List ResetToken × DeliveryOutcome
take_back now token_hash true t = (t, thrown)
take_back now token_hash false t = (invalidate_password_reset_token now token_hash t, thrown)

-- After the mail was handed to the provider.
unfoldable pub after_send :
    Bool → ℕ → ℕ → Sent → List ResetToken → List ResetToken × DeliveryOutcome
unfolding invalidate_password_reset_token
after_send final_attempt now token_hash delivered t = (t, done)
after_send final_attempt now token_hash (failed_permanently write_fails) t =
    take_back now token_hash write_fails t
after_send final_attempt now token_hash (failed_for_now write_fails) t =
    let taken = take_back now token_hash write_fails t in
    if final_attempt then taken else (t, thrown)

abbrev pub deliver_to :
    ResetConfig
    → Bool
    → ℕ
    → ℕ
    → ℕ
    → Sent
    → Option User
    → List ResetToken
    → List ResetToken × DeliveryOutcome
deliver_to c final_attempt now db_now token_hash sent none t = (t, skipped)
deliver_to c final_attempt now db_now token_hash sent (some u) t =
    let (t', created) =
      create_password_reset_token db_now (c.cooldown_seconds * 1000) now u.id token_hash
        (now + c.token_ttl_minutes * 60 * 1000) t in
    if not (is_some u.password_hash)
    then (t, skipped)
    else if created
    then after_send final_attempt now token_hash sent t'
    else (t', skipped)

-- `deliverPasswordReset` with a fresh token of the hash `token_hash`.
unfoldable pub deliver_password_reset :
    ResetConfig → Bool → ℕ → ℕ → ℕ → Sent → ℕ → Accounts → Accounts × DeliveryOutcome
unfolding create_password_reset_token after_send
deliver_password_reset c final_attempt now db_now token_hash sent email a =
    let (t, outcome) =
      deliver_to c final_attempt now db_now token_hash sent
        (find (λ (u : User). u.email == email) a.users) a.reset_tokens in
    (record a { reset_tokens = t }, outcome)
