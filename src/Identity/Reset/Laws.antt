-- ===== src/Identity/Reset/Laws.antt =====
-- What a password reset leaves behind: `completePasswordReset` and `confirmPasswordReset`
-- (backend/src/modules/auth).
use oculus_business.Common.{
  ℕ, true, false, ◌==◌, Option, none, some, List, find, is_some, ◌≡◌, ◌≢◌, ◌⊎◌, inl, inr, refl,
  arith, All, Has, Bool-cases, ◌≢◌, ==_iff,
}
use oculus_business.Identity.{User, Session, ResetToken}
use oculus_business.Common.Rows.{All-update_many, Has-update_many, find-Has}
use oculus_business.Identity.Reset.{
  Accounts, is_unused_of, use_token, is_active, has_active_password_reset_token, is_unrevoked_of,
  revoke_sessions_of, use_tokens_of, set_password, apply_reset, complete_for, complete_found,
  complete_password_reset, confirm_password_reset,
}

-- No session of the user is open.
abbrev pub IsSignedOut : ℕ → List Session → Type 0
IsSignedOut user_id = All (λ (s : Session). is_unrevoked_of user_id s ≡ false)

-- No token of the user can be used.
abbrev pub IsTokenFree : ℕ → List ResetToken → Type 0
IsTokenFree user_id = All (λ (k : ResetToken). is_unused_of user_id k ≡ false)

abbrev pub HasPassword : ℕ → ℕ → List User → Type 0
HasPassword user_id hash = All (λ (u : User). u.id ≡ user_id → u.password_hash ≡ some hash)

pub revoke_sessions_of-IsSignedOut :
    (now user_id : ℕ) (t : List Session) → IsSignedOut user_id (revoke_sessions_of now user_id t)
unfolding revoke_sessions_of
revoke_sessions_of-IsSignedOut now user_id t =
    All-update_many (is_unrevoked_of user_id) _ (λ (s : Session). is_unrevoked_of user_id s ≡ false)
      t (λ s h. ground arith) (λ s h. h)

pub use_tokens_of-IsTokenFree :
    (now user_id : ℕ) (t : List ResetToken) → IsTokenFree user_id (use_tokens_of now user_id t)
unfolding use_tokens_of
use_tokens_of-IsTokenFree now user_id t =
    All-update_many (is_unused_of user_id) (use_token now)
      (λ (k : ResetToken). is_unused_of user_id k ≡ false) t (λ k h. ground arith) (λ k h. h)

set_password-HasPassword :
    (user_id hash : ℕ) (t : List User) → HasPassword user_id hash (set_password user_id hash t)
unfolding set_password
set_password-HasPassword user_id hash t =
    All-update_many (λ (u : User). u.id == user_id) _
      (λ (u : User). u.id ≡ user_id → u.password_hash ≡ some hash) t (λ u h q. refl)
      (λ u h q. ground arith)

-- Others keep their sessions.
pub Has-revoke_sessions_of :
    (now user_id : ℕ) (s : Session) (t : List Session)
    → Has s t
    → s.user_id ≢ user_id
    → Has s (revoke_sessions_of now user_id t)
unfolding revoke_sessions_of
Has-revoke_sessions_of now user_id s t m d =
    Has-update_many (is_unrevoked_of user_id) _ s t m (ground arith)

-- What a completed reset leaves behind for its user.
abbrev pub IsReset : ℕ → ℕ → ℕ → Accounts → Accounts → Type 0
IsReset user_id token_hash password_hash a a' =
    HasPassword user_id password_hash a'.users
    × IsSignedOut user_id a'.sessions
    × IsTokenFree user_id a'.reset_tokens

-- What a confirmation does: nothing, or the reset of the user of an active token.
abbrev pub IsConfirmed : ℕ → ℕ → ℕ → Accounts → Accounts → Type 0
IsConfirmed later token_hash password_hash a a' =
    (k : ResetToken) × (u : User) × (Has k a.reset_tokens × (is_active later token_hash k ≡ true))
    × (Has u a.users × (u.id ≡ k.user_id))
    × (a' ≡ apply_reset later token_hash password_hash u.id u.email a)
    × IsReset u.id token_hash password_hash a a'

apply_reset-IsReset :
    (now token_hash password_hash user_id email : ℕ) (a : Accounts)
    → IsReset user_id token_hash password_hash a
        (apply_reset now token_hash password_hash user_id email a)
unfolding apply_reset
apply_reset-IsReset now token_hash password_hash user_id email a = (
  set_password-HasPassword user_id password_hash a.users,
  revoke_sessions_of-IsSignedOut now user_id a.sessions,
  use_tokens_of-IsTokenFree now user_id a.reset_tokens,
)

module _ (later token_hash password_hash : ℕ) (a : Accounts) where
  abbrev pub ConfirmCases : Accounts × Option ℕ → Type 0
  ConfirmCases r =
      ((is_some r.1 ≡ false) × (r.0 ≡ a))
      ⊎ ((is_some r.1 ≡ true) × IsConfirmed later token_hash password_hash a r.0)

  complete_for-cases :
      (k : ResetToken) (o : Option User)
      → find (λ (u : User). u.id == k.user_id) a.users ≡ o
      → Has k a.reset_tokens
      → is_active later token_hash k ≡ true
      → ConfirmCases (complete_for later token_hash password_hash o a)
  complete_for-cases k none e m act = inl (refl, refl)
  complete_for-cases k (some u) e m act =
      let (mu, h) = find-Has (λ (u : User). u.id == k.user_id) u a.users e in
      inr (
        refl,
        (
          k,
          u,
          (m, act),
          (mu, (==_iff u.id k.user_id).0 h),
          refl,
          apply_reset-IsReset later token_hash password_hash u.id u.email a,
        ),
      )

  complete_found-cases :
      (o : Option ResetToken)
      → find (is_active later token_hash) a.reset_tokens ≡ o
      → ConfirmCases (complete_found later token_hash password_hash o a)
  complete_found-cases none e = inl (refl, refl)
  complete_found-cases (some k) e =
      let (m, h) = find-Has (is_active later token_hash) k a.reset_tokens e in
      complete_for-cases k _ refl m h

  complete-cases : ConfirmCases (complete_password_reset later token_hash password_hash a)
  unfolding complete_password_reset
  complete-cases = complete_found-cases _ refl

  -- A confirmed reset has found an unused, unexpired token of the user; the user has the new
  -- password, no open session and no unused token, and one notice is queued under the token. A
  -- refused one changes nothing.
  pub confirm_password_reset-IsConfirmed :
      (now : ℕ)
      → let r = confirm_password_reset now later token_hash password_hash a in
        ((r.1 ≡ false) × (r.0 ≡ a))
        ⊎ ((r.1 ≡ true) × IsConfirmed later token_hash password_hash a r.0)
  unfolding confirm_password_reset
  confirm_password_reset-IsConfirmed now =
      elim (Bool-cases (has_active_password_reset_token now token_hash a.reset_tokens)) [
        | inl e ↦ rw e complete-cases
        | inr e ↦ rw e (inl (refl, refl))
      ]
