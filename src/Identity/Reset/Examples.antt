-- ===== src/Identity/Reset/Examples.antt =====
-- Tests of password resets, and the theorems at one account.
use oculus_business.Common.{◌≡◌, refl, some, none, [], ◌∷◌, ◌⊎◌, true, false, find, ◌==◌}
use oculus_business.Identity.{User, user, Session, ResetToken}
use oculus_business.Common.Rows.{UniqueBy}
use oculus_business.Identity.Reset.{
  Accounts, ResetConfig, has_active_password_reset_token, is_active, complete_password_reset,
  confirm_password_reset, create_password_reset_token, deliver_password_reset, after_send,
  delivered, failed_for_now, done, skipped,
}
use oculus_business.Identity.Reset.Laws.{IsConfirmed, confirm_password_reset-IsConfirmed}
use oculus_business.Identity.Reset.Once.{confirm_password_reset_once}
use oculus_business.Identity.Reset.Delivery.{IsDelivered, deliver_password_reset-IsDelivered}

abbrev anna : User
anna = record {
  id = 1;
  email = 70;
  password_hash = some 900;
  role = user;
  agent_permissions = some [];
}

abbrev open_session : Session
open_session = record {
  id = 5;
  user_id = 1;
  refresh_token_hash = 33;
  refresh_token_family_hash = none;
  previous_refresh_token_hash = none;
  refresh_rotated_at = none;
  expires_at = 90000000;
  revoked_at = none;
  created_at = 1000;
  metadata = record { user_agent = none; ip_address = none };
}

abbrev limits : ResetConfig
limits = record { token_ttl_minutes = 30; cooldown_seconds = 60 }

abbrev accounts : Accounts
accounts = record {
  users = anna ∷ [];
  sessions = open_session ∷ [];
  reset_tokens = [];
  notices = [];
}

abbrev mailed : Accounts
mailed = (deliver_password_reset limits false 5000 5001 11 delivered 70 accounts).0

abbrev confirmed_accounts : Accounts
confirmed_accounts = (confirm_password_reset 9000 9001 11 901 mailed).0

delivery_is_done : (deliver_password_reset limits false 5000 5001 11 delivered 70 accounts).1 ≡ done
unfolding deliver_password_reset create_password_reset_token after_send
delivery_is_done = refl

cooldown_skips : (deliver_password_reset limits false 6000 6001 12 delivered 70 mailed).1 ≡ skipped
unfolding deliver_password_reset create_password_reset_token after_send
cooldown_skips = refl

-- The write that takes the token back throws: the token stays usable.
left_usable :
    has_active_password_reset_token 6000 11
      (deliver_password_reset limits true 5000 5001 11
        (failed_for_now true)
        70
        accounts).0.reset_tokens
    ≡ true
unfolding has_active_password_reset_token deliver_password_reset create_password_reset_token
    after_send is_active
left_usable = refl

reset_works : (confirm_password_reset 9000 9001 11 901 mailed).1 ≡ true
unfolding confirm_password_reset complete_password_reset deliver_password_reset
    create_password_reset_token after_send is_active
reset_works = refl

confirm_password_reset-IsConfirmed_example :
    let r = confirm_password_reset 9000 9001 11 901 mailed in
    ((r.1 ≡ false) × (r.0 ≡ mailed)) ⊎ ((r.1 ≡ true) × IsConfirmed 9001 11 901 mailed r.0)
confirm_password_reset-IsConfirmed_example =
    confirm_password_reset-IsConfirmed 9001 11 901 mailed 9000

mailed-UniqueBy : UniqueBy (λ (k : ResetToken). k.token_hash) mailed.reset_tokens
unfolding deliver_password_reset create_password_reset_token after_send
mailed-UniqueBy = (tt, tt)

confirm_password_reset_once_example :
    confirm_password_reset 9500 9501 11 902 confirmed_accounts ≡ (confirmed_accounts, false)
confirm_password_reset_once_example =
    confirm_password_reset_once 9000 9001 11 901 9500 9501 902 mailed mailed-UniqueBy reset_works

deliver_password_reset-IsDelivered_example :
    let (a', outcome) =
      deliver_password_reset limits true 5000 5001 11 (failed_for_now false) 70 accounts in
    IsDelivered limits true 5000 5001 11
      (failed_for_now false)
      6000
      70
      accounts
      (find (λ (u : User). u.email == 70) accounts.users)
      (a'.reset_tokens, outcome)
deliver_password_reset-IsDelivered_example =
    deliver_password_reset-IsDelivered limits true 5000 5001 11 (failed_for_now false) 6000 70
      accounts tt
