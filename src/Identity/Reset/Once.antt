-- ===== src/Identity/Reset/Once.antt =====
-- A reset token works once (`confirmPasswordReset`, backend/src/modules/auth).
use mathlib.Core.Path.{subst}
use oculus_business.Common.{
  ℕ, sym, ◌∙◌, any, ◌≢◌, true, false, List, [], ◌∷◌, ◌≡◌, inl, inr, refl, arith, All, Has,
}
use oculus_business.Identity.{ResetToken}
use oculus_business.Common.Rows.{update_many, UniqueBy, All-imp, apart}
use oculus_business.Identity.Reset.{
  Accounts, is_active, has_active_password_reset_token, use_tokens_of, apply_reset,
  confirm_password_reset,
}
use oculus_business.Identity.Reset.Laws.{IsConfirmed, confirm_password_reset-IsConfirmed}

-- The unique index: the rows of a hash belong to one user.
abbrev pub OneOwner : ℕ → ℕ → List ResetToken → Type 0
OneOwner token_hash user_id =
    All (λ (k : ResetToken). k.token_hash ≡ token_hash → k.user_id ≡ user_id)

one_owner :
    (token_hash : ℕ) (k : ResetToken) (t : List ResetToken)
    → UniqueBy (λ x. x.token_hash) t
    → Has k t
    → k.token_hash ≡ token_hash
    → OneOwner token_hash k.user_id t
one_owner token_hash k [] u m e = tt
one_owner token_hash k (x ∷ t) (h, u) (inl q) e =
    subst (λ (z : ResetToken). OneOwner token_hash z.user_id (x ∷ t)) q
      (
        (λ _. refl),
        All-imp (λ (y : ResetToken). y.token_hash ≢ x.token_hash)
            (λ (y : ResetToken). y.token_hash ≡ token_hash → y.user_id ≡ x.user_id) t
            (λ y d p.
              elim (d
                (p ∙ sym (subst (λ (z : ResetToken). z.token_hash ≡ token_hash) (sym q) e))) [ ])
            h,
      )
one_owner token_hash k (x ∷ t) (h, u) (inr m) e = (
  (λ p.
      elim (apart (λ (y : ResetToken). y.token_hash) (λ _. true) (λ y. y) k x t h m
        (p ∙ sym e)) [ ]),
  one_owner token_hash k t u m e,
)

-- No token of the hash is left to use.
spent :
    (now later user_id token_hash : ℕ) (t : List ResetToken)
    → OneOwner token_hash user_id t
    → any (is_active now token_hash) (use_tokens_of later user_id t) ≡ false
unfolding use_tokens_of is_active update_many
spent now later user_id token_hash [] o = refl
spent now later user_id token_hash (k ∷ t) (o, os) =
    ground (arith, spent now later user_id token_hash t os, o)

hash_of :
    (now later token_hash : ℕ) (k : ResetToken)
    → is_active later token_hash k ≡ true
    → k.token_hash ≡ token_hash
unfolding is_active
hash_of now later token_hash k h = ground arith

has_active_after :
    (now later token_hash password_hash : ℕ) (a a' : Accounts)
    → UniqueBy (λ (k : ResetToken). k.token_hash) a.reset_tokens
    → IsConfirmed later token_hash password_hash a a'
    → has_active_password_reset_token now token_hash a'.reset_tokens ≡ false
unfolding has_active_password_reset_token apply_reset
has_active_after now later token_hash password_hash a a' unique (k, u, (m, act), (mu, own), e, _) =
    let owner =
      one_owner token_hash k a.reset_tokens unique m (hash_of now later token_hash k act) in
    subst (λ (x : Accounts). any (is_active now token_hash) x.reset_tokens ≡ false) (sym e)
      (spent now later u.id token_hash a.reset_tokens
        (subst (λ n. OneOwner token_hash n a.reset_tokens) (sym own) owner))

refused_inactive :
    (now later token_hash password_hash : ℕ) (a : Accounts)
    → has_active_password_reset_token now token_hash a.reset_tokens ≡ false
    → confirm_password_reset now later token_hash password_hash a ≡ (a, false)
unfolding confirm_password_reset
refused_inactive now later token_hash password_hash a e = rw e refl

-- A token works once: where hashes are unique, after a confirmed reset any further confirmation
-- with the same token, at any time and with any password, is refused and changes nothing.
pub confirm_password_reset_once :
    (now later token_hash password_hash now' later' password_hash' : ℕ) (a : Accounts)
    → UniqueBy (λ (k : ResetToken). k.token_hash) a.reset_tokens
    → (confirm_password_reset now later token_hash password_hash a).1 ≡ true
    → let a' = (confirm_password_reset now later token_hash password_hash a).0 in
      confirm_password_reset now' later' token_hash password_hash' a' ≡ (a', false)
confirm_password_reset_once now later token_hash password_hash now' later' password_hash' a u done =
    elim (confirm_password_reset-IsConfirmed later token_hash password_hash a now) [
      | inl (n, _) ↦ cc
      | inr (_, c) ↦
          refused_inactive now' later' token_hash password_hash' _
            (has_active_after now' later token_hash password_hash a _ u c)
    ]
