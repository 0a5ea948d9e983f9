-- ===== src/Identity/Reset/Delivery.antt =====
-- Which links live after a delivery (`deliverPasswordReset`, backend/src/modules/auth).
use oculus_business.Common.{
  ℕ, ◌+◌, ◌*◌, Bool, any, find, ◌≢◌, true, false, not, ◌&&◌, ◌==◌, Option, none, some, List, [],
  ◌∷◌, is_some, ◌≡◌, ◌⊎◌, inl, inr, refl, arith, All, Has, ltb, Bool-cases, ◌||◌,
}
use oculus_business.Identity.{User, ResetToken}
use oculus_business.Common.Rows.{update_many, All-update_many, find-Has}
use oculus_business.Identity.Reset.{
  take_back, Accounts, is_unused_of, use_token, is_recent, create_password_reset_token,
  is_unused_hash, invalidate_password_reset_token, is_active, has_active_password_reset_token, Sent,
  delivered, failed_permanently, failed_for_now, DeliveryOutcome, skipped, ResetConfig, after_send,
  deliver_to, deliver_password_reset,
}

-- The only unused token of the user, if any, is the one of the hash.
abbrev pub IsOnlyToken : ℕ → ℕ → List ResetToken → Type 0
IsOnlyToken user_id token_hash =
    All (λ (k : ResetToken). is_unused_of user_id k ≡ true → k.token_hash ≡ token_hash)

-- The token outlives the attempt.
abbrev pub keeps_token : Bool → Sent → Bool
keeps_token final_attempt delivered = true
keeps_token final_attempt (failed_permanently write_fails) = write_fails
keeps_token final_attempt (failed_for_now write_fails) = not final_attempt || write_fails

IsOnlyToken-invalidate :
    (user_id now token_hash : ℕ) (t : List ResetToken)
    → IsOnlyToken user_id token_hash t
    → IsOnlyToken user_id token_hash (invalidate_password_reset_token now token_hash t)
unfolding invalidate_password_reset_token update_many
IsOnlyToken-invalidate user_id now token_hash [] h = tt
IsOnlyToken-invalidate user_id now token_hash (k ∷ t) (h, hs) =
    let rest = IsOnlyToken-invalidate user_id now token_hash t hs in
    elim (Bool-cases (is_unused_hash token_hash k)) [
      | inl e ↦ rw (e, invalidate_password_reset_token) ((λ q. ground arith), rest)
      | inr e ↦ rw (e, invalidate_password_reset_token) (h, rest)
    ]

invalidated :
    (later now token_hash : ℕ) (t : List ResetToken)
    → any (is_active later token_hash) (invalidate_password_reset_token now token_hash t) ≡ false
unfolding invalidate_password_reset_token update_many is_active
invalidated later now token_hash [] = refl
invalidated later now token_hash (k ∷ t) = ground (arith, invalidated later now token_hash t)

abbrev pub IsFresh : ℕ → List ResetToken → Type 0
IsFresh token_hash = All (λ (k : ResetToken). k.token_hash ≢ token_hash)

fresh_inactive :
    (later now user_id token_hash : ℕ) (t : List ResetToken)
    → IsFresh token_hash t
    → any (is_active later token_hash) (update_many (is_unused_of user_id) (use_token now) t).0
      ≡ false
unfolding update_many is_active
fresh_inactive later now user_id token_hash [] h = refl
fresh_inactive later now user_id token_hash (k ∷ t) (h, hs) =
    ground (arith, fresh_inactive later now user_id token_hash t hs, h)

-- The table after a creation that the cooldown allows.
abbrev created_tokens : ℕ → ℕ → ℕ → ℕ → ℕ → List ResetToken → List ResetToken
created_tokens db_now now user_id token_hash expires_at t =
    record {
      user_id = user_id;
      token_hash = token_hash;
      expires_at = expires_at;
      used_at = none;
      created_at = db_now;
    }
    ∷ (update_many (is_unused_of user_id) (use_token now) t).0

created-IsOnlyToken :
    (db_now now user_id token_hash expires_at : ℕ) (t : List ResetToken)
    → IsOnlyToken user_id token_hash (created_tokens db_now now user_id token_hash expires_at t)
created-IsOnlyToken db_now now user_id token_hash expires_at t = (
  (λ _. refl),
  All-update_many (is_unused_of user_id) (use_token now)
      (λ (k : ResetToken). is_unused_of user_id k ≡ true → k.token_hash ≡ token_hash) t
      (λ k h q. ground arith) (λ k h q. ground arith),
)

created-active :
    (later db_now now user_id token_hash expires_at : ℕ) (t : List ResetToken)
    → IsFresh token_hash t
    → any (is_active later token_hash) (created_tokens db_now now user_id token_hash expires_at t)
      ≡ ltb later expires_at
unfolding is_active
created-active later db_now now user_id token_hash expires_at t h =
    ground (arith, fresh_inactive later now user_id token_hash t h)

-- What a mail that was tried leaves behind.
abbrev pub IsTried : ℕ → ℕ → ℕ → Bool → Sent → ℕ → List ResetToken × DeliveryOutcome → Type 0
IsTried user_id token_hash expires_at final_attempt sent later r =
    (r.1 ≢ skipped)
    × IsOnlyToken user_id token_hash r.0
    × (has_active_password_reset_token later token_hash r.0
        ≡ (keeps_token final_attempt sent && ltb later expires_at))

-- The write that takes the token back, where it is made and where it throws.
take_back-IsTried :
    (user_id token_hash expires_at now later : ℕ) (write_fails : Bool) (t : List ResetToken)
    → IsOnlyToken user_id token_hash t
    → any (is_active later token_hash) t ≡ ltb later expires_at
    → IsTried user_id token_hash expires_at true
        (failed_for_now write_fails)
        later
        (take_back now token_hash write_fails t)
unfolding has_active_password_reset_token
take_back-IsTried user_id token_hash expires_at now later true t only act = ((λ e. cc), only, act)
take_back-IsTried user_id token_hash expires_at now later false t only act = (
  (λ e. cc),
  IsOnlyToken-invalidate user_id now token_hash t only,
  invalidated later now token_hash t,
)

after_send-IsTried :
    (user_id token_hash expires_at now later : ℕ) (final_attempt : Bool) (sent : Sent)
    → (t : List ResetToken) → IsOnlyToken user_id token_hash t
    → any (is_active later token_hash) t ≡ ltb later expires_at
    → IsTried user_id token_hash expires_at final_attempt sent later
        (after_send final_attempt now token_hash sent t)
unfolding after_send has_active_password_reset_token
after_send-IsTried user_id token_hash expires_at now later final_attempt delivered t only act =
    ((λ e. cc), only, act)
after_send-IsTried user_id token_hash expires_at now later final_attempt (failed_permanently w) t
      only act =
    take_back-IsTried user_id token_hash expires_at now later w t only act
after_send-IsTried user_id token_hash expires_at now later true (failed_for_now w) t only act =
    take_back-IsTried user_id token_hash expires_at now later w t only act
after_send-IsTried user_id token_hash expires_at now later false (failed_for_now w) t only act =
    ((λ e. cc), only, act)

module _ (c : ResetConfig) (final_attempt : Bool) (now db_now token_hash : ℕ) (sent : Sent)
    (later : ℕ) where
  abbrev expiry : ℕ
  expiry = now + c.token_ttl_minutes * 60 * 1000

  -- Either nothing happened, or a mail was tried.
  abbrev pub IsDelivery : ℕ → List ResetToken → List ResetToken × DeliveryOutcome → Type 0
  IsDelivery user_id t r =
      ((r.1 ≡ skipped) × (r.0 ≡ t)) ⊎ IsTried user_id token_hash expiry final_attempt sent later r

  deliver_to-cases :
      (u : User) (t : List ResetToken)
      → IsFresh token_hash t
      → IsDelivery u.id t (deliver_to c final_attempt now db_now token_hash sent (some u) t)
  unfolding create_password_reset_token
  deliver_to-cases u t fresh = elim (Bool-cases (is_some u.password_hash)) [
    | inr e ↦ rw e (inl (refl, refl))
    | inl e ↦ elim (Bool-cases (any (is_recent u.id (c.cooldown_seconds * 1000) now) t)) [
      | inl q ↦ rw (e, q) (inl (refl, refl))
      | inr q ↦
          rw (e, q)
            (inr (
              after_send-IsTried u.id token_hash expiry now later final_attempt sent
                (created_tokens db_now now u.id token_hash expiry t)
                (created-IsOnlyToken db_now now u.id token_hash expiry t)
                (created-active later db_now now u.id token_hash expiry t fresh)))
    ]
  ]

  -- Who a delivery to an address is about.
  abbrev pub IsDelivered : ℕ → Accounts → Option User → List ResetToken × DeliveryOutcome → Type 0
  IsDelivered email a none r = r ≡ (a.reset_tokens, skipped)
  IsDelivered email a (some u) r =
      (Has u a.users × ((u.email == email) ≡ true)) × IsDelivery u.id a.reset_tokens r

  deliver_found-cases :
      (email : ℕ) (a : Accounts) (o : Option User)
      → find (λ (u : User). u.email == email) a.users ≡ o
      → IsFresh token_hash a.reset_tokens
      → IsDelivered email a o
          (deliver_to c final_attempt now db_now token_hash sent o a.reset_tokens)
  deliver_found-cases email a none e fresh = refl
  deliver_found-cases email a (some u) e fresh = (
    find-Has (λ (x : User). x.email == email) u a.users e,
    deliver_to-cases u a.reset_tokens fresh,
  )

  -- Where no token has the new hash: a delivery for an unknown address changes no token. For a known
  -- one, either it is skipped and changes no token, or the new token is the user's only unused one,
  -- and whether it can be used at a later time is this. If the mail failed for good, or failed on the
  -- last attempt, and the write that takes the token back was made, it cannot. If the mail was
  -- delivered, may be tried again, or that write threw, it can, exactly before it expires.
  pub deliver_password_reset-IsDelivered :
      (email : ℕ) (a : Accounts)
      → IsFresh token_hash a.reset_tokens
      → let (a', outcome) =
          deliver_password_reset c final_attempt now db_now token_hash sent email a in
        IsDelivered email a
          (find (λ (u : User). u.email == email) a.users)
          (a'.reset_tokens, outcome)
  unfolding deliver_password_reset
  deliver_password_reset-IsDelivered email a fresh = deliver_found-cases email a _ refl fresh
