-- ===== src/Identity/Sessions/Race.antt =====
-- Two requests with one refresh token (`refresh` of
-- backend/src/modules/auth/application/auth-service.ts).
use oculus_business.Common.{
  ℕ, ◌+◌, ◌*◌, ◌≤◌, Bool, true, false, ◌&&◌, some, List, ◌≡◌, ◌≢◌, refl, arith, All, Has,
  if◌then◌else◌, ap,
}
use oculus_business.Identity.{Session, Metadata}
use oculus_business.Common.Rows.{
  update_many, UniqueBy, All-imp, All-update_many, update_many_none, update_many_one,
  find-update_many,
}
use oculus_business.Identity.Sessions.{
  RefreshTokens, SessionConfig, FoundSession, previous_within_grace, day_ms, is_live, holds,
  previous_state, family_state, find_active_refresh_session, may_rotate, rotated_to,
  rotate_refresh_session, try_rotate, raced_found, raced_reply, refresh_response, finish_refresh,
  lookup, reply,
}

module _ (tokens : RefreshTokens) (c : SessionConfig) (now token : ℕ) (metadata : Metadata) where
  abbrev next : ℕ
  next = tokens.rotate token

  abbrev rotated : Session → Session → Session
  rotated s =
      rotated_to now s.refresh_token_hash (tokens.hash next) (tokens.family_hash next)
        (now + c.refresh_token_ttl_days * day_ms) metadata

  after : Session → List Session → List Session
  after s t = (update_many (may_rotate now s.id s.refresh_token_hash) (rotated s) t).0

  try_rotate-after :
      (s : Session) (t : List Session)
      → UniqueBy (λ x. x.id) t
      → Has s t
      → is_live c now s ≡ true
      → try_rotate tokens c now token metadata s t ≡ (after s t, true)
  unfolding try_rotate rotate_refresh_session is_live after
  try_rotate-after s t u m live =
      let one =
        update_many_one (λ x. x.id) (may_rotate now s.id s.refresh_token_hash) (rotated s) s t u m
          (ground arith) (λ y h. ground arith) in
      rw one refl

  -- The second rotation matches no row.
  try_rotate_again :
      (later : ℕ) (metadata' : Metadata) (s : Session) (t : List Session)
      → now ≤ later
      → tokens.hash next ≢ s.refresh_token_hash
      → try_rotate tokens c later token metadata' s (after s t) ≡ (after s t, false)
  unfolding try_rotate rotate_refresh_session after
  try_rotate_again later metadata' s t le new =
      let again = may_rotate later s.id s.refresh_token_hash in
      let missed =
        All-update_many (may_rotate now s.id s.refresh_token_hash) (rotated s)
          (λ x. again x ≡ false) t (λ x h. ground arith) (λ x h. ground arith) in
      rw
        (update_many_none again
          (rotated_to later s.refresh_token_hash (tokens.hash next) (tokens.family_hash next)
            (later + c.refresh_token_ttl_days * day_ms) metadata')
          (after s t) missed)
        refl

  abbrev found_rotated : Session → FoundSession
  found_rotated s = record { session = rotated s s; credential_state = previous_within_grace }

  -- The family still leads to the rotated row, where the old token is the previous one.
  lookup-after :
      (later : ℕ) (s : Session) (t : List Session)
      → UniqueBy (λ x. x.id) t
      → Has s t
      → is_live c now s ≡ true
      → is_live c later (rotated s s) ≡ true
      → s.refresh_token_hash ≡ tokens.hash token
      → tokens.hash next ≢ s.refresh_token_hash
      → tokens.family_hash next ≡ tokens.family_hash token
      → All
          (λ x. x.id ≢ s.id → holds x.refresh_token_family_hash (tokens.family_hash token) ≡ false)
          t
      → later ≤ now + c.refresh_reuse_grace_seconds * 1000
      → lookup tokens c later token (after s t) ≡ some (found_rotated s)
  unfolding lookup find_active_refresh_session after is_live family_state previous_state
  lookup-after later s t u m live live' cur new fam alone grace =
      let p = λ (x : Session).
        holds x.refresh_token_family_hash (tokens.family_hash token) && is_live c later x in
      let others =
        All-imp
          (λ (x : Session).
            x.id ≢ s.id → holds x.refresh_token_family_hash (tokens.family_hash token) ≡ false)
          (λ (x : Session). x.id ≢ s.id → p x ≡ false) t (λ x h d. ground (arith, h d)) alone in
      let found =
        find-update_many (λ (x : Session). x.id) (may_rotate now s.id s.refresh_token_hash)
          (rotated s) p s t u m (ground arith) (λ y h. ground arith) (ground arith) others in
      rw found (ground arith)

  pair_finish :
      (later : ℕ) (metadata' : Metadata) (s : Session) (t t' : List Session) (b : Bool)
      → try_rotate tokens c later token metadata' s t ≡ (t', b)
      → finish_refresh tokens c later token metadata' s t ≡ (
          if b
          then (t', refresh_response s next)
          else raced_reply tokens c later token s t' (lookup tokens c later token t'))
  unfolding finish_refresh
  pair_finish later metadata' s t t' b e =
      ap
        (λ (r : List Session × Bool).
          if r.1
          then (r.0, refresh_response s next)
          else raced_reply tokens c later token s r.0 (lookup tokens c later token r.0))
        e

  -- Two requests with the current token of a live session, both past their first read: the later
  -- one, within the grace period and before the session ends, gets the answer of the first and
  -- changes no row. Rotation keeps the family of a token and changes its hash, and no other row
  -- has the family (the unique index).
  pub finish_refresh_race :
      (later : ℕ) (metadata' : Metadata) (s : Session) (t : List Session)
      → UniqueBy (λ x. x.id) t
      → Has s t
      → is_live c now s ≡ true
      → is_live c later (rotated s s) ≡ true
      → s.refresh_token_hash ≡ tokens.hash token
      → tokens.hash next ≢ s.refresh_token_hash
      → tokens.family_hash next ≡ tokens.family_hash token
      → All
          (λ x. x.id ≢ s.id → holds x.refresh_token_family_hash (tokens.family_hash token) ≡ false)
          t
      → now ≤ later
      → later ≤ now + c.refresh_reuse_grace_seconds * 1000
      → let (t', first) = finish_refresh tokens c now token metadata s t in
        (finish_refresh tokens c later token metadata' s t' ≡ (t', first))
        × (first ≡ reply (record { sub = s.user_id; session_id = s.id; refresh_token = next }))
  unfolding raced_found refresh_response
  finish_refresh_race later metadata' s t u m live live' cur new fam alone le grace =
      let first = pair_finish now metadata s t (after s t) true (try_rotate-after s t u m live) in
      let second =
        pair_finish later metadata' s (after s t) (after s t) false
          (try_rotate_again later metadata' s t le new) in
      let found = lookup-after later s t u m live live' cur new fam alone grace in
      rw (first, second, found) (ground arith, refl)
