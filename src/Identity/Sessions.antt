-- ===== src/Identity/Sessions.antt =====
-- Sessions and their refresh tokens: `AuthService.refresh`, `authenticateAccessToken` and `logout`
-- of backend/src/modules/auth/application/auth-service.ts, on the statements of
-- backend/src/modules/auth/infrastructure/auth-repository.ts. The hash, family and rotation of
-- tokens and the verification of an access token are parameters. A bound `now - ttl < created` is
-- written `now < created + ttl`, since subtraction of ℕ stops at 0. `refresh` is written as the
-- part before its rotation and the part from the rotation on, so that requests can interleave.
pub mod Laws
pub mod Race
pub mod Revoked
mod Examples
use oculus_business.Common.{
  ℕ, ◌+◌, ◌*◌, Bool, true, false, not, ◌&&◌, ◌||◌, ◌==◌, Option, none, some, List, [], ◌∷◌, find,
  is_some, ltb, leb, ◌<|>◌, if◌then◌else◌,
}
use oculus_business.Common.Rows.{update_many}
use oculus_business.Identity.{Session, Metadata}

pub record RefreshTokens : Type 0 where
  pub hash : ℕ → ℕ
  pub family_hash : ℕ → ℕ
  pub rotate : ℕ → ℕ

pub record SessionConfig : Type 0 where
  pub refresh_token_ttl_days : ℕ
  pub refresh_reuse_grace_seconds : ℕ
  pub session_absolute_ttl_days : ℕ

abbrev pub day_ms : ℕ
day_ms = 24 * 60 * 60 * 1000

-- `=== ` between a nullable column and a value.
abbrev pub holds : Option ℕ → ℕ → Bool
holds none _ = false
holds (some a) b = a == b

-- The conditions on `revokedAt`, `expiresAt` and `createdAt`.
unfoldable pub is_live : SessionConfig → ℕ → Session → Bool
is_live c now s =
    not (is_some s.revoked_at)
    && ltb now s.expires_at
    && ltb now (s.created_at + c.session_absolute_ttl_days * day_ms)

pub data CredentialState : Type 0 where
  current previous_within_grace reused : CredentialState

-- `refreshRotatedAt !== null && refreshRotatedAt >= reuseGraceAfter`.
abbrev pub in_grace : SessionConfig → ℕ → Option ℕ → Bool
in_grace c now none = false
in_grace c now (some rotated) = leb now (rotated + c.refresh_reuse_grace_seconds * 1000)

unfoldable pub previous_state : SessionConfig → ℕ → Session → CredentialState
previous_state c now s =
    if in_grace c now s.refresh_rotated_at then previous_within_grace else reused

unfoldable pub family_state : SessionConfig → ℕ → ℕ → Session → CredentialState
unfolding previous_state
family_state c now hash s =
    if s.refresh_token_hash == hash
    then current
    else if holds s.previous_refresh_token_hash hash
    then previous_state c now s
    else reused

pub record FoundSession : Type 0 where
  pub session : Session
  pub credential_state : CredentialState

abbrev pub found_as : (Session → CredentialState) → Option Session → Option FoundSession
found_as state none = none
found_as state (some s) = some (record { session = s; credential_state = state s })

-- `findActiveRefreshSession`: by family, then by current hash, then by previous hash.
unfoldable pub find_active_refresh_session :
    SessionConfig → ℕ → ℕ → ℕ → List Session → Option FoundSession
unfolding is_live family_state previous_state
find_active_refresh_session c now hash family t =
    found_as (family_state c now hash)
      (find (λ s. holds s.refresh_token_family_hash family && is_live c now s) t)
    <|> found_as (λ _. current) (find (λ s. s.refresh_token_hash == hash && is_live c now s) t)
    <|> found_as (previous_state c now)
        (find (λ s. holds s.previous_refresh_token_hash hash && is_live c now s) t)

abbrev pub rotated_to : ℕ → ℕ → ℕ → ℕ → ℕ → Metadata → Session → Session
rotated_to now current_hash next_hash next_family expires metadata s = record s {
  previous_refresh_token_hash = some current_hash;
  refresh_token_hash = next_hash;
  refresh_token_family_hash = some next_family;
  refresh_rotated_at = some now;
  expires_at = expires;
  metadata = metadata;
}

abbrev pub may_rotate : ℕ → ℕ → ℕ → Session → Bool
may_rotate now id hash s =
    s.id == id && s.refresh_token_hash == hash && not (is_some s.revoked_at) && ltb now s.expires_at

abbrev pub is_named : ℕ → ℕ → Session → Bool
is_named hash family s =
    s.refresh_token_hash == hash
    || holds s.previous_refresh_token_hash hash
    || holds s.refresh_token_family_hash family

-- `rotateRefreshSession`.
unfoldable pub rotate_refresh_session :
    ℕ → ℕ → ℕ → ℕ → ℕ → ℕ → Metadata → List Session → List Session × Bool
unfolding update_many
rotate_refresh_session now id hash next_hash next_family expires metadata t =
    let (t', n) =
      update_many (may_rotate now id hash)
        (rotated_to now hash next_hash next_family expires metadata) t in
    (t', n == 1)

abbrev pub is_unrevoked : ℕ → Session → Bool
is_unrevoked id s = s.id == id && not (is_some s.revoked_at)

abbrev pub revoke : ℕ → Session → Session
revoke now s = record s { revoked_at = some now }

-- `revokeSessionById`.
unfoldable pub revoke_session_by_id : ℕ → ℕ → List Session → List Session × Bool
unfolding update_many
revoke_session_by_id now id t =
    let (t', n) = update_many (is_unrevoked id) (revoke now) t in (t', n == 1)

-- The codes of `AuthFailure`.
pub data AuthFailure : Type 0 where
  refresh_token_required refresh_session_invalid access_token_required : AuthFailure
  access_token_invalid session_invalid password_reset_invalid : AuthFailure
  email_already_exists invalid_credentials : AuthFailure

pub data Reply (A : Type 0) : Type 0 where
  reply : A → Reply A
  refused : AuthFailure → Reply A

-- The session that the new access token names, and the refresh token.
pub record Refreshed : Type 0 where
  pub sub : ℕ
  pub session_id : ℕ
  pub refresh_token : ℕ

unfoldable pub refresh_response : Session → ℕ → Reply Refreshed
refresh_response s token =
    reply (record { sub = s.user_id; session_id = s.id; refresh_token = token })

module _ (tokens : RefreshTokens) (c : SessionConfig) where
  -- What `refresh` does before its rotation: it ends, or goes on with the session it found.
  pub data Begun : Type 0 where
    ended : List Session → Reply Refreshed → Begun
    rotating : Session → Begun

  unfoldable pub lookup : ℕ → ℕ → List Session → Option FoundSession
  unfolding find_active_refresh_session
  lookup now token t =
      find_active_refresh_session c now (tokens.hash token) (tokens.family_hash token) t

  unfoldable pub revoke_reused : ℕ → Session → List Session → List Session × Reply Refreshed
  unfolding revoke_session_by_id
  revoke_reused now s t = ((revoke_session_by_id now s.id t).0, refused refresh_session_invalid)

  unfoldable pub begin_found : ℕ → ℕ → List Session → Session → CredentialState → Begun
  unfolding revoke_reused refresh_response
  begin_found now token t s reused = ended (revoke_reused now s t).0 (revoke_reused now s t).1
  begin_found now token t s previous_within_grace =
      let next = tokens.rotate token in
      if s.refresh_token_hash == tokens.hash next
      then ended t (refresh_response s next)
      else ended t (refused refresh_session_invalid)
  begin_found now token t s current = rotating s

  -- `refresh` up to its rotation.
  abbrev pub begin_with : ℕ → ℕ → List Session → Option FoundSession → Begun
  begin_with now token t none = ended t (refused refresh_session_invalid)
  begin_with now token t (some f) = begin_found now token t f.session f.credential_state

  unfoldable pub begin_refresh : ℕ → ℕ → List Session → Begun
  unfolding lookup begin_found
  begin_refresh now token t = begin_with now token t (lookup now token t)

  unfoldable pub raced_found :
      ℕ → ℕ → Session → List Session → Session → CredentialState → List Session × Reply Refreshed
  unfolding revoke_reused refresh_response
  raced_found now token s t raced reused =
      if raced.id == s.id then revoke_reused now raced t else (t, refused refresh_session_invalid)
  raced_found now token s t raced current = (t, refused refresh_session_invalid)
  raced_found now token s t raced previous_within_grace =
      let next = tokens.rotate token in
      if raced.id == s.id && raced.refresh_token_hash == tokens.hash next
      then (t, refresh_response raced next)
      else (t, refused refresh_session_invalid)

  -- The rotation did not match a row: another request was first.
  abbrev pub raced_reply :
      ℕ → ℕ → Session → List Session → Option FoundSession → List Session × Reply Refreshed
  raced_reply now token s t none = (t, refused refresh_session_invalid)
  raced_reply now token s t (some f) = raced_found now token s t f.session f.credential_state

  unfoldable pub try_rotate : ℕ → ℕ → Metadata → Session → List Session → List Session × Bool
  unfolding rotate_refresh_session
  try_rotate now token metadata s t =
      let next = tokens.rotate token in
      rotate_refresh_session now s.id s.refresh_token_hash (tokens.hash next)
        (tokens.family_hash next) (now + c.refresh_token_ttl_days * day_ms) metadata t

  -- `refresh` from its rotation on, on the rows that stand then.
  unfoldable pub finish_refresh :
      ℕ → ℕ → Metadata → Session → List Session → List Session × Reply Refreshed
  unfolding try_rotate raced_found refresh_response
  finish_refresh now token metadata s t =
      let (t', rotated) = try_rotate now token metadata s t in
      if rotated
      then (t', refresh_response s (tokens.rotate token))
      else raced_reply now token s t' (lookup now token t')

  abbrev pub go_on : ℕ → ℕ → Metadata → List Session → Begun → List Session × Reply Refreshed
  go_on now token metadata t (ended t' r) = (t', r)
  go_on now token metadata t (rotating s) = finish_refresh now token metadata s t

  unfoldable pub refresh_token : ℕ → ℕ → Metadata → List Session → List Session × Reply Refreshed
  unfolding begin_refresh finish_refresh
  refresh_token now token metadata t = go_on now token metadata t (begin_refresh now token t)

  -- `refresh`, undisturbed by other requests.
  unfoldable pub refresh : ℕ → Option ℕ → Metadata → List Session → List Session × Reply Refreshed
  unfolding refresh_token
  refresh now none metadata t = (t, refused refresh_token_required)
  refresh now (some token) metadata t = refresh_token now token metadata t

  unfoldable pub revoke_found : ℕ → List Session → Option Session → List Session × Option ℕ
  unfolding revoke_session_by_id
  revoke_found now t none = (t, none)
  revoke_found now t (some s) =
      let (t', done) = revoke_session_by_id now s.id t in
      (t', if done then some s.user_id else none)

  -- `revokeSession`, with the user whose session it ended.
  unfoldable pub revoke_session : ℕ → ℕ → ℕ → List Session → List Session × Option ℕ
  unfolding revoke_found
  revoke_session now hash family t =
      revoke_found now t (find (λ s. is_named hash family s && not (is_some s.revoked_at)) t)

  -- `logout`, with the user that `logoutCleanup` gets; the reply is whether there is one.
  unfoldable pub logout : ℕ → Option ℕ → List Session → List Session × Option ℕ
  unfolding revoke_session
  logout now none t = (t, none)
  logout now (some token) t = revoke_session now (tokens.hash token) (tokens.family_hash token) t

pub record AccessClaims : Type 0 where
  pub sub : ℕ
  pub session_id : ℕ

-- `findActiveAccessSession`.
unfoldable pub find_active_access_session :
    SessionConfig → ℕ → AccessClaims → List Session → Option Session
unfolding is_live
find_active_access_session c now claims t =
    find (λ s. s.id == claims.session_id && s.user_id == claims.sub && is_live c now s) t

abbrev pub accepted : Option Session → Reply Session
accepted none = refused session_invalid
accepted (some s) = reply s

abbrev pub authenticate_claims :
    SessionConfig → ℕ → Option AccessClaims → List Session → Reply Session
authenticate_claims c now none t = refused access_token_invalid
authenticate_claims c now (some claims) t = accepted (find_active_access_session c now claims t)

-- `authenticateAccessToken` up to the session it accepts; `verify` is none where it throws.
unfoldable pub authenticate_access_token :
    (ℕ → Option AccessClaims) → SessionConfig → ℕ → Option ℕ → List Session → Reply Session
unfolding find_active_access_session
authenticate_access_token verify c now none t = refused access_token_required
authenticate_access_token verify c now (some token) t = authenticate_claims c now (verify token) t
