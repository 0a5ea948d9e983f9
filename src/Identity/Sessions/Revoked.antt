-- ===== src/Identity/Sessions/Revoked.antt =====
-- An ended session stays ended: `revokeSessionById`, `revokeSession`, `refresh` and `logout`
-- (backend/src/modules/auth).
use oculus_business.Common.{
  List, [], ◌∷◌, All, Has, Option, none, some, ◌≡◌, refl, arith, ℕ, ◌+◌, ◌*◌, true, is_some, inl,
  inr, Bool-cases, ◌==◌, Bool, false,
}
use oculus_business.Identity.{Session, Metadata}
use oculus_business.Common.Rows.{update_many, All-Has, find-Has}
use oculus_business.Identity.Sessions.Laws.{IsSound, find_active_refresh_session-IsSound}
use oculus_business.Identity.Sessions.{
  RefreshTokens, revoke_found, accepted, authenticate_claims, raced_found, SessionConfig,
  FoundSession, CredentialState, current, previous_within_grace, reused, day_ms, may_rotate,
  rotate_refresh_session, revoke_session_by_id, is_unrevoked, lookup, revoke_reused, begin_found,
  begin_with, begin_refresh, raced_reply, try_rotate, finish_refresh, go_on, refresh_token, refresh,
  revoke_session, logout, is_live, AccessClaims, find_active_access_session,
  authenticate_access_token, reply, Reply, refused, refresh_session_invalid,
}

-- Every row with the identifier is revoked.
abbrev pub IsRevokedRow : ℕ → Session → Type 0
IsRevokedRow id s = s.id ≡ id → is_some s.revoked_at ≡ true

abbrev pub IsEnded : ℕ → List Session → Type 0
IsEnded id = All (IsRevokedRow id)

revoke-IsEnded :
    (id now id' : ℕ) (t : List Session)
    → IsEnded id t
    → IsEnded id (revoke_session_by_id now id' t).0
unfolding revoke_session_by_id update_many
revoke-IsEnded id now id' [] h = tt
revoke-IsEnded id now id' (s ∷ t) (h, hs) = elim (Bool-cases (is_unrevoked id' s)) [
  | inl e ↦ rw e ((λ _. refl), revoke-IsEnded id now id' t hs)
  | inr e ↦ rw e (h, revoke-IsEnded id now id' t hs)
]

-- The statement ends the session that it names.
revoke_session_by_id-IsEnded :
    (now id : ℕ) (t : List Session) → IsEnded id (revoke_session_by_id now id t).0
unfolding revoke_session_by_id update_many
revoke_session_by_id-IsEnded now id [] = tt
revoke_session_by_id-IsEnded now id (s ∷ t) = elim (Bool-cases (is_unrevoked id s)) [
  | inl e ↦ rw e ((λ _. refl), revoke_session_by_id-IsEnded now id t)
  | inr e ↦ rw e ((λ q. ground arith), revoke_session_by_id-IsEnded now id t)
]

rotate-IsEnded :
    (id now id' hash next family expires : ℕ) (metadata : Metadata) (t : List Session)
    → IsEnded id t
    → IsEnded id (rotate_refresh_session now id' hash next family expires metadata t).0
unfolding rotate_refresh_session update_many
rotate-IsEnded id now id' hash next family expires metadata [] h = tt
rotate-IsEnded id now id' hash next family expires metadata (s ∷ t) (h, hs) =
    let rest = rotate-IsEnded id now id' hash next family expires metadata t hs in
    elim (Bool-cases (may_rotate now id' hash s)) [
      | inl e ↦ rw e (h, rest)
      | inr e ↦ rw e (h, rest)
    ]

module _ (tokens : RefreshTokens) (c : SessionConfig) (id : ℕ) where
  raced_found-IsEnded :
      (now token : ℕ) (s : Session) (t : List Session) (f : Session) (k : CredentialState)
      → IsEnded id t
      → IsEnded id (raced_found tokens c now token s t f k).0
  unfolding raced_found revoke_reused
  raced_found-IsEnded now token s t f reused h = ground (arith, revoke-IsEnded id now f.id t h)
  raced_found-IsEnded now token s t f current h = h
  raced_found-IsEnded now token s t f previous_within_grace h = ground arith

  raced-IsEnded :
      (now token : ℕ) (s : Session) (t : List Session) (o : Option FoundSession)
      → IsEnded id t
      → IsEnded id (raced_reply tokens c now token s t o).0
  raced-IsEnded now token s t none h = h
  raced-IsEnded now token s t (some f) h =
      raced_found-IsEnded now token s t f.session f.credential_state h

  finish-IsEnded :
      (now token : ℕ) (metadata : Metadata) (s : Session) (t : List Session)
      → IsEnded id t
      → IsEnded id (finish_refresh tokens c now token metadata s t).0
  unfolding finish_refresh try_rotate
  finish-IsEnded now token metadata s t h =
      let next = tokens.rotate token in
      let t' = (try_rotate tokens c now token metadata s t).0 in
      let kept =
        rotate-IsEnded id now s.id s.refresh_token_hash (tokens.hash next) (tokens.family_hash next)
          (now + c.refresh_token_ttl_days * day_ms) metadata t h in
      ground (arith, kept, raced-IsEnded now token s t' (lookup tokens c now token t') kept)

  found-IsEnded :
      (now token : ℕ) (metadata : Metadata) (t : List Session) (s : Session) (k : CredentialState)
      → IsEnded id t
      → IsEnded id (go_on tokens c now token metadata t (begin_found tokens c now token t s k)).0
  unfolding begin_found revoke_reused
  found-IsEnded now token metadata t s reused h = revoke-IsEnded id now s.id t h
  found-IsEnded now token metadata t s current h = finish-IsEnded now token metadata s t h
  found-IsEnded now token metadata t s previous_within_grace h = ground arith

  begun-IsEnded :
      (now token : ℕ) (metadata : Metadata) (t : List Session) (o : Option FoundSession)
      → IsEnded id t
      → IsEnded id (go_on tokens c now token metadata t (begin_with tokens c now token t o)).0
  begun-IsEnded now token metadata t none h = h
  begun-IsEnded now token metadata t (some f) h =
      found-IsEnded now token metadata t f.session f.credential_state h

  refresh-IsEnded :
      (now : ℕ) (token : Option ℕ) (metadata : Metadata) (t : List Session)
      → IsEnded id t
      → IsEnded id (refresh tokens c now token metadata t).0
  unfolding refresh refresh_token begin_refresh
  refresh-IsEnded now none metadata t h = h
  refresh-IsEnded now (some token) metadata t h =
      begun-IsEnded now token metadata t (lookup tokens c now token t) h

  revoke_found-IsEnded :
      (now : ℕ) (t : List Session) (o : Option Session)
      → IsEnded id t
      → IsEnded id (revoke_found tokens c now t o).0
  unfolding revoke_found
  revoke_found-IsEnded now t none h = h
  revoke_found-IsEnded now t (some s) h = revoke-IsEnded id now s.id t h

  logout-IsEnded :
      (now : ℕ) (token : Option ℕ) (t : List Session)
      → IsEnded id t
      → IsEnded id (logout tokens c now token t).0
  unfolding logout revoke_session
  logout-IsEnded now none t h = h
  logout-IsEnded now (some token) t h = revoke_found-IsEnded now t _ h

abbrev pub is_session : ℕ → Reply Session → Bool
is_session id (refused e) = false
is_session id (reply s) = s.id == id

abbrev pub is_found : ℕ → Option FoundSession → Bool
is_found id none = false
is_found id (some f) = f.session.id == id

-- A request that reaches the sessions.
pub data Request : Type 0 where
  refreshes : ℕ → Option ℕ → Metadata → Request
  logs_out : ℕ → Option ℕ → Request

module _ (tokens : RefreshTokens) (c : SessionConfig) where
  abbrev pub serve : Request → List Session → List Session
  serve (refreshes now token metadata) t = (refresh tokens c now token metadata t).0
  serve (logs_out now token) t = (logout tokens c now token t).0

  -- The last request stands first.
  abbrev pub serve_all : List Request → List Session → List Session
  serve_all [] t = t
  serve_all (q ∷ qs) t = serve q (serve_all qs t)

  serve-IsEnded : (id : ℕ) (q : Request) (t : List Session) → IsEnded id t → IsEnded id (serve q t)
  serve-IsEnded id (refreshes now token metadata) t h =
      refresh-IsEnded tokens c id now token metadata t h
  serve-IsEnded id (logs_out now token) t h = logout-IsEnded tokens c id now token t h

  serve_all-IsEnded :
      (id : ℕ) (qs : List Request) (t : List Session) → IsEnded id t → IsEnded id (serve_all qs t)
  serve_all-IsEnded id [] t h = h
  serve_all-IsEnded id (q ∷ qs) t h =
      serve-IsEnded id q (serve_all qs t) (serve_all-IsEnded id qs t h)

  live_other :
      (id now : ℕ) (s : Session) (t : List Session)
      → IsEnded id t
      → Has s t
      → is_live c now s ≡ true
      → (s.id == id) ≡ false
  unfolding is_live
  live_other id now s t h m live = ground (arith, All-Has (IsRevokedRow id) s t h m)

  accepted_other :
      (id now : ℕ) (claims : AccessClaims) (t : List Session) (o : Option Session)
      → find_active_access_session c now claims t ≡ o
      → IsEnded id t
      → is_session id (accepted o) ≡ false
  unfolding find_active_access_session
  accepted_other id now claims t none e h = refl
  accepted_other id now claims t (some s) e h =
      let (m, q) = find-Has _ s t e in live_other id now s t h m (ground arith)

  claims_other :
      (id now : ℕ) (o : Option AccessClaims) (t : List Session)
      → IsEnded id t
      → is_session id (authenticate_claims c now o t) ≡ false
  claims_other id now none t h = refl
  claims_other id now (some claims) t h = accepted_other id now claims t _ refl h

  authenticate_other :
      (verify : ℕ → Option AccessClaims) (id now : ℕ) (access : Option ℕ) (t : List Session)
      → IsEnded id t
      → is_session id (authenticate_access_token verify c now access t) ≡ false
  unfolding authenticate_access_token
  authenticate_other verify id now none t h = refl
  authenticate_other verify id now (some token) t h = claims_other id now (verify token) t h

  found_other :
      (id now hash : ℕ) (t : List Session) (o : Option FoundSession)
      → IsEnded id t
      → IsSound c now hash t o
      → is_found id o ≡ false
  found_other id now hash t none h sound = refl
  found_other id now hash t (some f) h (m, live, cred) = live_other id now f.session t h m live

  lookup_other :
      (id now token : ℕ) (t : List Session)
      → IsEnded id t
      → is_found id (lookup tokens c now token t) ≡ false
  unfolding lookup
  lookup_other id now token t h =
      found_other id now (tokens.hash token) t _ h
        (find_active_refresh_session-IsSound c now (tokens.hash token) (tokens.family_hash token) t)

  -- A refresh with a token that is found to be reused is refused, and ends its session for good:
  -- after any further refreshes and logouts, at any time, no access token is accepted for this
  -- session and no refresh token finds it.
  pub refresh_reused :
      (now token : ℕ) (metadata : Metadata) (t : List Session) (f : FoundSession)
      → (qs : List Request) → (verify : ℕ → Option AccessClaims) → (later : ℕ) → (access : Option ℕ)
      → (token' : ℕ) → lookup tokens c now token t ≡ some f
      → f.credential_state ≡ reused
      → let (t', answer) = refresh tokens c now (some token) metadata t in
        (answer ≡ refused refresh_session_invalid)
        × (is_session f.session.id
              (authenticate_access_token verify c later access (serve_all qs t'))
            ≡ false)
        × (is_found f.session.id (lookup tokens c later token' (serve_all qs t')) ≡ false)
  unfolding refresh refresh_token begin_refresh begin_found revoke_reused
  refresh_reused now token metadata t f qs verify later access token' e r =
      let id = f.session.id in
      let over = serve_all-IsEnded id qs _ (revoke_session_by_id-IsEnded now id t) in
      rw (e, r)
        (
          refl,
          authenticate_other verify id later access _ over,
          lookup_other id later token' _ over,
        )
