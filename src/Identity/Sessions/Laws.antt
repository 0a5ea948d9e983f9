-- ===== src/Identity/Sessions/Laws.antt =====
-- Who gets a new refresh token: `findActiveRefreshSession` and `refresh`
-- (backend/src/modules/auth).
use oculus_business.Common.{
  ==_iff, ℕ, ◌+◌, ◌*◌, ◌<◌, Bool, true, ◌&&◌, ◌==◌, Option, none, some, List, find, ◌<|>◌, ◌≡◌, ◌⊎◌,
  inl, inr, refl, arith, Has, Bool-cases, Option-cases,
}
use oculus_business.Identity.{Session, Metadata}
use oculus_business.Common.Rows.{UniqueBy, find-Has, update_many_one}
use oculus_business.Identity.Sessions.{
  rotated_to, go_on, begin_with, refresh_token, begin_refresh, finish_refresh, begin_found, lookup,
  Refreshed, reply, refresh_response, revoke_reused, CredentialState, find_active_refresh_session,
  RefreshTokens, SessionConfig, FoundSession, current, previous_within_grace, reused, is_live,
  holds, day_ms, in_grace, previous_state, family_state, found_as, try_rotate, may_rotate,
  rotate_refresh_session,
}

-- What a found session and its state say of the presented hash.
abbrev pub IsCredential : SessionConfig → ℕ → ℕ → Session → CredentialState → Type 0
IsCredential c now hash s current = s.refresh_token_hash ≡ hash
IsCredential c now hash s previous_within_grace =
    (holds s.previous_refresh_token_hash hash ≡ true) × (in_grace c now s.refresh_rotated_at ≡ true)
IsCredential c now hash s reused = Unit

previous-IsCredential :
    (c : SessionConfig) (now hash : ℕ) (s : Session)
    → holds s.previous_refresh_token_hash hash ≡ true
    → IsCredential c now hash s (previous_state c now s)
unfolding previous_state
previous-IsCredential c now hash s h = elim (Bool-cases (in_grace c now s.refresh_rotated_at)) [
  | inl e ↦ rw e (h, e)
  | inr e ↦ rw e tt
]

family-IsCredential :
    (c : SessionConfig) (now hash : ℕ) (s : Session)
    → IsCredential c now hash s (family_state c now hash s)
unfolding family_state
family-IsCredential c now hash s = elim (Bool-cases (s.refresh_token_hash == hash)) [
  | inl e ↦ rw e ((==_iff s.refresh_token_hash hash).0 e)
  | inr e ↦ elim (Bool-cases (holds s.previous_refresh_token_hash hash)) [
    | inl q ↦ rw (e, q) (previous-IsCredential c now hash s q)
    | inr q ↦ rw (e, q) tt
  ]
]

-- What is searched for is live and has the credential.
abbrev pub IsSound : SessionConfig → ℕ → ℕ → List Session → Option FoundSession → Type 0
IsSound c now hash t none = Unit
IsSound c now hash t (some f) =
    Has f.session t
    × (is_live c now f.session ≡ true)
    × IsCredential c now hash f.session f.credential_state

found-IsSound :
    (c : SessionConfig)
    → (now hash : ℕ) → (p : Session → Bool) → (state : Session → CredentialState)
    → ((s : Session) → p s ≡ true → IsCredential c now hash s (state s))
    → (t : List Session)
    → IsSound c now hash t (found_as state (find (λ s. p s && is_live c now s) t))
found-IsSound c now hash p state good t =
    let q = λ (s : Session). p s && is_live c now s in
    elim (Option-cases (find q t)) [
      | inl e ↦ rw e tt
      | inr (s, e) ↦ let (m, h) = find-Has q s t e in rw e (m, ground arith, good s (ground arith))
    ]

either-IsSound :
    (c : SessionConfig) (now hash : ℕ) (t : List Session) (a b : Option FoundSession)
    → IsSound c now hash t a
    → IsSound c now hash t b
    → IsSound c now hash t (a <|> b)
either-IsSound c now hash t none b h k = k
either-IsSound c now hash t (some f) b h k = h

pub find_active_refresh_session-IsSound :
    (c : SessionConfig) (now hash family : ℕ) (t : List Session)
    → IsSound c now hash t (find_active_refresh_session c now hash family t)
unfolding find_active_refresh_session
find_active_refresh_session-IsSound c now hash family t =
    either-IsSound c now hash t _ _
      (found-IsSound c now hash (λ s. holds s.refresh_token_family_hash family)
        (family_state c now hash) (λ s h. family-IsCredential c now hash s) t)
      (either-IsSound c now hash t _ _
        (found-IsSound c now hash (λ s. s.refresh_token_hash == hash) (λ _. current)
          (λ s h. (==_iff s.refresh_token_hash hash).0 h) t)
        (found-IsSound c now hash (λ s. holds s.previous_refresh_token_hash hash)
          (previous_state c now) (λ s h. previous-IsCredential c now hash s h) t))

-- The session that a rotation aims at is the only row that it changes.
pub try_rotate-live :
    (tokens : RefreshTokens) (c : SessionConfig) (now token : ℕ) (metadata : Metadata)
    → (s : Session) → (t : List Session) → UniqueBy (λ x. x.id) t
    → Has s t
    → is_live c now s ≡ true
    → (try_rotate tokens c now token metadata s t).1 ≡ true
unfolding try_rotate rotate_refresh_session is_live
try_rotate-live tokens c now token metadata s t u m live =
    let p = may_rotate now s.id s.refresh_token_hash in
    let one =
      update_many_one (λ x. x.id) p
        (rotated_to now s.refresh_token_hash (tokens.hash (tokens.rotate token))
          (tokens.family_hash (tokens.rotate token)) (now + c.refresh_token_ttl_days * day_ms)
          metadata)
        s t u m (ground arith) (λ y h. ground arith) in
    rw one refl

-- A session that is not revoked, not expired, and within its absolute lifetime.
abbrev pub IsOpen : SessionConfig → ℕ → Session → Type 0
IsOpen c now s =
    (s.revoked_at ≡ none)
    × (now < s.expires_at)
    × (now < s.created_at + c.session_absolute_ttl_days * day_ms)

live-IsOpen : (c : SessionConfig) (now : ℕ) (s : Session) → is_live c now s ≡ true → IsOpen c now s
unfolding is_live
live-IsOpen c now s h = (ground arith, ground arith, ground arith)

-- The answer of `refresh` names a session that the presented token belongs to.
abbrev pub IsEntitled : RefreshTokens → SessionConfig → ℕ → ℕ → Session → Refreshed → Type 0
IsEntitled tokens c now token s r =
    IsOpen c now s
    × (r ≡ record { sub = s.user_id; session_id = s.id; refresh_token = tokens.rotate token })
    × ((s.refresh_token_hash ≡ tokens.hash token)
        ⊎ ((s.refresh_token_hash ≡ tokens.hash (tokens.rotate token))
            × (holds s.previous_refresh_token_hash (tokens.hash token) ≡ true)
            × (in_grace c now s.refresh_rotated_at ≡ true)))

module _ (tokens : RefreshTokens) (c : SessionConfig) (now token : ℕ) (metadata : Metadata) where
  Entitled : List Session → Refreshed → Type 0
  Entitled t r = (s : Session) × Has s t × IsEntitled tokens c now token s r

  answer_found :
      (t : List Session) (r : Refreshed) (s : Session) (k : CredentialState)
      → UniqueBy (λ x. x.id) t
      → Has s t
      → is_live c now s ≡ true
      → IsCredential c now (tokens.hash token) s k
      → (go_on tokens c now token metadata t (begin_found tokens c now token t s k)).1 ≡ reply r
      → Entitled t r
  unfolding Entitled begin_found finish_refresh refresh_response revoke_reused
  answer_found t r s reused u m live cred h = cc
  answer_found t r s previous_within_grace u m live (p, g) h =
      elim (Bool-cases (s.refresh_token_hash == tokens.hash (tokens.rotate token))) [
        | inl e ↦ (
          s,
          m,
          (
            live-IsOpen c now s live,
            ground arith,
            inr ((==_iff s.refresh_token_hash (tokens.hash (tokens.rotate token))).0 e, p, g),
          ),
        )
        | inr e ↦ ground arith
      ]
  answer_found t r s current u m live cred h =
      let one = try_rotate-live tokens c now token metadata s t u m live in
      (s, m, (live-IsOpen c now s live, ground arith, inl cred))

  answer_with :
      (t : List Session) (r : Refreshed) (o : Option FoundSession)
      → UniqueBy (λ x. x.id) t
      → IsSound c now (tokens.hash token) t o
      → (go_on tokens c now token metadata t (begin_with tokens c now token t o)).1 ≡ reply r
      → Entitled t r
  answer_with t r none u sound h = cc
  answer_with t r (some f) u (m, live, cred) h =
      answer_found t r f.session f.credential_state u m live cred h

  -- An answered request of `refresh`, undisturbed by others on a table of distinct sessions, has
  -- presented the current token of a live session, or its previous token within the grace period
  -- when the next token is already the current one; the answer names this session.
  pub refresh_token-IsEntitled :
      (t : List Session) (r : Refreshed)
      → UniqueBy (λ x. x.id) t
      → (refresh_token tokens c now token metadata t).1 ≡ reply r
      → (s : Session) × Has s t × IsEntitled tokens c now token s r
  unfolding refresh_token begin_refresh Entitled lookup
  refresh_token-IsEntitled t r u h =
      let sound =
        find_active_refresh_session-IsSound c now (tokens.hash token) (tokens.family_hash token)
          t in
      answer_with t r (lookup tokens c now token t) u sound h
