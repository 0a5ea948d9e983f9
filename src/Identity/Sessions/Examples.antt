-- ===== src/Identity/Sessions/Examples.antt =====
-- Tests of refresh and logout, and the theorems at a small table.
use oculus_business.Common.{
  ℕ, ◌+◌, ◌/◌, ◌≡◌, refl, some, none, List, [], ◌∷◌, Has, inl, arith, Option, false,
}
use oculus_business.Identity.{Session}
use oculus_business.Identity.Sessions.{
  RefreshTokens, SessionConfig, FoundSession, AccessClaims, reused, is_live, lookup, refresh,
  refresh_token, begin_refresh, finish_refresh, reply, refused, refresh_session_invalid,
  authenticate_access_token, logout, revoke_session,
}
use oculus_business.Common.Rows.{UniqueBy}
use oculus_business.Identity.Sessions.Laws.{IsEntitled, refresh_token-IsEntitled}
use oculus_business.Identity.Sessions.Revoked.{
  Request, refreshes, logs_out, serve_all, is_session, is_found, refresh_reused,
}
use oculus_business.Identity.Sessions.Race.{finish_refresh_race}

-- A token is its family times 100 and a counter.
abbrev counted : RefreshTokens
counted = record { hash = λ t. t + 1000; family_hash = λ t. t / 100; rotate = λ t. t + 1 }

abbrev days : SessionConfig
days = record {
  refresh_token_ttl_days = 7;
  refresh_reuse_grace_seconds = 10;
  session_absolute_ttl_days = 30;
}

abbrev phone : Session
phone = record {
  id = 1;
  user_id = 40;
  refresh_token_hash = 1501;
  refresh_token_family_hash = some 5;
  previous_refresh_token_hash = none;
  refresh_rotated_at = none;
  expires_at = 600000000;
  revoked_at = none;
  created_at = 1000;
  metadata = record { user_agent = none; ip_address = none };
}

abbrev laptop : Session
laptop = record phone { id = 2; refresh_token_hash = 1700; refresh_token_family_hash = some 7 }

abbrev rows : List Session
rows = phone ∷ laptop ∷ []

abbrev rows' : List Session
rows' = (refresh counted days 2000 (some 501) phone.metadata rows).0

verify_all : ℕ → Option AccessClaims
verify_all n = some (record { sub = 40; session_id = n })

first_refresh :
    (refresh counted days 2000 (some 501) phone.metadata rows).1
    ≡ reply (record { sub = 40; session_id = 1; refresh_token = 502 })
unfolding refresh refresh_token begin_refresh
first_refresh = refl

late_replay :
    (refresh counted days 13000 (some 501) phone.metadata rows').1 ≡ refused refresh_session_invalid
unfolding refresh refresh_token begin_refresh
late_replay = refl

logout_ends : (logout counted days 3000 (some 501) rows').1 ≡ some 40
unfolding logout revoke_session refresh refresh_token begin_refresh
logout_ends = refl

rows-UniqueBy : UniqueBy (λ (x : Session). x.id) rows
rows-UniqueBy = ((omega arith, tt), (tt, tt))

refresh_token-IsEntitled_example :
    (s : Session) × Has s rows
    × IsEntitled counted days 2000 501 s (record { sub = 40; session_id = 1; refresh_token = 502 })
unfolding refresh_token begin_refresh
refresh_token-IsEntitled_example =
    refresh_token-IsEntitled counted days 2000 501 phone.metadata rows
      (record { sub = 40; session_id = 1; refresh_token = 502 }) rows-UniqueBy refl

abbrev stale : FoundSession
stale = record {
  session = record phone {
    refresh_token_hash = 1502;
    previous_refresh_token_hash = some 1501;
    refresh_rotated_at = some 2000;
    expires_at = 604802000;
  };
  credential_state = reused;
}

abbrev later_requests : List Request
later_requests = logs_out 16000 (some 700) ∷ refreshes 15000 (some 502) phone.metadata ∷ []

refresh_reused_example :
    let (t', answer) = refresh counted days 13000 (some 501) phone.metadata rows' in
    (answer ≡ refused refresh_session_invalid)
    × (is_session 1 (
          authenticate_access_token verify_all days 17000
            (some 1)
            (serve_all counted days later_requests t'))
        ≡ false)
    × (is_found 1 (lookup counted days 17000 502 (serve_all counted days later_requests t'))
        ≡ false)
unfolding lookup refresh refresh_token begin_refresh
refresh_reused_example =
    refresh_reused counted days 13000 501 phone.metadata rows' stale later_requests verify_all 17000
      (some 1) 502 refl refl

finish_refresh_race_example :
    let (t', first) = finish_refresh counted days 2000 501 phone.metadata phone rows in
    (finish_refresh counted days 2500 501 phone.metadata phone t' ≡ (t', first))
    × (first ≡ reply (record { sub = 40; session_id = 1; refresh_token = 502 }))
unfolding is_live
finish_refresh_race_example =
    finish_refresh_race counted days 2000 501 phone.metadata 2500 phone.metadata phone rows
      rows-UniqueBy (inl refl) refl refl refl (omega arith) refl
      ((λ d. elim (d refl) [ ]), ((λ d. refl), tt)) (omega arith) (omega arith)
