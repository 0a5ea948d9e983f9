-- ===== src/Uploads/Cleanup.antt =====
-- The job `uploads:pending:cleanup` of backend/src/jobs.ts: uploads whose window has been closed for
-- an hour. It reads rows, deletes their objects one by one, any of which may fail, and then deletes
-- the rows whose objects are gone, by their identifiers alone; other requests come between.
use oculus_business.Common.{
  ℕ, zero, suc, ◌+◌, ◌*◌, ◌<◌, ◌≤◌, ◌≡◌, sym, ap, ◌≢◌, ◌⊎◌, inl, inr, Bool, true, not, ◌&&◌, ◌==◌,
  Option, none, some, List, [], ◌∷◌, arith, ltb, any, filter, find, take, All, Has, sort_by,
  Has-sort_by, ==_iff, ◌∙◌,
}
use oculus_business.Common.Rows.{All-Has, find-Has, All-update_many_imp}
use oculus_business.Common.Apart.{Apart, Apart-Has, All-of, All-filter, Has-filter}
use oculus_business.Uploads.{
  Avatar, pending, ready, same_state, has_avatar_id, is_of, drop_avatar, drop_found, find_ready,
  as_ready, promote_found,
}
use oculus_business.Uploads.Service.{after_promotion}
use oculus_business.Uploads.Safe.{IsApart, IsApart-sym, same_state-eq}

abbrev pub hour_ms : ℕ
hour_ms = 60 * 60 * 1000

abbrev pub is_abandoned : ℕ → Avatar → Bool
is_abandoned now a = same_state a.state pending && ltb (a.expires_at + hour_ms) now

abbrev pub expiry_key : Avatar → ℕ
expiry_key a = a.expires_at

-- The first 500 by the end of their window.
unfoldable pub find_abandoned : ℕ → List Avatar → List Avatar
unfolding sort_by
find_abandoned now rows = take 500 (sort_by expiry_key (filter (is_abandoned now) rows))

abbrev pub has_listed_id : List ℕ → Avatar → Bool
has_listed_id ids a = any (λ i. a.id == i) ids

-- `deleteMany` by identifiers.
unfoldable pub delete_uploads : List ℕ → List Avatar → List Avatar
delete_uploads ids rows = filter (λ a. not (has_listed_id ids a)) rows

-- Its window has been closed for an hour, and it is still pending.
abbrev pub IsStale : ℕ → Avatar → Type 0
IsStale clock a = (a.state ≡ pending) × (a.expires_at + hour_ms < clock)

abbrev pub IsFar : Avatar → Avatar → Type 0
IsFar d b = (b.id ≢ d.id) × (b.object_key ≢ d.object_key)

-- A row that the job has read: it is stale, and whatever row has its identifier or its object is that
-- row, unchanged.
abbrev pub IsDoomed : ℕ → List Avatar → Avatar → Type 0
IsDoomed clock rows d = IsStale clock d × All (λ b. (b ≡ d) ⊎ IsFar d b) rows

Has-take : (n : ℕ) (x : Avatar) (xs : List Avatar) → Has x (take n xs) → Has x xs
Has-take zero x xs h = absurd h
Has-take (suc n) x [] h = h
Has-take (suc n) x (y ∷ xs) (inl e) = inl e
Has-take (suc n) x (y ∷ xs) (inr h) = inr (Has-take n x xs h)

state_pending : (a : Avatar) → same_state a.state pending ≡ true → a.state ≡ pending
state_pending a h = same_state-eq a.state pending h

pub find_abandoned-IsDoomed :
    (now clock : ℕ) (rows : List Avatar)
    → now ≤ clock
    → Apart IsApart rows
    → All (IsDoomed clock rows) (find_abandoned now rows)
unfolding find_abandoned
find_abandoned-IsDoomed now clock rows le apart =
    All-of (IsDoomed clock rows) (take 500 (sort_by expiry_key (filter (is_abandoned now) rows)))
      (λ d m.
        let (there, old) =
          Has-filter (is_abandoned now) d rows
            (Has-sort_by expiry_key d (filter (is_abandoned now) rows) (Has-take 500 d _ m)) in
        (
          (state_pending d (ground arith), ground arith),
          All-of (λ b. (b ≡ d) ⊎ IsFar d b) rows
              (λ b n. elim (Apart-Has IsApart b d rows IsApart-sym apart n there) [
                | inl e ↦ inl e
                | inr r ↦ inr (r.0, r.1)
              ]),
        ))

-- Time passes, and rows go.
pub IsDoomed-later :
    (clock later : ℕ) (rows : List Avatar) (d : Avatar)
    → clock ≤ later
    → IsDoomed clock rows d
    → IsDoomed later rows d
IsDoomed-later clock later rows d le ((p, q), all) = ((p, omega arith), all)

pub IsDoomed-filter :
    (clock : ℕ) (keep : Avatar → Bool) (rows : List Avatar) (d : Avatar)
    → IsDoomed clock rows d
    → IsDoomed clock (filter keep rows) d
IsDoomed-filter clock keep rows d (stale, all) =
    (stale, All-filter (λ b. (b ≡ d) ⊎ IsFar d b) keep rows all)

pub IsDoomed-drop_found :
    (clock : ℕ) (o : Option Avatar) (rows : List Avatar) (d : Avatar)
    → IsDoomed clock rows d
    → IsDoomed clock (drop_found o rows) d
unfolding drop_avatar
IsDoomed-drop_found clock none rows d h = h
IsDoomed-drop_found clock (some a) rows d h =
    IsDoomed-filter clock (λ b. not (has_avatar_id a.id b)) rows d h

-- A row that is promoted in time is none that the job has read.
abbrev pub IsInTime : ℕ → Option Avatar → Type 0
IsInTime clock none = Unit
IsInTime clock (some a) = clock ≤ a.expires_at + hour_ms

pub promote_found-IsDoomed :
    (clock user_id ready_at : ℕ) (keys : List ℕ) (rows : List Avatar) (o : Option Avatar)
    (p : Avatar → Bool)
    → find p rows ≡ o
    → IsInTime clock o
    → (d : Avatar) → IsDoomed clock rows d
    → IsDoomed clock (after_promotion keys (promote_found user_id ready_at rows o)).0.rows d
unfolding find_ready
promote_found-IsDoomed clock user_id ready_at keys rows none p e le d h = h
promote_found-IsDoomed clock user_id ready_at keys rows (some a) p e le d h =
    let left = IsDoomed-drop_found clock (find (is_of user_id ready) rows) rows d h in
    let far : a.id ≢ d.id =
      elim (All-Has (λ b. (b ≡ d) ⊎ IsFar d b) a rows h.1 (find-Has p a rows e).0) [
        | inl q ↦ absurd (late (ap (λ (x : Avatar). x.expires_at) q))
        | inr r ↦ r.0
      ] in
    (
      h.0,
      All-update_many_imp (has_avatar_id a.id) (as_ready ready_at) (λ b. (b ≡ d) ⊎ IsFar d b)
          (λ b. (b ≡ d) ⊎ IsFar d b) (drop_found (find (is_of user_id ready) rows) rows)
          (λ b k m. readied b far k ((==_iff b.id a.id).0 m)) (λ b k m. k) left.1,
    )
  where
    late : a.expires_at ≡ d.expires_at → ⊥
    late q = let closed = h.0.1 in omega arith

    readied :
        (b : Avatar)
        → a.id ≢ d.id
        → (b ≡ d) ⊎ IsFar d b
        → b.id ≡ a.id
        → (as_ready ready_at b ≡ d) ⊎ IsFar d (as_ready ready_at b)
    readied b far (inl q) m = absurd (far (sym m ∙ ap (λ (x : Avatar). x.id) q))
    readied b far (inr r) m = inr r
