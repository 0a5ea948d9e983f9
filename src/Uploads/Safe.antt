-- ===== src/Uploads/Safe.antt =====
-- The rows of avatars and their objects, kept in order by each transaction
-- (backend/src/modules/uploads/infrastructure/avatars-repository.ts).
use oculus_business.Common.{
  ℕ, ◌≡◌, refl, sym, ap, ◌≢◌, ◌⊎◌, inl, inr, Bool, true, false, not, Option, none, some, List, ◌∷◌,
  ◌++◌, arith, ==_iff, find, filter, All, map,
}
use mathlib.Core.Path.{subst}
use oculus_business.Common.Rows.{All-imp, All-Has, find-Has, All_both}
use oculus_business.Uploads.{
  Avatar, AvatarState, pending, ready, same_state, is_of, has_avatar_id, drop_avatar, drop_found,
  key_of, UploadInput, is_users,
}
use oculus_business.Uploads.Service.{AvatarStore, defer_delete, remove_avatar}
use oculus_business.Common.Apart.{
  Apart, All-of, Apart-Has, Has-filter, All-append, All-map, All-filter, All-none, Apart-filter,
  Apart-others,
}

-- Two rows share no identifier, no object, and not both the user and the state.
abbrev pub IsApart : Avatar → Avatar → Type 0
IsApart a b = (a.id ≢ b.id) × (a.object_key ≢ b.object_key) × (is_of a.user_id a.state b ≡ false)

-- The object of a row is not handed over to be deleted.
abbrev pub IsKept : List ℕ → Avatar → Type 0
IsKept keys a = All (λ k. k ≢ a.object_key) keys

abbrev pub IsSafe : AvatarStore → Type 0
IsSafe w = Apart IsApart w.rows × All (IsKept w.deleted) w.rows

abbrev pub IsNewUpload : ℕ → UploadInput → AvatarStore → Type 0
IsNewUpload id i w =
    All (λ (a : Avatar). (id ≢ a.id) × (i.object_key ≢ a.object_key)) w.rows
    × All (λ k. k ≢ i.object_key) w.deleted

same_state_refl : (s : AvatarState) → same_state s s ≡ true
same_state_refl pending = refl
same_state_refl ready = refl

same_state_sym : (s t : AvatarState) → same_state s t ≡ same_state t s
same_state_sym pending pending = refl
same_state_sym pending ready = refl
same_state_sym ready pending = refl
same_state_sym ready ready = refl

pub IsApart-sym : (a b : Avatar) → IsApart a b → IsApart b a
IsApart-sym a b h =
    (λ e. h.0 (sym e), λ e. h.1 (sym e), ground (arith, same_state_sym a.state b.state))

-- The rows that are left without one that was found.
pub left-Apart :
    (p : Avatar → Bool) (a : Avatar) (rows : List Avatar)
    → find p rows ≡ some a
    → Apart IsApart rows
    → All (IsApart a) (drop_avatar a.id rows)
unfolding drop_avatar
left-Apart p a rows e h =
    Apart-others IsApart (λ b. not (has_avatar_id a.id b)) a rows IsApart-sym h
      (find-Has p a rows e).0 (rw ((==_iff a.id a.id).1 refl) refl)

-- A row is thrown away, and its object with it.
pub drop_found-IsSafe :
    (p : Avatar → Bool) (w : AvatarStore) (o : Option Avatar)
    → find p w.rows ≡ o
    → IsSafe w
    → IsSafe (record { rows = drop_found o w.rows; deleted = defer_delete (key_of o) w.deleted })
unfolding drop_avatar
drop_found-IsSafe p w none e safe = safe
drop_found-IsSafe p w (some a) e safe =
    let keep = λ (b : Avatar). not (has_avatar_id a.id b) in
    (
      Apart-filter IsApart keep w.rows safe.0,
      All-imp (λ b. IsApart a b × IsKept w.deleted b) (IsKept (a.object_key ∷ w.deleted))
          (filter keep w.rows) (λ b k. (k.0.1, k.1))
          (All_both (IsApart a) (IsKept w.deleted) (filter keep w.rows)
            (left-Apart p a w.rows e safe.0) (All-filter (IsKept w.deleted) keep w.rows safe.1)),
    )

pub same_state-eq : (s t : AvatarState) → same_state s t ≡ true → s ≡ t
same_state-eq pending pending e = refl
same_state-eq pending ready e = cc
same_state-eq ready pending e = cc
same_state-eq ready ready e = refl

pub is_of-eq :
    (u : ℕ) (s : AvatarState) (a : Avatar) → is_of u s a ≡ true → (a.user_id ≡ u) × (a.state ≡ s)
is_of-eq u s a e = (ground arith, same_state-eq a.state s (ground arith))

-- Afterwards no row is left of the user and the state of the one that was sought.
pub none_left :
    (user_id : ℕ) (s : AvatarState) (rows : List Avatar) (o : Option Avatar)
    → find (is_of user_id s) rows ≡ o
    → Apart IsApart rows
    → All (λ b. is_of user_id s b ≡ false) (drop_found o rows)
none_left user_id s rows none e h = All-none (is_of user_id s) rows e
none_left user_id s rows (some a) e h =
    let (u, q) = is_of-eq user_id s a (find-Has (is_of user_id s) a rows e).1 in
    All-imp (IsApart a) (λ b. is_of user_id s b ≡ false) (drop_avatar a.id rows)
      (λ b k.
        subst (λ t. is_of user_id t b ≡ false) q (subst (λ n. is_of n a.state b ≡ false) u k.2))
      (left-Apart (is_of user_id s) a rows e h)

others_key :
    (user_id : ℕ) (a b : Avatar)
    → is_users user_id a ≡ true
    → not (is_users user_id b) ≡ true
    → (a ≡ b) ⊎ IsApart a b
    → a.object_key ≢ b.object_key
others_key user_id a b mine not_mine (inl q) =
    let same = ap (λ (z : Avatar). z.user_id) q in elim (contradicts same) [ ]
  where
    contradicts : a.user_id ≡ b.user_id → ⊥
    contradicts same = ground arith
others_key user_id a b mine not_mine (inr r) = r.1

pub remove_avatar-IsSafe :
    (user_id : ℕ) (w : AvatarStore) → IsSafe w → IsSafe (remove_avatar user_id w)
unfolding remove_avatar
remove_avatar-IsSafe user_id w (apart, kept) =
    let mine = filter (is_users user_id) w.rows in
    let others = filter (λ a. not (is_users user_id a)) w.rows in
    (
      Apart-filter IsApart (λ a. not (is_users user_id a)) w.rows apart,
      All-of (IsKept (map (λ (a : Avatar). a.object_key) mine ++ w.deleted)) others (λ b m.
          let (here, not_mine) = Has-filter (λ a. not (is_users user_id a)) b w.rows m in
          All-append (λ k. k ≢ b.object_key) (map (λ (a : Avatar). a.object_key) mine) w.deleted
            (All-map (λ k. k ≢ b.object_key) (λ (a : Avatar). a.object_key) mine
              (All-of (λ (a : Avatar). a.object_key ≢ b.object_key) mine
                (λ a n.
                  let (there, is_mine) = Has-filter (is_users user_id) a w.rows n in
                  others_key user_id a b is_mine not_mine
                    (Apart-Has IsApart a b w.rows IsApart-sym apart there here))))
            (All-Has (IsKept w.deleted) b w.rows kept here)),
    )
