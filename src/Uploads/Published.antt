-- ===== src/Uploads/Published.antt =====
-- The row that a promotion makes ready is the one that is shown
-- (backend/src/modules/uploads/infrastructure/avatars-repository.ts).
use oculus_business.Common.{
  ℕ, ◌≡◌, refl, sym, ap, ◌∙◌, ◌≢◌, ◌⊎◌, inl, inr, Bool, true, false, not, Option, none, some, List,
  [], ◌∷◌, arith, ==_iff, ◌==◌, find, All, Has, filter,
}
use mathlib.Core.Path.{subst}
use oculus_business.Common.Rows.{find-Has, update_many}
use oculus_business.Common.Apart.{Apart, Apart-Has}
use oculus_business.Uploads.{
  Avatar, pending, ready, same_state, is_of, has_avatar_id, is_upload, drop_avatar, drop_found,
  find_ready, find_pending, as_ready, publish, is_users,
}
use oculus_business.Uploads.Service.{AvatarStore, promote}
use oculus_business.Uploads.Safe.{IsApart, IsSafe, IsApart-sym, none_left}
use oculus_business.Uploads.Replaced.{only_row, drop_found-only}

filter-Has :
    (keep : Avatar → Bool) (x : Avatar) (xs : List Avatar)
    → Has x xs
    → keep x ≡ true
    → Has x (filter keep xs)
filter-Has keep x [] m e = m
filter-Has keep x (y ∷ xs) m e = ground (arith, filter-Has keep x xs)

publish_miss :
    (ready_at : ℕ) (a b : Avatar) (rows : List Avatar)
    → (b.id == a.id) ≡ false
    → publish ready_at a (b ∷ rows) ≡ b ∷ publish ready_at a rows
unfolding update_many
publish_miss ready_at a b rows e = ground arith

publish_hit :
    (ready_at : ℕ) (a b : Avatar) (rows : List Avatar)
    → (b.id == a.id) ≡ true
    → publish ready_at a (b ∷ rows) ≡ as_ready ready_at b ∷ publish ready_at a rows
unfolding update_many
publish_hit ready_at a b rows e = ground arith

find_published :
    (user_id ready_at : ℕ) (a : Avatar) (rows : List Avatar)
    → is_users user_id a ≡ true
    → All (λ b. is_of user_id ready b ≡ false) rows
    → All (λ (b : Avatar). (b.id ≢ a.id) ⊎ (b ≡ a)) rows
    → Has a rows
    → find (is_of user_id ready) (publish ready_at a rows) ≡ some (as_ready ready_at a)
unfolding update_many
find_published user_id ready_at a [] u free only m = absurd m
find_published user_id ready_at a (b ∷ rows) u (f, free) (inr e, only) m =
    ap (find (is_of user_id ready))
      (publish_hit ready_at a b rows ((==_iff b.id a.id).1 (ap (λ (x : Avatar). x.id) e)))
    ∙ ap
        (λ (x : Avatar). find (is_of user_id ready) (as_ready ready_at x ∷ publish ready_at a rows))
        e
    ∙ rw u refl
find_published user_id ready_at a (b ∷ rows) u (f, free) (inl d, only) (inl e) =
    absurd (d (ap (λ (x : Avatar). x.id) e))
find_published user_id ready_at a (b ∷ rows) u (f, free) (inl d, only) (inr m) =
    let rest = find_published user_id ready_at a rows u free only m in
    let other : (b.id == a.id) ≡ false = ground arith in
    ap (find (is_of user_id ready)) (publish_miss ready_at a b rows other) ∙ rw f rest

ready_other :
    (a p : Avatar)
    → same_state a.state pending ≡ true
    → same_state p.state ready ≡ true
    → (p ≡ a) ⊎ IsApart p a
    → a.id ≢ p.id
ready_other a p w r (inl e) =
    absurd (apart w (subst (λ (x : Avatar). same_state x.state ready ≡ true) e r))
  where
    apart : same_state a.state pending ≡ true → same_state a.state ready ≡ true → ⊥
    apart h k = ground arith
ready_other a p w r (inr d) = λ e. d.0 (sym e)

still_there :
    (user_id : ℕ) (a : Avatar) (rows : List Avatar) (o : Option Avatar)
    → find (is_of user_id ready) rows ≡ o
    → Apart IsApart rows
    → Has a rows
    → same_state a.state pending ≡ true
    → Has a (drop_found o rows)
unfolding drop_avatar
still_there user_id a rows none e h m w = m
still_there user_id a rows (some p) e h m w =
    let (there, is_ready) = find-Has (is_of user_id ready) p rows e in
    let d = ready_other a p w (ground arith) (Apart-Has IsApart p a rows IsApart-sym h there m) in
    filter-Has (λ b. not (has_avatar_id p.id b)) a rows m (ground arith)

-- After the promotion of a pending upload, the ready avatar of the user is that upload.
pub promote-find_ready :
    (user_id upload_id ready_at : ℕ) (w : AvatarStore) (a : Avatar)
    → IsSafe w
    → find_pending user_id upload_id w.rows ≡ some a
    → find_ready user_id (promote user_id upload_id ready_at w).0.rows ≡ some (as_ready ready_at a)
unfolding promote find_ready find_pending
promote-find_ready user_id upload_id ready_at w a safe e =
    let found = find-Has (is_upload user_id upload_id) a w.rows e in
    let previous = find (is_of user_id ready) w.rows in
    rw e (
      find_published user_id ready_at a (drop_found previous w.rows) (ground arith)
        (none_left user_id ready w.rows previous refl safe.0)
        (drop_found-only a previous w.rows (only_row a w.rows safe.0 found.0))
        (still_there user_id a w.rows previous refl safe.0 found.0 (ground arith)))
