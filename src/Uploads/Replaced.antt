-- ===== src/Uploads/Replaced.antt =====
-- A new upload takes the place of a pending one, and a published avatar that of the ready one
-- (backend/src/modules/uploads/infrastructure/avatars-repository.ts).
use oculus_business.Common.{
  ℕ, ◌≡◌, refl, sym, ◌∙◌, ◌≢◌, ◌⊎◌, inl, inr, Bool, true, false, not, Option, none, some, List, ◌∷◌,
  arith, ==_iff, find, All, Has,
}
use mathlib.Core.Path.{subst}
use oculus_business.Common.Rows.{All-imp, All-Has, find-Has, All_both, All-update_many_imp}
use oculus_business.Uploads.{
  Avatar, pending, ready, is_of, has_avatar_id, is_upload, drop_avatar, drop_found, key_of,
  UploadInput, new_upload, find_ready, as_ready, publish, promote_found,
}
use oculus_business.Uploads.Service.{AvatarStore, defer_delete, after_promotion}
use oculus_business.Common.Apart.{Apart, All-of, Apart-Has, All-filter, Apart-update_many}
use oculus_business.Uploads.Safe.{
  IsApart, IsKept, IsSafe, IsNewUpload, IsApart-sym, none_left, is_of-eq, drop_found-IsSafe,
}

dropped_new :
    (id : ℕ) (i : UploadInput) (w : AvatarStore) (o : Option Avatar)
    → IsNewUpload id i w
    → All (λ (a : Avatar). (id ≢ a.id) × (i.object_key ≢ a.object_key)) (drop_found o w.rows)
unfolding drop_avatar
dropped_new id i w none (new, unused) = new
dropped_new id i w (some a) (new, unused) =
    All-filter (λ (a : Avatar). (id ≢ a.id) × (i.object_key ≢ a.object_key))
      (λ b. not (has_avatar_id a.id b)) w.rows new

replaced_new :
    (id : ℕ) (i : UploadInput) (w : AvatarStore) (o : Option Avatar) (p : Avatar → Bool)
    → find p w.rows ≡ o
    → IsNewUpload id i w
    → IsKept (defer_delete (key_of o) w.deleted) (new_upload id i)
replaced_new id i w none p e (new, unused) = unused
replaced_new id i w (some a) p e (new, unused) =
    let found =
      All-Has (λ (a : Avatar). (id ≢ a.id) × (i.object_key ≢ a.object_key)) a w.rows new
        (find-Has p a w.rows e).0 in
    (λ q. found.1 (sym q), unused)

-- A new upload takes the place of the one that was pending.
pub create_upload-IsSafe :
    (id : ℕ) (i : UploadInput) (w : AvatarStore) (o : Option Avatar)
    → find (is_of i.user_id pending) w.rows ≡ o
    → IsNewUpload id i w
    → IsSafe w
    → IsSafe (record {
      rows = new_upload id i ∷ drop_found o w.rows;
      deleted = defer_delete (key_of o) w.deleted;
    })
create_upload-IsSafe id i w o e new safe =
    let dropped = drop_found-IsSafe (is_of i.user_id pending) w o e safe in
    let apart =
      All-imp
        (λ (b : Avatar).
          ((id ≢ b.id) × (i.object_key ≢ b.object_key)) × (is_of i.user_id pending b ≡ false))
        (IsApart (new_upload id i)) (drop_found o w.rows) (λ b k. (k.0.0, k.0.1, k.1))
        (All_both (λ (b : Avatar). (id ≢ b.id) × (i.object_key ≢ b.object_key))
          (λ b. is_of i.user_id pending b ≡ false) (drop_found o w.rows) (dropped_new id i w o new)
          (none_left i.user_id pending w.rows o e safe.0)) in
    ((apart, dropped.0), (replaced_new id i w o (is_of i.user_id pending) e new, dropped.1))

-- The published row is apart from the rows of which none is ready for its user.
readied :
    (a : Avatar) (ready_at : ℕ) (x y : Avatar)
    → (x.id ≢ a.id) ⊎ (x ≡ a)
    → has_avatar_id a.id x ≡ true
    → IsApart x y
    → is_of a.user_id ready y ≡ false
    → IsApart (as_ready ready_at x) y
readied a ready_at x y (inl d) e r free = elim (d ((==_iff x.id a.id).0 e)) [ ]
readied a ready_at x y (inr q) e r free =
    (r.0, r.1, subst (λ (z : Avatar). is_of z.user_id ready y ≡ false) (sym q) free)

-- The row that is published takes the place of the one that was ready.
publish-IsSafe :
    (a : Avatar) (ready_at : ℕ) (w : AvatarStore)
    → IsSafe w
    → All (λ b. is_of a.user_id ready b ≡ false) w.rows
    → All (λ (b : Avatar). (b.id ≢ a.id) ⊎ (b ≡ a)) w.rows
    → IsSafe (record w { rows = publish ready_at a w.rows })
publish-IsSafe a ready_at w (apart, kept) free only = (
  Apart-update_many IsApart (λ b. (is_of a.user_id ready b ≡ false) × ((b.id ≢ a.id) ⊎ (b ≡ a)))
      (has_avatar_id a.id) (as_ready ready_at) w.rows
      (λ x y q k r e f. elim (r.0 ((==_iff x.id a.id).0 e ∙ sym ((==_iff y.id a.id).0 f))) [ ])
      (λ x y q k r e f. readied a ready_at x y q.1 e r k.0)
      (λ x y q k r e f.
        IsApart-sym (as_ready ready_at y) x (readied a ready_at y x k.1 f (IsApart-sym x y r) q.0))
      (All_both (λ b. is_of a.user_id ready b ≡ false) (λ (b : Avatar). (b.id ≢ a.id) ⊎ (b ≡ a))
        w.rows free only)
      apart,
  All-update_many_imp (has_avatar_id a.id) (as_ready ready_at) (IsKept w.deleted) (IsKept w.deleted)
      w.rows (λ b h e. h) (λ b h e. h) kept,
)

-- The rows of an identifier are the row that has it.
pub only_row :
    (a : Avatar) (rows : List Avatar)
    → Apart IsApart rows
    → Has a rows
    → All (λ (b : Avatar). (b.id ≢ a.id) ⊎ (b ≡ a)) rows
only_row a rows h m =
    All-of (λ (b : Avatar). (b.id ≢ a.id) ⊎ (b ≡ a)) rows
      (λ b n. elim (Apart-Has IsApart b a rows IsApart-sym h n m) [
        | inl q ↦ inr q
        | inr r ↦ inl r.0
      ])

pub drop_found-only :
    (a : Avatar) (o : Option Avatar) (rows : List Avatar)
    → All (λ (b : Avatar). (b.id ≢ a.id) ⊎ (b ≡ a)) rows
    → All (λ (b : Avatar). (b.id ≢ a.id) ⊎ (b ≡ a)) (drop_found o rows)
unfolding drop_avatar
drop_found-only a none rows h = h
drop_found-only a (some c) rows h =
    All-filter (λ (b : Avatar). (b.id ≢ a.id) ⊎ (b ≡ a)) (λ b. not (has_avatar_id c.id b)) rows h

pub promote_found-IsSafe :
    (user_id upload_id ready_at : ℕ) (w : AvatarStore) (o : Option Avatar)
    → find (is_upload user_id upload_id) w.rows ≡ o
    → IsSafe w
    → IsSafe (after_promotion w.deleted (promote_found user_id ready_at w.rows o)).0
unfolding find_ready
promote_found-IsSafe user_id upload_id ready_at w none e safe = safe
promote_found-IsSafe user_id upload_id ready_at w (some a) e safe =
    let found = find-Has (is_upload user_id upload_id) a w.rows e in
    let previous = find (is_of user_id ready) w.rows in
    let u = (is_of-eq user_id pending a (ground arith)).0 in
    publish-IsSafe a ready_at
      (record {
        rows = drop_found previous w.rows;
        deleted = defer_delete (key_of previous) w.deleted;
      })
      (drop_found-IsSafe (is_of user_id ready) w previous refl safe)
      (subst (λ n. All (λ b. is_of n ready b ≡ false) (drop_found previous w.rows)) (sym u)
        (none_left user_id ready w.rows previous refl safe.0))
      (drop_found-only a previous w.rows (only_row a w.rows safe.0 found.0))
