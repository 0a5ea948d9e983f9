-- ===== src/Uploads/Steps.antt =====
-- Uploads of avatars under interleaved requests and the cleanup job (backend/src/modules/uploads and
-- backend/src/jobs.ts). Each transaction of a request is a step of its own, since what a request read
-- before it does not matter but for the end of the window; so is each statement of the job.
use oculus_business.Common.{
  ℕ, ◌≡◌, refl, sym, ◌≢◌, ◌≤◌, ◌⊎◌, inl, inr, not, Option, List, [], ◌∷◌, ◌++◌, All, Has, find, ◌∙◌,
}
use mathlib.Core.Path.{subst}
use oculus_business.Common.Rows.{All-imp, All-Has}
use oculus_business.Common.Apart.{Apart-filter, All-filter, All-append, All-of}
use oculus_business.Uploads.{
  Avatar, pending, is_of, is_upload, is_users, find_pending, UploadInput, new_upload, drop_found,
}
use oculus_business.Uploads.Service.{AvatarStore, create_upload, discard, promote, remove_avatar}
use oculus_business.Uploads.Safe.{
  IsApart, IsKept, IsSafe, IsNewUpload, drop_found-IsSafe, remove_avatar-IsSafe,
}
use oculus_business.Uploads.Replaced.{create_upload-IsSafe, promote_found-IsSafe}
use oculus_business.Uploads.Cleanup.{
  find_abandoned, delete_uploads, has_listed_id, IsStale, IsFar, IsDoomed, IsInTime,
  find_abandoned-IsDoomed, IsDoomed-later, IsDoomed-filter, IsDoomed-drop_found,
  promote_found-IsDoomed,
}

-- The avatars, the time, the rows that runs of the job have read, and the objects they have deleted.
pub record UploadsWorld : Type 0 where
  pub store : AvatarStore
  pub clock : ℕ
  pub doomed : List Avatar
  pub cleaned : List ℕ

abbrev pub with_store : UploadsWorld → AvatarStore → UploadsWorld
with_store w s = record w { store = s }

-- One transaction or statement. An upload gets an identifier and a key that were never used. A
-- promotion comes no later than an hour after the end of the window, which `finalizeUpload` checks to
-- be still open before it. The job's time is at its start; it deletes the objects of rows that it
-- read, and the rows by their identifiers.
pub data Step (w : UploadsWorld) : UploadsWorld → Type 0 where
  waits : (later : ℕ) → w.clock ≤ later → Step w (record w { clock = later })
  uploads :
      (id : ℕ) (i : UploadInput)
      → IsNewUpload id i w.store
      → All (λ (d : Avatar). (id ≢ d.id) × (i.object_key ≢ d.object_key)) w.doomed
      → Step w (with_store w (create_upload id i w.store).0)
  discards : (user_id upload_id : ℕ) → Step w (with_store w (discard user_id upload_id w.store))
  promotes :
      (user_id upload_id ready_at : ℕ)
      → IsInTime w.clock (find_pending user_id upload_id w.store.rows)
      → Step w (with_store w (promote user_id upload_id ready_at w.store).0)
  removes : (user_id : ℕ) → Step w (with_store w (remove_avatar user_id w.store))
  finds_abandoned :
      (now : ℕ)
      → now ≤ w.clock
      → Step w (record w { doomed = find_abandoned now w.store.rows ++ w.doomed })
  deletes_object :
      (d : Avatar) → Has d w.doomed → Step w (record w { cleaned = d.object_key ∷ w.cleaned })
  deletes_uploads :
      (ids : List ℕ)
      → All (λ i. (d : Avatar) × Has d w.doomed × (d.id ≡ i) × Has d.object_key w.cleaned) ids
      → Step w (with_store w (record w.store { rows = delete_uploads ids w.store.rows }))

pub data Reach : UploadsWorld → Type 0 where
  start :
      (clock : ℕ)
      → Reach (record {
        store = record { rows = []; deleted = [] };
        clock = clock;
        doomed = [];
        cleaned = [];
      })
  next : {w w' : UploadsWorld} → Reach w → Step w w' → Reach w'

-- The rows that the job has read, and where the objects that it has deleted come from.
abbrev IsOrderly : UploadsWorld → Type 0
IsOrderly w =
    All (IsDoomed w.clock w.store.rows) w.doomed
    × All (λ k. (d : Avatar) × Has d w.doomed × (k ≡ d.object_key)) w.cleaned

-- The object of a row is not among those that the job has deleted, unless the row is stale.
abbrev pub IsSpared : ℕ → List ℕ → Avatar → Type 0
IsSpared clock cleaned a = All (λ k. (k ≢ a.object_key) ⊎ IsStale clock a) cleaned

Step-IsSafe : (w w' : UploadsWorld) → Step w w' → IsSafe w.store → IsSafe w'.store
unfolding create_upload discard promote delete_uploads
Step-IsSafe w w' (waits later le) safe = safe
Step-IsSafe w w' (uploads id i new new') safe = create_upload-IsSafe id i w.store _ refl new safe
Step-IsSafe w w' (discards user_id upload_id) safe =
    drop_found-IsSafe (is_upload user_id upload_id) w.store _ refl safe
Step-IsSafe w w' (promotes user_id upload_id ready_at le) safe =
    promote_found-IsSafe user_id upload_id ready_at w.store _ refl safe
Step-IsSafe w w' (removes user_id) safe = remove_avatar-IsSafe user_id w.store safe
Step-IsSafe w w' (finds_abandoned now le) safe = safe
Step-IsSafe w w' (deletes_object d m) safe = safe
Step-IsSafe w w' (deletes_uploads ids gone) (apart, kept) = (
  Apart-filter IsApart (λ a. not (has_listed_id ids a)) w.store.rows apart,
  All-filter (IsKept w.store.deleted) (λ a. not (has_listed_id ids a)) w.store.rows kept,
)

doomed_all :
    (w : UploadsWorld) (rows : List Avatar)
    → ((d : Avatar) → Has d w.doomed → IsDoomed w.clock w.store.rows d → IsDoomed w.clock rows d)
    → All (IsDoomed w.clock w.store.rows) w.doomed
    → All (IsDoomed w.clock rows) w.doomed
doomed_all w rows f h =
    All-of (IsDoomed w.clock rows) w.doomed
      (λ d m. f d m (All-Has (IsDoomed w.clock w.store.rows) d w.doomed h m))

Has-append_right : (x : Avatar) (xs ys : List Avatar) → Has x ys → Has x (xs ++ ys)
Has-append_right x [] ys m = m
Has-append_right x (z ∷ xs) ys m = inr (Has-append_right x xs ys m)

uploaded-IsDoomed :
    (id : ℕ) (i : UploadInput) (clock : ℕ) (rows : List Avatar) (o : Option Avatar) (d : Avatar)
    → (id ≢ d.id) × (i.object_key ≢ d.object_key)
    → IsDoomed clock rows d
    → IsDoomed clock (new_upload id i ∷ drop_found o rows) d
uploaded-IsDoomed id i clock rows o d new h =
    let left = IsDoomed-drop_found clock o rows d h in (left.0, (inr new, left.1))

Step-IsOrderly : (w w' : UploadsWorld) → Step w w' → IsSafe w.store → IsOrderly w → IsOrderly w'
unfolding create_upload discard promote remove_avatar delete_uploads find_pending
Step-IsOrderly w w' (waits later le) safe (h, k) = (
  All-imp (IsDoomed w.clock w.store.rows) (IsDoomed later w.store.rows) w.doomed
      (λ d q. IsDoomed-later w.clock later w.store.rows d le q) h,
  k,
)
Step-IsOrderly w w' (uploads id i new new') safe (h, k) = (
  doomed_all w (create_upload id i w.store).0.rows
      (λ d m q.
        uploaded-IsDoomed id i w.clock w.store.rows (find (is_of i.user_id pending) w.store.rows) d
          (All-Has (λ (x : Avatar). (id ≢ x.id) × (i.object_key ≢ x.object_key)) d w.doomed new' m)
          q)
      h,
  k,
)
Step-IsOrderly w w' (discards user_id upload_id) safe (h, k) = (
  doomed_all w (discard user_id upload_id w.store).rows
      (λ d m q. IsDoomed-drop_found w.clock _ w.store.rows d q) h,
  k,
)
Step-IsOrderly w w' (promotes user_id upload_id ready_at le) safe (h, k) = (
  doomed_all w (promote user_id upload_id ready_at w.store).0.rows
      (λ d m q.
        promote_found-IsDoomed w.clock user_id ready_at w.store.deleted w.store.rows _
          (is_upload user_id upload_id) refl le d q)
      h,
  k,
)
Step-IsOrderly w w' (removes user_id) safe (h, k) = (
  doomed_all w (remove_avatar user_id w.store).rows
      (λ d m q. IsDoomed-filter w.clock (λ a. not (is_users user_id a)) w.store.rows d q) h,
  k,
)
Step-IsOrderly w w' (finds_abandoned now le) safe (h, k) = (
  All-append (IsDoomed w.clock w.store.rows) (find_abandoned now w.store.rows) w.doomed
      (find_abandoned-IsDoomed now w.clock w.store.rows le safe.0) h,
  All-imp (λ j. (d : Avatar) × Has d w.doomed × (j ≡ d.object_key))
      (λ j. (d : Avatar) × Has d (find_abandoned now w.store.rows ++ w.doomed) × (j ≡ d.object_key))
      w.cleaned
      (λ j q. (q.0, Has-append_right q.0 (find_abandoned now w.store.rows) w.doomed q.1, q.2)) k,
)
Step-IsOrderly w w' (deletes_object d m) safe (h, k) = (h, ((d, m, refl), k))
Step-IsOrderly w w' (deletes_uploads ids gone) safe (h, k) = (
  doomed_all w (delete_uploads ids w.store.rows)
      (λ d m q. IsDoomed-filter w.clock (λ a. not (has_listed_id ids a)) w.store.rows d q) h,
  k,
)

Reach-IsOrderly : (w : UploadsWorld) → Reach w → IsSafe w.store × IsOrderly w
Reach-IsOrderly w (start clock) = ((tt, tt), (tt, tt))
Reach-IsOrderly w (next {w = v} r s) =
    let before = Reach-IsOrderly v r in
    (Step-IsSafe v w s before.0, Step-IsOrderly v w s before.0 before.1)

spared :
    (w : UploadsWorld)
    → IsOrderly w
    → (a : Avatar) → Has a w.store.rows
    → IsSpared w.clock w.cleaned a
spared w (h, k) a m =
    All-imp (λ j. (d : Avatar) × Has d w.doomed × (j ≡ d.object_key))
      (λ j. (j ≢ a.object_key) ⊎ IsStale w.clock a) w.cleaned
      (λ j q.
        let doomed = All-Has (IsDoomed w.clock w.store.rows) q.0 w.doomed h q.1 in
        elim (All-Has (λ b. (b ≡ q.0) ⊎ IsFar q.0 b) a w.store.rows doomed.1 m) [
          | inl e ↦ inr (subst (IsStale w.clock) (sym e) doomed.0)
          | inr r ↦ inl (λ e. r.1 (sym e ∙ q.2))
        ])
      k

-- However the transactions of the requests and the statements of the cleanup job interleave, from no
-- avatars, where a promotion comes no later than an hour after the end of its upload's window: a user
-- has at most one pending and one ready avatar, no two rows share an object, no object that a request
-- handed over to be deleted belongs to a row that is left, and one that the job deleted belongs to a
-- row that is left only where that row is pending and its window has been closed for an hour.
pub Reach-IsSafe :
    (w : UploadsWorld) → Reach w → IsSafe w.store × All (IsSpared w.clock w.cleaned) w.store.rows
Reach-IsSafe w r =
    let (safe, orderly) = Reach-IsOrderly w r in
    (safe, All-of (IsSpared w.clock w.cleaned) w.store.rows (spared w orderly))
