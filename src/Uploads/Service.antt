-- ===== src/Uploads/Service.antt =====
-- `AvatarsService` of backend/src/modules/uploads/application/avatars-service.ts. What the object
-- storage holds is a parameter; `deleted` is the keys that were handed to `deferDelete`.
use oculus_business.Common.{
  ℕ, ◌⊎◌, inl, inr, not, Option, none, some, List, ◌∷◌, ◌++◌, leb, ◌==◌, if◌then◌else◌,
}
use oculus_business.Uploads.{
  ContentType, Avatar, UploadInput, Promoted, start_upload, find_pending, promote_to_ready,
  remove_pending, remove_all, new_upload,
}
use oculus_business.Uploads.Format.{detect_image_format, image_format_matches_declared_type}

pub record StoredObject : Type 0 where
  pub content_length : ℕ
  pub content_type : ContentType

-- `headObject`, and `readRange` of the first `imageSignatureByteLength` bytes.
pub record Storage : Type 0 where
  pub head_object : ℕ → Option StoredObject
  pub read_prefix : ℕ → Option (List ℕ)

pub data UploadsFailure : Type 0 where
  upload_missing expired not_completed : UploadsFailure
  wrong_size wrong_type not_an_image : UploadsFailure

pub record AvatarStore : Type 0 where
  pub rows : List Avatar
  pub deleted : List ℕ

-- `deferDelete` where there is a key.
abbrev pub defer_delete : Option ℕ → List ℕ → List ℕ
defer_delete none keys = keys
defer_delete (some k) keys = k ∷ keys

-- `createUpload`; the storage's ticket gave the key and the end of its window.
unfoldable pub create_upload : ℕ → UploadInput → AvatarStore → AvatarStore × Avatar
unfolding start_upload
create_upload id i w =
    let started = start_upload id i w.rows in
    (record { rows = started.0; deleted = defer_delete started.1 w.deleted }, new_upload id i)

-- `discard`.
unfoldable pub discard : ℕ → ℕ → AvatarStore → AvatarStore
unfolding remove_pending
discard user_id upload_id w =
    let removed = remove_pending user_id upload_id w.rows in
    record { rows = removed.0; deleted = defer_delete removed.1 w.deleted }

abbrev pub after_promotion :
    List ℕ → List Avatar × Option Promoted → AvatarStore × (UploadsFailure ⊎ Avatar)
after_promotion keys (rows, none) = (record { rows = rows; deleted = keys }, inl upload_missing)
after_promotion keys (rows, some p) =
    (record { rows = rows; deleted = defer_delete p.replaced_object_key keys }, inr p.avatar)

-- The end of `finalizeUpload`.
unfoldable pub promote : ℕ → ℕ → ℕ → AvatarStore → AvatarStore × (UploadsFailure ⊎ Avatar)
unfolding promote_to_ready
promote user_id upload_id ready_at w =
    after_promotion w.deleted (promote_to_ready user_id upload_id ready_at w.rows)

-- What the checks of `finalizeUpload` find; a failure may throw the upload away.
pub data UploadVerdict : Type 0 where
  passed : UploadVerdict
  waits : UploadsFailure → UploadVerdict
  thrown_away : UploadsFailure → UploadVerdict

abbrev pub check_image : Avatar → Option ContentType → UploadVerdict
check_image a none = thrown_away not_an_image
check_image a (some detected) =
    if image_format_matches_declared_type detected a.content_type
    then passed
    else thrown_away not_an_image

abbrev pub detected_in : Option (List ℕ) → Option ContentType
detected_in none = none
detected_in (some prefix) = detect_image_format prefix

abbrev pub check_stored : Storage → Avatar → Option StoredObject → UploadVerdict
check_stored s a none = waits not_completed
check_stored s a (some o) =
    if not (o.content_length == a.byte_size)
    then thrown_away wrong_size
    else if not (image_format_matches_declared_type o.content_type a.content_type)
    then thrown_away wrong_type
    else check_image a (detected_in (s.read_prefix a.object_key))

unfoldable pub check_upload : Storage → ℕ → Avatar → UploadVerdict
unfolding image_format_matches_declared_type detect_image_format
check_upload s now a =
    if leb a.expires_at now
    then thrown_away expired
    else check_stored s a (s.head_object a.object_key)

abbrev pub act_on :
    ℕ → ℕ → ℕ → AvatarStore → UploadVerdict → AvatarStore × (UploadsFailure ⊎ Avatar)
act_on user_id upload_id ready_at w passed = promote user_id upload_id ready_at w
act_on user_id upload_id ready_at w (waits f) = (w, inl f)
act_on user_id upload_id ready_at w (thrown_away f) = (discard user_id upload_id w, inl f)

abbrev pub finalize_found :
    Storage → ℕ → ℕ → ℕ → AvatarStore → Option Avatar → AvatarStore × (UploadsFailure ⊎ Avatar)
finalize_found s user_id upload_id now w none = (w, inl upload_missing)
finalize_found s user_id upload_id now w (some a) =
    act_on user_id upload_id now w (check_upload s now a)

-- `finalizeUpload`, undisturbed.
unfoldable pub finalize_upload :
    Storage → ℕ → ℕ → ℕ → AvatarStore → AvatarStore × (UploadsFailure ⊎ Avatar)
unfolding check_upload promote discard find_pending
finalize_upload s user_id upload_id now w =
    finalize_found s user_id upload_id now w (find_pending user_id upload_id w.rows)

-- `removeAvatar`.
unfoldable pub remove_avatar : ℕ → AvatarStore → AvatarStore
unfolding remove_all
remove_avatar user_id w =
    let removed = remove_all user_id w.rows in
    record { rows = removed.0; deleted = removed.1 ++ w.deleted }
