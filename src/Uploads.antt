-- ===== src/Uploads.antt =====
-- Avatars: backend/src/modules/uploads. Here are the rows and the transactions of
-- infrastructure/avatars-repository.ts; each takes the user's lock first, so it is one step.
-- Identifiers and object keys are numbers, times milliseconds. New identifiers are arguments.
pub mod Format
pub mod Service
pub mod Safe
pub mod Replaced
pub mod Cleanup
pub mod Steps
pub mod Publish
pub mod Published
pub mod Images
mod Examples
use oculus_business.Common.{
  ℕ, zero, suc, ◌+◌, ◌-◌, ◌*◌, ◌≤◌, ◌<◌, ◌≡◌, refl, sym, ap, ◌∙◌, ◌≢◌, ◌↔◌, ◌⊎◌, inl, inr, Bool,
  true, false, not, ◌&&◌, ◌||◌, Option, none, some, List, [], ◌∷◌, ◌++◌, arith, ltb, leb, ◌==◌,
  if◌then◌else◌, ==_iff, Bool-cases, Option-cases, is_some, find, filter, any, All, Has, map,
}
use oculus_business.Common.Rows.{update_many}

-- `AvatarContentType`; a stored type may also be another string.
pub data ContentType : Type 0 where
  jpeg png heic heif other_type : ContentType

pub data AvatarState : Type 0 where
  pending ready : AvatarState

pub record Avatar : Type 0 where
  pub id : ℕ
  pub user_id : ℕ
  pub state : AvatarState
  pub object_key : ℕ
  pub content_type : ContentType
  pub byte_size : ℕ
  pub expires_at : ℕ
  pub ready_at : Option ℕ

abbrev pub same_state : AvatarState → AvatarState → Bool
same_state pending pending = true
same_state ready ready = true
same_state _ _ = false

-- `userId_state`.
abbrev pub is_of : ℕ → AvatarState → Avatar → Bool
is_of user_id state a = a.user_id == user_id && same_state a.state state

abbrev pub has_avatar_id : ℕ → Avatar → Bool
has_avatar_id id a = a.id == id

abbrev pub is_upload : ℕ → ℕ → Avatar → Bool
is_upload user_id upload_id a = has_avatar_id upload_id a && is_of user_id pending a

unfoldable pub drop_avatar : ℕ → List Avatar → List Avatar
drop_avatar id = filter (λ a. not (has_avatar_id id a))

abbrev pub drop_found : Option Avatar → List Avatar → List Avatar
drop_found none rows = rows
drop_found (some a) rows = drop_avatar a.id rows

abbrev pub key_of : Option Avatar → Option ℕ
key_of none = none
key_of (some a) = some a.object_key

-- `StartAvatarUploadInput`.
pub record UploadInput : Type 0 where
  pub user_id : ℕ
  pub object_key : ℕ
  pub content_type : ContentType
  pub byte_size : ℕ
  pub expires_at : ℕ

abbrev pub new_upload : ℕ → UploadInput → Avatar
new_upload id i = record {
  id = id;
  user_id = i.user_id;
  state = pending;
  object_key = i.object_key;
  content_type = i.content_type;
  byte_size = i.byte_size;
  expires_at = i.expires_at;
  ready_at = none;
}

-- The rows after, and the key of the object that the new upload replaces.
unfoldable pub start_upload : ℕ → UploadInput → List Avatar → List Avatar × Option ℕ
unfolding drop_avatar
start_upload id i rows =
    let abandoned = find (is_of i.user_id pending) rows in
    (new_upload id i ∷ drop_found abandoned rows, key_of abandoned)

unfoldable pub find_pending : ℕ → ℕ → List Avatar → Option Avatar
find_pending user_id upload_id = find (is_upload user_id upload_id)

unfoldable pub find_ready : ℕ → List Avatar → Option Avatar
find_ready user_id = find (is_of user_id ready)

abbrev pub as_ready : ℕ → Avatar → Avatar
as_ready ready_at a = record a { state = ready; ready_at = some ready_at }

abbrev pub publish : ℕ → Avatar → List Avatar → List Avatar
publish ready_at a rows = (update_many (has_avatar_id a.id) (as_ready ready_at) rows).0

-- What `promoteToReady` answers.
pub record Promoted : Type 0 where
  pub avatar : Avatar
  pub replaced_object_key : Option ℕ

abbrev pub promote_found : ℕ → ℕ → List Avatar → Option Avatar → List Avatar × Option Promoted
promote_found user_id ready_at rows none = (rows, none)
promote_found user_id ready_at rows (some a) =
    let previous = find_ready user_id rows in
    (
      publish ready_at a (drop_found previous rows),
      some (record { avatar = as_ready ready_at a; replaced_object_key = key_of previous }),
    )

unfoldable pub promote_to_ready : ℕ → ℕ → ℕ → List Avatar → List Avatar × Option Promoted
unfolding find_pending find_ready drop_avatar update_many
promote_to_ready user_id upload_id ready_at rows =
    promote_found user_id ready_at rows (find_pending user_id upload_id rows)

unfoldable pub remove_pending : ℕ → ℕ → List Avatar → List Avatar × Option ℕ
unfolding find_pending drop_avatar
remove_pending user_id upload_id rows =
    let found = find_pending user_id upload_id rows in (drop_found found rows, key_of found)

abbrev pub is_users : ℕ → Avatar → Bool
is_users user_id a = a.user_id == user_id

unfoldable pub remove_all : ℕ → List Avatar → List Avatar × List ℕ
remove_all user_id rows = (
  filter (λ a. not (is_users user_id a)) rows,
  map (λ (a : Avatar). a.object_key) (filter (is_users user_id) rows),
)
