-- ===== src/Uploads/Publish.antt =====
-- What a published avatar has passed (`finalizeUpload`, backend/src/modules/uploads/application).
use oculus_business.Common.{ℕ, ◌≡◌, ◌⊎◌, inl, inr, Bool, true, false, some, List}
use oculus_business.Uploads.{ContentType, Avatar}
use oculus_business.Uploads.Format.{detect_image_format}
use oculus_business.Uploads.Images.{IsImageOf, IsLike}
use oculus_business.Uploads.Service.{Storage, StoredObject, UploadVerdict, passed}

abbrev pub is_done : {A B : Type 0} → A ⊎ B → Bool
is_done (inl a) = false
is_done (inr b) = true

abbrev pub is_passed : UploadVerdict → Bool
is_passed passed = true
is_passed _ = false

-- What the storage holds is what was declared, and its first bytes are an image of that format.
pub record IsGenuine (s : Storage) (a : Avatar) : Type 0 where
  pub object : StoredObject
  pub prefix : List ℕ
  pub detected : ContentType
  pub found : s.head_object a.object_key ≡ some object
  pub sized : object.content_length ≡ a.byte_size
  pub typed : IsLike object.content_type a.content_type
  pub read : s.read_prefix a.object_key ≡ some prefix
  pub is_detected : detect_image_format prefix ≡ some detected
  pub is_image : IsImageOf detected prefix
  pub matches : IsLike detected a.content_type
