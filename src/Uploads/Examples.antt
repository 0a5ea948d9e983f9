-- ===== src/Uploads/Examples.antt =====
-- Tests of avatars, and the theorems at two uploads.
use oculus_business.Common.{
  ℕ, ◌≡◌, refl, inl, true, false, none, some, List, [], ◌∷◌, ◌++◌, arith, All,
}
use oculus_business.Common.Text.{lit}
use oculus_business.Uploads.{jpeg, heic, heif, UploadInput, new_upload, find_pending, as_ready}
use oculus_business.Uploads.Format.{detect_image_format, image_format_matches_declared_type}
use oculus_business.Uploads.Service.{
  Storage, AvatarStore, wrong_size, create_upload, promote, finalize_upload,
}
use oculus_business.Uploads.Safe.{IsSafe}
use oculus_business.Uploads.Steps.{
  UploadsWorld, Reach, start, next, waits, uploads, promotes, finds_abandoned, deletes_object,
  IsSpared, Reach-IsSafe,
}
use oculus_business.Uploads.Cleanup.{find_abandoned, delete_uploads}
use oculus_business.Uploads.Publish.{is_done}

abbrev first_input : UploadInput
first_input = record {
  user_id = 1;
  object_key = 100;
  content_type = heif;
  byte_size = 12;
  expires_at = 50;
}

abbrev second_input : UploadInput
second_input = record {
  user_id = 1;
  object_key = 101;
  content_type = jpeg;
  byte_size = 12;
  expires_at = 60;
}

abbrev heic_bytes : List ℕ
heic_bytes = 0 ∷ 0 ∷ 0 ∷ 24 ∷ (lit "ftyp" ++ lit "heic")

abbrev holding : ℕ → Storage
holding size = record {
  head_object = λ k. some (record { content_length = size; content_type = heic });
  read_prefix = λ k. some heic_bytes;
}

abbrev no_avatars : AvatarStore
no_avatars = record { rows = []; deleted = [] }

abbrev one_upload : AvatarStore
one_upload = record { rows = new_upload 7 first_input ∷ []; deleted = [] }

heic_detected : detect_image_format heic_bytes ≡ some heic
unfolding detect_image_format
heic_detected = refl

script_not_detected : detect_image_format (lit "<svg onload=x>") ≡ none
unfolding detect_image_format
script_not_detected = refl

heif_is_heic : image_format_matches_declared_type heic heif ≡ true
unfolding image_format_matches_declared_type
heif_is_heic = refl

-- A file of another size is thrown away, with its object.
wrong_size_discarded :
    finalize_upload (holding 13) 1 7 40 one_upload
    ≡ (record { rows = []; deleted = 100 ∷ [] }, inl wrong_size)
unfolding finalize_upload
wrong_size_discarded = refl

-- A second finalization of the same upload finds nothing.
finalized_once :
    is_done
      (finalize_upload (holding 12) 1 7 41 (finalize_upload (holding 12) 1 7 40 one_upload).0).1
    ≡ false
unfolding finalize_upload
finalized_once = refl

abbrev replaced : AvatarStore
replaced =
    (promote 1 8 45
      (create_upload 8 second_input
        (promote 1 7 40 (create_upload 7 first_input no_avatars).0).0).0).0

replaced_deleted : replaced.deleted ≡ 100 ∷ []
unfolding promote create_upload
replaced_deleted = refl

-- The first avatar is published, and a second upload is left until the job finds it: its object is
-- gone, and its row is still there.
abbrev left_upload : AvatarStore
left_upload =
    (create_upload 8 second_input (promote 1 7 40 (create_upload 7 first_input no_avatars).0).0).0

abbrev cleaning : UploadsWorld
cleaning = record {
  store = left_upload;
  clock = 3700000;
  doomed = new_upload 8 second_input ∷ [];
  cleaned = 101 ∷ [];
}

cleaning-Reach : Reach cleaning
unfolding promote create_upload find_pending find_abandoned
cleaning-Reach =
    next
      (next
        (next
          (next
            (next (next (start 0) (uploads 7 first_input (tt, tt) tt))
              (promotes 1 7 40 (omega arith)))
            (uploads 8 second_input (((λ e. ground arith, λ e. ground arith), tt), tt) tt))
          (waits 3700000 (omega arith)))
        (finds_abandoned 3700000 (omega arith)))
      (deletes_object (new_upload 8 second_input) (inl refl))

Reach-IsSafe_example : IsSafe left_upload × All (IsSpared 3700000 (101 ∷ [])) left_upload.rows
Reach-IsSafe_example = Reach-IsSafe cleaning cleaning-Reach

-- Then the job deletes the row.
cleaned_up : delete_uploads (8 ∷ []) left_upload.rows ≡ as_ready 40 (new_upload 7 first_input) ∷ []
unfolding delete_uploads promote create_upload
cleaned_up = refl
