-- ===== src/Uploads/Format.antt =====
-- Images known by their leading bytes: backend/src/modules/uploads/domain/image-format.ts. A file
-- is the list of its bytes.
use oculus_business.Common.{
  ℕ, zero, suc, Bool, true, false, ◌&&◌, Option, none, some, List, [], ◌∷◌, leb, ◌==◌,
  if◌then◌else◌, any, take, length,
}
use oculus_business.Common.Text.{Text, lit, text_eq}
use oculus_business.Uploads.{ContentType, jpeg, png, heic, heif, other_type}

-- The first bytes are those.
unfoldable pub starts_with : List ℕ → List ℕ → Bool
starts_with [] bytes = true
starts_with (b ∷ bs) [] = false
starts_with (b ∷ bs) (c ∷ cs) = c == b && starts_with bs cs

abbrev pub jpeg_signature : List ℕ
jpeg_signature = 255 ∷ 216 ∷ 255 ∷ []

abbrev pub png_signature : List ℕ
png_signature = 137 ∷ 80 ∷ 78 ∷ 71 ∷ 13 ∷ 10 ∷ 26 ∷ 10 ∷ []

abbrev pub image_signature_byte_length : ℕ
image_signature_byte_length = 12

-- `bytes.subarray(offset)`.
unfoldable pub drop_bytes : ℕ → List ℕ → List ℕ
drop_bytes zero bytes = bytes
drop_bytes (suc n) [] = []
drop_bytes (suc n) (b ∷ bs) = drop_bytes n bs

-- `asciiAt`.
unfoldable pub ascii_at : List ℕ → ℕ → ℕ → Text
unfolding drop_bytes
ascii_at bytes offset n = take n (drop_bytes offset bytes)

abbrev pub heif_brands : List Text
heif_brands =
    lit "heic"
    ∷ lit "heix"
    ∷ lit "hevc"
    ∷ lit "hevx"
    ∷ lit "mif1"
    ∷ lit "msf1"
    ∷ lit "heim"
    ∷ lit "heis"
    ∷ []

unfoldable pub is_heif_brand : Text → Bool
unfolding text_eq
is_heif_brand brand = any (text_eq brand) heif_brands

unfoldable pub detect_image_format : List ℕ → Option ContentType
unfolding starts_with ascii_at text_eq is_heif_brand
detect_image_format bytes =
    if starts_with jpeg_signature bytes
    then some jpeg
    else if starts_with png_signature bytes
    then some png
    else if leb image_signature_byte_length (length bytes)
        && text_eq (ascii_at bytes 4 4) (lit "ftyp")
        && is_heif_brand (ascii_at bytes 8 4)
    then some heic
    else none

abbrev pub normalize_image_format : ContentType → ContentType
normalize_image_format heif = heic
normalize_image_format t = t

abbrev pub same_type : ContentType → ContentType → Bool
same_type jpeg jpeg = true
same_type png png = true
same_type heic heic = true
same_type heif heif = true
same_type other_type other_type = true
same_type _ _ = false

unfoldable pub image_format_matches_declared_type : ContentType → ContentType → Bool
image_format_matches_declared_type detected declared =
    same_type (normalize_image_format detected) (normalize_image_format declared)
