-- ===== src/Uploads/Images.antt =====
-- What an image of a format is, apart from the code that detects it
-- (backend/src/modules/uploads/domain/image-format.ts).
use oculus_business.Common.{
  ℕ, zero, suc, ◌≤◌, ◌≡◌, refl, sym, ap, ◌∙◌, ◌⊎◌, inl, inr, true, ◌&&◌, some, List, [], ◌∷◌, ◌++◌,
  arith, leb, Bool-cases, any, take, length, Has,
}
use mathlib.Core.Path.{subst}
use mathlib.Core.Option.{some_inj}
use oculus_business.Common.Text.{Text, lit, text_eq, text_eq-eq}
use oculus_business.Uploads.{ContentType, jpeg, png, heic, heif, other_type}
use oculus_business.Uploads.Format.{
  starts_with, jpeg_signature, png_signature, image_signature_byte_length, drop_bytes, ascii_at,
  heif_brands, is_heif_brand, detect_image_format, normalize_image_format, same_type,
  image_format_matches_declared_type,
}

-- The bytes of a file of that format: a signature and then anything, or a size of four bytes, `ftyp`
-- and one of the brands.
abbrev pub IsImageOf : ContentType → List ℕ → Type 0
IsImageOf jpeg bytes = (rest : List ℕ) × (bytes ≡ 255 ∷ 216 ∷ 255 ∷ rest)
IsImageOf png bytes = (rest : List ℕ) × (bytes ≡ 137 ∷ 80 ∷ 78 ∷ 71 ∷ 13 ∷ 10 ∷ 26 ∷ 10 ∷ rest)
IsImageOf heic bytes =
    (size : List ℕ) × (brand : List ℕ) × (rest : List ℕ) × (length size ≡ 4)
    × Has brand heif_brands
    × (bytes ≡ size ++ (lit "ftyp" ++ (brand ++ rest)))
IsImageOf heif bytes = ⊥
IsImageOf other_type bytes = ⊥

-- The same type, or the two names of HEIF images.
abbrev pub IsLike : ContentType → ContentType → Type 0
IsLike a b = (a ≡ b) ⊎ ((a ≡ heic) × (b ≡ heif)) ⊎ ((a ≡ heif) × (b ≡ heic))

pub matches-IsLike :
    (a b : ContentType) → image_format_matches_declared_type a b ≡ true → IsLike a b
unfolding image_format_matches_declared_type
matches-IsLike jpeg jpeg h = inl refl
matches-IsLike png png h = inl refl
matches-IsLike heic heic h = inl refl
matches-IsLike heic heif h = inr (inl (refl, refl))
matches-IsLike heif heic h = inr (inr (refl, refl))
matches-IsLike heif heif h = inl refl
matches-IsLike other_type other_type h = inl refl
matches-IsLike a b h = ground arith

same_type_refl :
    (a : ContentType) → same_type (normalize_image_format a) (normalize_image_format a) ≡ true
same_type_refl jpeg = refl
same_type_refl png = refl
same_type_refl heic = refl
same_type_refl heif = refl
same_type_refl other_type = refl

pub IsLike-matches :
    (a b : ContentType) → IsLike a b → image_format_matches_declared_type a b ≡ true
unfolding image_format_matches_declared_type
IsLike-matches a b (inl e) = rw e (same_type_refl b)
IsLike-matches a b (inr (inl (e, f))) = rw (e, f) refl
IsLike-matches a b (inr (inr (e, f))) = rw (e, f) refl

starts_with-split :
    (prefix bytes : List ℕ)
    → starts_with prefix bytes ≡ true
    → (rest : List ℕ) × (bytes ≡ prefix ++ rest)
unfolding starts_with
starts_with-split [] bytes h = (bytes, refl)
starts_with-split (b ∷ bs) [] h = cc
starts_with-split (b ∷ bs) (c ∷ cs) h =
    let (rest, e) = starts_with-split bs cs (ground arith) in
    let same : c ≡ b = ground arith in (rest, ap (λ x. x ∷ cs) same ∙ ap (λ xs. b ∷ xs) e)

take-drop_bytes : (n : ℕ) (bytes : List ℕ) → bytes ≡ take n bytes ++ drop_bytes n bytes
unfolding drop_bytes
take-drop_bytes zero bytes = refl
take-drop_bytes (suc n) [] = refl
take-drop_bytes (suc n) (b ∷ bs) = ap (λ xs. b ∷ xs) (take-drop_bytes n bs)

drop_bytes_twice : (bytes : List ℕ) → drop_bytes 4 (drop_bytes 4 bytes) ≡ drop_bytes 8 bytes
unfolding drop_bytes
drop_bytes_twice [] = refl
drop_bytes_twice (a ∷ []) = refl
drop_bytes_twice (a ∷ b ∷ []) = refl
drop_bytes_twice (a ∷ b ∷ c ∷ []) = refl
drop_bytes_twice (a ∷ b ∷ c ∷ d ∷ bytes) = refl

length-take : (n : ℕ) (bytes : List ℕ) → n ≤ length bytes → length (take n bytes) ≡ n
length-take zero bytes h = refl
length-take (suc n) [] h = omega arith
length-take (suc n) (b ∷ bs) h = omega (arith, length-take n bs (omega arith))

any-Has : (brand : Text) (brands : List Text) → any (text_eq brand) brands ≡ true → Has brand brands
any-Has brand [] h = cc
any-Has brand (b ∷ bs) h = elim (Bool-cases (text_eq brand b)) [
  | inl e ↦ inl (sym (text_eq-eq brand b e))
  | inr e ↦ inr (any-Has brand bs (rw e at h))
]

heic_image :
    (bytes : List ℕ)
    → leb image_signature_byte_length (length bytes) ≡ true
    → text_eq (ascii_at bytes 4 4) (lit "ftyp") ≡ true
    → is_heif_brand (ascii_at bytes 8 4) ≡ true
    → IsImageOf heic bytes
unfolding ascii_at is_heif_brand
heic_image bytes long named branded =
    let brand = take 4 (drop_bytes 8 bytes) in
    let rest = drop_bytes 4 (drop_bytes 8 bytes) in
    let box = text_eq-eq (take 4 (drop_bytes 4 bytes)) (lit "ftyp") named in
    let tail = drop_bytes_twice bytes ∙ take-drop_bytes 4 (drop_bytes 8 bytes) in
    (
      take 4 bytes,
      brand,
      rest,
      length-take 4 bytes (ground arith),
      any-Has brand heif_brands branded,
      take-drop_bytes 4 bytes
          ∙ ap (λ xs. take 4 bytes ++ xs)
              (take-drop_bytes 4 (drop_bytes 4 bytes)
                ∙ ap (λ xs. xs ++ drop_bytes 4 (drop_bytes 4 bytes)) box
                ∙ ap (λ xs. lit "ftyp" ++ xs) tail),
    )

-- What the code detects is an image of that format.
pub detect_image_format-IsImageOf :
    (bytes : List ℕ) (t : ContentType) → detect_image_format bytes ≡ some t → IsImageOf t bytes
unfolding detect_image_format
detect_image_format-IsImageOf bytes t h = elim (Bool-cases (starts_with jpeg_signature bytes)) [
  | inl e ↦
      subst (λ x. IsImageOf x bytes) (some_inj.0 (rw e at h))
        (starts_with-split jpeg_signature bytes e)
  | inr e ↦ elim (Bool-cases (starts_with png_signature bytes)) [
    | inl f ↦
        subst (λ x. IsImageOf x bytes) (some_inj.0 (rw (e, f) at h))
          (starts_with-split png_signature bytes f)
    | inr f ↦
        elim (Bool-cases (
          leb image_signature_byte_length (length bytes)
          && text_eq (ascii_at bytes 4 4) (lit "ftyp")
          && is_heif_brand (ascii_at bytes 8 4))) [
            | inl g ↦
                subst (λ x. IsImageOf x bytes) (some_inj.0 (rw (e, f, g) at h))
                  (heic_image bytes (ground arith) (ground arith) (ground arith))
            | inr g ↦ cc (rw (e, f, g) at h)
          ]
  ]
]
