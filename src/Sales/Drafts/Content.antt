-- ===== src/Sales/Drafts/Content.antt =====
-- `normalizeRecipient` and `draftContentHash` of
-- backend/src/modules/business/domain/sales-rules.ts. What the JavaScript runtime does is a
-- parameter: `toLowerCase` on any letters, and `JSON.stringify` of the four fields of the payload.
use oculus_business.Common.{
  ℕ, suc, ◌*◌, Bool, ◌&&◌, Option, [], ◌∷◌, ◌++◌, leb, ◌==◌, if◌then◌else◌, filter, bit_xor, ◌%◌,
  ◌^◌,
}
use oculus_business.Common.Text.{Text, trim}
use oculus_business.Sales.Drafts.{ChannelKind, email, phone, telegram, other_channel, Draft}

pub record Runtime : Type 0 where
  pub to_lower_case : Text → Text
  pub stringify : Text → Option Text → Text → Option Text → Text

abbrev pub is_digit : ℕ → Bool
is_digit c = leb 48 c && leb c 57

-- `value.startsWith('+') ? '+' : ''`.
abbrev pub plus_of : Text → Text
plus_of [] = []
plus_of (c ∷ s) = if c == 43 then 43 ∷ [] else []

-- `value.replace(/^@/, '')`.
abbrev pub without_at : Text → Text
without_at [] = []
without_at (c ∷ s) = if c == 64 then s else c ∷ s

abbrev pub or_value : Text → Text → Text → Text
or_value value [] normal = value
or_value value (c ∷ s) normal = normal

-- `normalizeRecipient` on a trimmed value that is not empty.
unfoldable pub normalize_value : Runtime → ChannelKind → Text → Text
normalize_value rt email value = rt.to_lower_case value
normalize_value rt phone value =
    or_value value (filter is_digit value) (plus_of value ++ filter is_digit value)
normalize_value rt telegram value =
    or_value value (without_at value) (64 ∷ rt.to_lower_case (without_at value))
normalize_value rt other_channel value = value

unfoldable pub normalize_trimmed : Runtime → ChannelKind → Text → Text
unfolding normalize_value
normalize_trimmed rt channel [] = []
normalize_trimmed rt channel (c ∷ s) = normalize_value rt channel (c ∷ s)

unfoldable pub normalize_recipient : Runtime → ChannelKind → Text → Text
unfolding normalize_trimmed trim
normalize_recipient rt channel recipient = normalize_trimmed rt channel (trim recipient)

-- One turn of the FNV-1a loop: `hash ^= code`, then the low 32 bits of the product.
abbrev pub fnv_step : ℕ → ℕ → ℕ
fnv_step hash c = bit_xor hash c * 16777619 % 2 ^ 32

unfoldable pub fnv : ℕ → Text → ℕ
fnv hash [] = hash
fnv hash (c ∷ s) = fnv (fnv_step hash c) s

unfoldable pub text_length : Text → ℕ
text_length [] = 0
text_length (c ∷ s) = suc (text_length s)

-- `draftContentHash`, as the two numbers that its text prints.
unfoldable pub draft_content_hash : Runtime → Draft → ℕ × ℕ
unfolding fnv text_length
draft_content_hash rt d =
    let payload = rt.stringify d.recipient d.subject d.body d.terms in
    (fnv 2166136261 payload, text_length payload)
