-- ===== src/Sales/Import.antt =====
-- `matchImportCandidate` of backend/src/modules/business/domain/sales-rules.ts. Company identifiers
-- are numbers; the texts are only compared, and the tax number is also tested for being blank.
pub mod Laws
mod Examples
use oculus_business.Common.{
  ℕ, Bool, true, false, not, ◌&&◌, ◌||◌, Option, none, some, List, [], ◌∷◌, ◌++◌, find, filter,
  head?, if◌then◌else◌,
}
use oculus_business.Common.Text.{Text, text_eq, is_missing}

pub record CompanyLike : Type 0 where
  pub id : ℕ
  pub name : Text
  pub domain : Option Text
  pub inn : Option Text
  pub external_id : Option Text

pub record Candidate : Type 0 where
  pub name : Text
  pub domain : Option Text
  pub inn : Option Text
  pub external_id : Option Text

pub data MatchedBy : Type 0 where
  by_external_id by_domain by_name by_none : MatchedBy

pub data ConflictField : Type 0 where
  domain_field name_field inn_field : ConflictField

pub record Conflict : Type 0 where
  pub field : ConflictField
  pub existing : Option Text
  pub incoming : Option Text

pub record ImportMatch : Type 0 where
  pub company_id : Option ℕ
  pub matched_by : MatchedBy
  pub conflicts : List Conflict

-- `===` on `string | null`.
unfoldable pub same_text : Option Text → Option Text → Bool
same_text none none = true
same_text (some s) (some t) = text_eq s t
same_text _ _ = false

-- Both are given and they differ.
unfoldable pub texts_differ : Option Text → Option Text → Bool
texts_differ (some s) (some t) = not (text_eq s t)
texts_differ _ _ = false

abbrev pub domain_conflicts : Candidate → CompanyLike → List Conflict
domain_conflicts c x =
    if texts_differ x.domain c.domain
    then record { field = domain_field; existing = x.domain; incoming = c.domain } ∷ []
    else []

abbrev pub name_conflicts : Candidate → CompanyLike → List Conflict
name_conflicts c x =
    if text_eq x.name c.name
    then []
    else record { field = name_field; existing = some x.name; incoming = some c.name } ∷ []

abbrev pub matched : CompanyLike → MatchedBy → List Conflict → ImportMatch
matched x by conflicts = record { company_id = some x.id; matched_by = by; conflicts = conflicts }

-- The searches of the four keys; a key that the candidate lacks finds nothing.
unfoldable pub find_external : Candidate → List CompanyLike → Option CompanyLike
find_external c companies = elim c.external_id [
  | none ↦ none
  | some e ↦ find (λ x. same_text x.external_id (some e)) companies
]

unfoldable pub find_inn : Candidate → List CompanyLike → Option CompanyLike
find_inn c companies =
    if is_missing c.inn then none else find (λ x. same_text x.inn c.inn) companies

unfoldable pub same_domain : Candidate → List CompanyLike → List CompanyLike
same_domain c companies = elim c.domain [
  | none ↦ []
  | some d ↦ filter (λ x. same_text x.domain (some d)) companies
]

-- No conflict of tax numbers.
unfoldable pub inn_compatible : Candidate → CompanyLike → Bool
inn_compatible c x = not (texts_differ x.inn c.inn)

unfoldable pub find_domain : Candidate → List CompanyLike → Option CompanyLike
find_domain c companies = head? (filter (inn_compatible c) (same_domain c companies))

unfoldable pub find_name : Candidate → List CompanyLike → Option CompanyLike
find_name c companies = find (λ x. text_eq x.name c.name) companies

-- The note that a domain was met only at companies with another tax number.
unfoldable pub inn_conflicts : Candidate → List CompanyLike → List Conflict
inn_conflicts c companies = elim (head? (same_domain c companies)) [
  | none ↦ []
  | some x ↦ record { field = inn_field; existing = x.inn; incoming = c.inn } ∷ []
]

unfoldable pub match_by_name : Candidate → List CompanyLike → ImportMatch
match_by_name c companies = elim (find_name c companies) [
  | some x ↦ matched x by_name (inn_conflicts c companies ++ domain_conflicts c x)
  | none ↦ record { company_id = none; matched_by = by_none; conflicts = inn_conflicts c companies }
]

unfoldable pub match_by_domain : Candidate → List CompanyLike → ImportMatch
match_by_domain c companies = elim (find_domain c companies) [
  | some x ↦ matched x by_domain (name_conflicts c x)
  | none ↦ match_by_name c companies
]

unfoldable pub match_by_inn : Candidate → List CompanyLike → ImportMatch
match_by_inn c companies = elim (find_inn c companies) [
  | some x ↦ matched x by_domain (domain_conflicts c x)
  | none ↦ match_by_domain c companies
]

unfoldable pub match_import_candidate : Candidate → List CompanyLike → ImportMatch
match_import_candidate c companies = elim (find_external c companies) [
  | some x ↦ matched x by_external_id []
  | none ↦ match_by_inn c companies
]
