-- ===== src/Sales/Import/Examples.antt =====
-- Import candidates against a small list of companies.
use oculus_business.Common.{◌≡◌, refl, ◌⊎◌, some, none, List, [], ◌∷◌, Has}
use oculus_business.Common.Text.{lit, text_eq, is_missing}
use oculus_business.Sales.Import.{
  CompanyLike, Candidate, by_none, by_name, inn_field, same_text, texts_differ, find_external,
  find_inn, find_domain, find_name, same_domain, inn_compatible, inn_conflicts, match_by_inn,
  match_by_domain, match_by_name, match_import_candidate,
}
use oculus_business.Sales.Import.Laws.{Unmatched, Justified, match_import_candidate-Justified}

abbrev plant : CompanyLike
plant = record {
  id = 1;
  name = lit "Plant";
  domain = some (lit "group.ru");
  inn = some (lit "77");
  external_id = some (lit "x1");
}

abbrev base : List CompanyLike
base = plant ∷ []

-- The site of the plant, under another tax number.
abbrev sister : Candidate
sister = record {
  name = lit "Sister";
  domain = some (lit "group.ru");
  inn = some (lit "78");
  external_id = none;
}

sister_not_merged : match_import_candidate sister base ≡ record {
  company_id = none;
  matched_by = by_none;
  conflicts =
      record { field = inn_field; existing = some (lit "77"); incoming = some (lit "78") } ∷ [];
}
unfolding match_import_candidate match_by_inn match_by_domain match_by_name find_external find_inn
    find_domain find_name same_domain inn_compatible inn_conflicts same_text texts_differ text_eq
    is_missing
sister_not_merged = refl

-- A company of the same name is matched although its tax number differs.
namesake_merged :
    (match_import_candidate (record sister { name = lit "Plant" }) base).matched_by ≡ by_name
unfolding match_import_candidate match_by_inn match_by_domain match_by_name find_external find_inn
    find_domain find_name same_domain inn_compatible inn_conflicts same_text texts_differ text_eq
    is_missing
namesake_merged = refl

match_import_candidate-Justified_example :
    let m = match_import_candidate sister base in
    ((m.company_id ≡ none)
      × (m.matched_by ≡ by_none)
      × ((x : CompanyLike) → Has x base → Unmatched sister x))
    ⊎ ((x : CompanyLike) × Justified sister base m x)
match_import_candidate-Justified_example = match_import_candidate-Justified sister base
