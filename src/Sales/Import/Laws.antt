-- ===== src/Sales/Import/Laws.antt =====
-- Whom an import candidate is matched with (`matchImportCandidate`).
use oculus_business.Common.{
  Bool, true, false, ◌≡◌, ◌≢◌, refl, ap, ◌⊎◌, Bool-cases, inl, inr, Option, none, some, List, [],
  ◌∷◌, filter, find, Has, head?, arith, Option-cases,
}
use oculus_business.Common.Text.{Text, text_eq, text_eq_refl, text_eq-eq, is_missing}
use oculus_business.Sales.Import.{
  CompanyLike, Candidate, ImportMatch, by_external_id, by_domain, by_name, by_none, same_text,
  texts_differ, find_external, find_inn, find_domain, find_name, same_domain, inn_compatible,
  match_import_candidate, match_by_inn, match_by_domain, match_by_name,
}

find-Has :
    (p : CompanyLike → Bool) (xs : List CompanyLike) (x : CompanyLike)
    → find p xs ≡ some x
    → Has x xs × (p x ≡ true)
find-Has p [] x h = cc
find-Has p (y ∷ xs) x h = ground (arith, find-Has p xs x)

find-none :
    (p : CompanyLike → Bool) (xs : List CompanyLike) (x : CompanyLike)
    → find p xs ≡ none
    → Has x xs
    → p x ≡ false
find-none p [] x h m = absurd m
find-none p (y ∷ xs) x h m = ground (arith, find-none p xs x)

Has-filter :
    (p : CompanyLike → Bool) (xs : List CompanyLike) (x : CompanyLike)
    → Has x (filter p xs)
    → Has x xs × (p x ≡ true)
Has-filter p [] x h = absurd h
Has-filter p (y ∷ xs) x h = ground (arith, Has-filter p xs x)

filter-Has :
    (p : CompanyLike → Bool) (xs : List CompanyLike) (x : CompanyLike)
    → Has x xs
    → p x ≡ true
    → Has x (filter p xs)
filter-Has p [] x m h = m
filter-Has p (y ∷ xs) x m h = ground (arith, filter-Has p xs x)

head?-Has : (xs : List CompanyLike) (x : CompanyLike) → head? xs ≡ some x → Has x xs
head?-Has [] x h = cc
head?-Has (y ∷ xs) x h = ground arith

same_text-eq : (s t : Option Text) → same_text s t ≡ true → s ≡ t
unfolding same_text
same_text-eq none none h = refl
same_text-eq none (some t) h = cc
same_text-eq (some s) none h = cc
same_text-eq (some s) (some t) h = cc (text_eq-eq s t h)

same_text_refl : (s : Option Text) → same_text s s ≡ true
unfolding same_text
same_text_refl none = refl
same_text_refl (some s) = text_eq_refl s

find_external-Has :
    (c : Candidate) (xs : List CompanyLike) (x : CompanyLike)
    → find_external c xs ≡ some x
    → Has x xs × (x.external_id ≡ c.external_id)
unfolding find_external
find_external-Has c xs x h = elim (Option-cases c.external_id) [
  | inl e ↦ cc (rw e at h)
  | inr (e, q) ↦
      let found = find-Has (λ y. same_text y.external_id (some e)) xs x (rw q at h) in
      (found.0, rw q (same_text-eq x.external_id (some e) found.1))
]

find_external-none :
    (c : Candidate) (xs : List CompanyLike) (x : CompanyLike) (e : Text)
    → find_external c xs ≡ none
    → Has x xs
    → c.external_id ≡ some e
    → x.external_id ≢ some e
unfolding find_external
find_external-none c xs x e h m q r = cc (
  find-none (λ y. same_text y.external_id (some e)) xs x (rw q at h) m,
  same_text_refl (some e),
  ap (λ t. same_text t (some e)) r,
)

find_inn-Has :
    (c : Candidate) (xs : List CompanyLike) (x : CompanyLike)
    → find_inn c xs ≡ some x
    → Has x xs × (x.inn ≡ c.inn)
unfolding find_inn
find_inn-Has c xs x h = elim (Bool-cases (is_missing c.inn)) [
  | inl e ↦ cc (rw e at h)
  | inr e ↦
      let found = find-Has (λ y. same_text y.inn c.inn) xs x (rw e at h) in
      (found.0, same_text-eq x.inn c.inn found.1)
]

same_domain-Has :
    (c : Candidate) (xs : List CompanyLike) (x : CompanyLike)
    → Has x (same_domain c xs)
    → Has x xs × (x.domain ≡ c.domain) × (c.domain ≢ none)
unfolding same_domain
same_domain-Has c xs x h = elim (Option-cases c.domain) [
  | inl e ↦ absurd (rw e at h)
  | inr (d, q) ↦
      let found = Has-filter (λ y. same_text y.domain (some d)) xs x (rw q at h) in
      (found.0, rw q (same_text-eq x.domain (some d) found.1), λ e. cc)
]

find_domain-Has :
    (c : Candidate) (xs : List CompanyLike) (x : CompanyLike)
    → find_domain c xs ≡ some x
    → Has x xs × (x.domain ≡ c.domain) × (inn_compatible c x ≡ true)
unfolding find_domain
find_domain-Has c xs x h =
    let found =
      Has-filter (inn_compatible c) (same_domain c xs) x
        (head?-Has (filter (inn_compatible c) (same_domain c xs)) x h) in
    let there = same_domain-Has c xs x found.0 in (there.0, there.1, found.1)

-- Two tax numbers that are both known agree.
abbrev pub SameInn : Candidate → CompanyLike → Type 0
SameInn c x = (s t : Text) → c.inn ≡ some s → x.inn ≡ some t → s ≡ t

inn_compatible-SameInn : (c : Candidate) (x : CompanyLike) → inn_compatible c x ≡ true → SameInn c x
unfolding inn_compatible texts_differ
inn_compatible-SameInn c x h s t p q = ground (arith, text_eq-eq t s)

-- What a result that names a company says of it, by its key.
abbrev pub Justified : Candidate → List CompanyLike → ImportMatch → CompanyLike → Type 0
Justified c xs m x =
    Has x xs
    × (m.company_id ≡ some x.id)
    × (((m.matched_by ≡ by_external_id) × (x.external_id ≡ c.external_id))
        ⊎ (((m.matched_by ≡ by_domain) × SameInn c x × ((x.inn ≡ c.inn) ⊎ (x.domain ≡ c.domain)))
            ⊎ ((m.matched_by ≡ by_name) × (x.name ≡ c.name))))

-- What a result that names no company says of each company.
abbrev pub Unmatched : Candidate → CompanyLike → Type 0
Unmatched c x = (x.name ≢ c.name) × ((e : Text) → c.external_id ≡ some e → x.external_id ≢ some e)

find_name-none :
    (c : Candidate) (xs : List CompanyLike) (x : CompanyLike)
    → find_name c xs ≡ none
    → Has x xs
    → x.name ≢ c.name
unfolding find_name
find_name-none c xs x h m e = cc (
  find-none (λ y. text_eq y.name c.name) xs x h m,
  text_eq_refl c.name,
  ap (λ t. text_eq t c.name) e,
)

match_by_name-Justified :
    (c : Candidate) (xs : List CompanyLike)
    → find_external c xs ≡ none
    → let m = match_by_name c xs in
      ((m.company_id ≡ none)
        × (m.matched_by ≡ by_none)
        × ((x : CompanyLike) → Has x xs → Unmatched c x))
      ⊎ ((x : CompanyLike) × Justified c xs m x)
unfolding match_by_name
match_by_name-Justified c xs ext = elim (Option-cases (find_name c xs)) [
  | inl e ↦ inl (
    rw (e, match_by_name),
    rw (e, match_by_name),
    λ x m. (find_name-none c xs x e m, λ t q. find_external-none c xs x t ext m q),
  )
  | inr (x, e) ↦
      let found = find-Has (λ y. text_eq y.name c.name) xs x (unfold find_name in e) in
      inr (
        x,
        (
          found.0,
          rw (e, match_by_name),
          inr (inr (rw (e, match_by_name), text_eq-eq x.name c.name found.1)),
        ),
      )
]

match_by_domain-Justified :
    (c : Candidate) (xs : List CompanyLike)
    → find_external c xs ≡ none
    → let m = match_by_domain c xs in
      ((m.company_id ≡ none)
        × (m.matched_by ≡ by_none)
        × ((x : CompanyLike) → Has x xs → Unmatched c x))
      ⊎ ((x : CompanyLike) × Justified c xs m x)
unfolding match_by_domain
match_by_domain-Justified c xs ext = elim (Option-cases (find_domain c xs)) [
  | inl e ↦ rw (e, match_by_domain) (match_by_name-Justified c xs ext)
  | inr (x, e) ↦
      let (there, same, fit) = find_domain-Has c xs x e in
      inr (
        x,
        (
          there,
          rw (e, match_by_domain),
          inr (inl (rw (e, match_by_domain), inn_compatible-SameInn c x fit, inr same)),
        ),
      )
]

match_by_inn-Justified :
    (c : Candidate) (xs : List CompanyLike)
    → find_external c xs ≡ none
    → let m = match_by_inn c xs in
      ((m.company_id ≡ none)
        × (m.matched_by ≡ by_none)
        × ((x : CompanyLike) → Has x xs → Unmatched c x))
      ⊎ ((x : CompanyLike) × Justified c xs m x)
unfolding match_by_inn
match_by_inn-Justified c xs ext = elim (Option-cases (find_inn c xs)) [
  | inl e ↦ rw (e, match_by_inn) (match_by_domain-Justified c xs ext)
  | inr (x, e) ↦
      let (there, same) = find_inn-Has c xs x e in
      inr (
        x,
        (there, rw (e, match_by_inn), inr (inl (rw (e, match_by_inn), λ s t p q. cc, inl same))),
      )
]

-- A match names a company of the list by a key that they share: the external identifier, the tax
-- number or the domain, or the name. A match reported as by the domain never joins two companies
-- whose known tax numbers differ. No match means that no company has the name or the external
-- identifier of the candidate.
pub match_import_candidate-Justified :
    (c : Candidate) (xs : List CompanyLike)
    → let m = match_import_candidate c xs in
      ((m.company_id ≡ none)
        × (m.matched_by ≡ by_none)
        × ((x : CompanyLike) → Has x xs → Unmatched c x))
      ⊎ ((x : CompanyLike) × Justified c xs m x)
unfolding match_import_candidate
match_import_candidate-Justified c xs = elim (Option-cases (find_external c xs)) [
  | inl e ↦ rw (e, match_import_candidate) (match_by_inn-Justified c xs e)
  | inr (x, e) ↦
      let (there, same) = find_external-Has c xs x e in
      inr (x, (there, rw (e, match_import_candidate), inl (rw (e, match_import_candidate), same)))
]
