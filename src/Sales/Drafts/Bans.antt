-- ===== src/Sales/Drafts/Bans.antt =====
-- Bans on contact as they are set and lifted: `setCompanyDnc`, `liftCompanyDnc`, `setContactDnc`
-- and `liftContactDnc` of backend/src/modules/business/application/sales-service.ts and of the
-- repository beside it. Of the columns of a ban those are kept that the rules read.
use oculus_business.Common.{ℕ, Bool, true, false, some, [], ltb, ◌==◌, if◌then◌else◌, is_some}
use oculus_business.Common.Rows.{update_many}
use oculus_business.Common.Outcome.{Outcome, ok, fail, not_found, validation}
use oculus_business.Common.Text.{Text, lit, trim}
use oculus_business.Access.{Actor, AccessMessage, assert_human_only}
use oculus_business.Sales.Contact.{DncState, DncScope}
use oculus_business.Sales.Drafts.{Company, Contact, Tables, find_company, find_contact}
use oculus_business.Sales.Drafts.Content.{text_length}
use oculus_business.Sales.Drafts.Store.{hold_company_drafts, hold_contact_drafts}

pub data BanFailure : Type 0 where
  row_missing reason_too_short : BanFailure
  lift_refused : AccessMessage → BanFailure

abbrev pub banned : DncScope → Text → DncState
banned scope reason = record { do_not_contact = true; dnc_scope = scope; dnc_reason = some reason }

abbrev pub lifted : DncState → DncState
lifted s = record s { do_not_contact = false }

unfoldable pub change_company : ℕ → (DncState → DncState) → Tables → Tables
unfolding update_many
change_company id f t = record t {
  companies =
      (update_many (λ (c : Company). c.id == id) (λ c. record c { dnc = f c.dnc }) t.companies).0;
}

unfoldable pub change_contact : ℕ → (DncState → DncState) → Tables → Tables
unfolding update_many
change_contact id f t = record t {
  contacts =
      (update_many (λ (c : Contact). c.id == id) (λ c. record c { dnc = f c.dnc }) t.contacts).0;
}

-- `setCompanyDnc`: the ban, then the hold of the drafts that are open.
unfoldable pub set_company_dnc :
    ℕ → DncScope → Text → Tables → Tables × Outcome BanFailure (Unit {0})
unfolding change_company hold_company_drafts
set_company_dnc id scope reason t =
    if is_some (find_company id t)
    then (
      hold_company_drafts id scope reason (change_company id (λ s. banned scope reason) t),
      ok tt,
    )
    else (t, fail not_found row_missing)

unfoldable pub set_contact_dnc :
    ℕ → DncScope → Text → Tables → Tables × Outcome BanFailure (Unit {0})
unfolding change_contact hold_contact_drafts
set_contact_dnc id scope reason t =
    if is_some (find_contact id t)
    then (
      hold_contact_drafts id scope reason (change_contact id (λ s. banned scope reason) t),
      ok tt,
    )
    else (t, fail not_found row_missing)

-- The checks of a lift: a person, with a reason.
unfoldable pub may_lift : Actor → Text → Text → Outcome BanFailure (Unit {0})
unfolding assert_human_only trim text_length
may_lift actor operation reason = elim (assert_human_only actor operation []).0 [
  | fail k m ↦ fail k (lift_refused m)
  | ok u ↦ if ltb (text_length (trim reason)) 3 then fail validation reason_too_short else ok tt
]

abbrev pub lift_if :
    Outcome BanFailure (Unit {0}) → Bool → Tables → Tables → Tables × Outcome BanFailure (Unit {0})
lift_if (fail k m) exists t after = (t, fail k m)
lift_if (ok u) exists t after = if exists then (after, ok tt) else (t, fail not_found row_missing)

unfoldable pub lift_company_dnc : Actor → ℕ → Text → Tables → Tables × Outcome BanFailure (Unit {0})
unfolding may_lift change_company
lift_company_dnc actor id reason t =
    lift_if (may_lift actor (lit "company.dnc.lift") reason) (is_some (find_company id t)) t
      (change_company id lifted t)

unfoldable pub lift_contact_dnc : Actor → ℕ → Text → Tables → Tables × Outcome BanFailure (Unit {0})
unfolding may_lift change_contact
lift_contact_dnc actor id reason t =
    lift_if (may_lift actor (lit "contact.dnc.lift") reason) (is_some (find_contact id t)) t
      (change_contact id lifted t)
