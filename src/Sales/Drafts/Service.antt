-- ===== src/Sales/Drafts/Service.antt =====
-- The operations of `SalesService` (backend/src/modules/business/application/sales-service.ts) that
-- create and edit drafts. An operation reads, and writes in a later statement, so that other requests
-- come between: it takes the tables `read` as its reads find them and the tables `t` as its write
-- finds them. Its reads, which are several statements, find the same tables here. The log of agents'
-- operations is left out.
use oculus_business.Common.{
  ℕ, Bool, true, false, not, ◌||◌, Option, none, some, ◌==◌, if◌then◌else◌, is_some, ◌<|>◌,
}
use oculus_business.Common.Outcome.{Outcome, ok, fail, not_found, conflict, validation}
use oculus_business.Common.Text.{Text}
use oculus_business.Sales.Contact.{DncState, TouchKind, assert_commercial_touch_allowed}
use oculus_business.Sales.Pilot.{DraftStatus}
use oculus_business.Sales.Drafts.{
  Company, Contact, ContactChannel, DealRow, Draft, Tables, ChannelKind, DraftMessage,
  company_missing, contact_of_other_company, recipient_of_other_contact, deal_missing,
  deal_of_other_company, changed_by_other, touch_banned, draft_missing, find_company, find_contact,
  find_linked_contact, find_linked_deal, find_draft, find_channel_in_company,
}
use oculus_business.Sales.Drafts.Content.{Runtime, normalize_recipient}
use oculus_business.Sales.Drafts.Store.{
  DraftInput, DraftChange, insert_draft, update_draft_row, create_draft_new_version, or_kept, given,
}

abbrev pub Answer : Type 0
Answer = Tables × Outcome DraftMessage Draft

-- A check that throws leaves the tables as they are.
abbrev pub after_check : Outcome DraftMessage (Unit {0}) → Tables → Answer → Answer
after_check (ok u) t answer = answer
after_check (fail k m) t answer = (t, fail k m)

abbrev pub lift_message :
    {M : Type 0} → (M → DraftMessage) → Outcome M (Unit {0}) → Outcome DraftMessage (Unit {0})
lift_message f (ok u) = ok tt
lift_message f (fail k m) = fail k (f m)

-- The channel of the company that has the recipient's address, and the contact it belongs to.
unfoldable pub recipient_owner : Runtime → ℕ → ChannelKind → Text → Tables → Option ContactChannel
unfolding find_channel_in_company normalize_recipient
recipient_owner rt company_id channel recipient t =
    find_channel_in_company company_id channel (normalize_recipient rt channel recipient) t

abbrev pub owner_contact : Option ContactChannel → Tables → Option Contact
owner_contact none t = none
owner_contact (some c) t = find_contact c.contact_id t

abbrev pub owns_other : Option ContactChannel → Option Contact → Bool
owns_other none contact = false
owns_other (some owner) none = false
owns_other (some owner) (some c) = not (owner.contact_id == c.id)

abbrev pub company_dnc : Option Company → Option DncState
company_dnc none = none
company_dnc (some c) = some c.dnc

abbrev pub contact_dnc : Option Contact → Option DncState
contact_dnc none = none
contact_dnc (some c) = some c.dnc

abbrev pub check_ban : Option Company → Option Contact → Outcome DraftMessage (Unit {0})
check_ban company contact =
    lift_message touch_banned
      (assert_commercial_touch_allowed (company_dnc company) (contact_dnc contact) TouchKind.draft)

-- The checks of `createDraft` and `sendDraft` on the recipient: the contact that is named, if any,
-- owns the address, if anyone does; neither it nor the company bans drafts.
unfoldable pub check_recipient :
    Option Company
    → Option Contact
    → Option ContactChannel
    → Tables
    → Outcome DraftMessage (Unit {0})
unfolding assert_commercial_touch_allowed
check_recipient company contact owner t =
    if owns_other owner contact
    then fail validation recipient_of_other_contact
    else check_ban company (contact <|> owner_contact owner t)

abbrev pub is_of_other_company : ℕ → Option Contact → Bool
is_of_other_company company_id none = false
is_of_other_company company_id (some c) = not (c.company_id == company_id)

abbrev pub check_deal_found : ℕ → Option DealRow → Outcome DraftMessage (Unit {0})
check_deal_found company_id none = fail not_found deal_missing
check_deal_found company_id (some d) = elim d.company_id [
  | none ↦ ok tt
  | some c ↦ if c == company_id then ok tt else fail validation deal_of_other_company
]

abbrev pub check_deal : ℕ → Option ℕ → Tables → Outcome DraftMessage (Unit {0})
check_deal company_id none t = ok tt
check_deal company_id (some deal_id) t =
    check_deal_found company_id (find_linked_deal (some deal_id) t)

abbrev pub create_for : Runtime → ℕ → ℕ → ℕ → DraftInput → Tables → Tables → Option Company → Answer
create_for rt id new_group actor_id i read t none = (t, fail not_found company_missing)
create_for rt id new_group actor_id i read t (some company) =
    let contact = find_linked_contact i.contact_id read in
    if is_of_other_company i.company_id contact
    then (t, fail validation contact_of_other_company)
    else after_check
        (check_recipient (some company) contact
          (recipient_owner rt i.company_id i.channel i.recipient read) read)
        t
        (after_check (check_deal i.company_id i.deal_id read) t
          (insert_draft id new_group actor_id i t))

-- What `createDraft` runs under the request's idempotency key.
unfoldable pub create_draft : Runtime → ℕ → ℕ → ℕ → DraftInput → Tables → Tables → Answer
unfolding insert_draft check_recipient recipient_owner
create_draft rt id new_group actor_id i read t =
    create_for rt id new_group actor_id i read t (find_company i.company_id read)

-- The statuses of which an edit makes a new version.
abbrev pub is_fixed : DraftStatus → Bool
is_fixed DraftStatus.approved = true
is_fixed DraftStatus.sent = true
is_fixed DraftStatus.cancelled = true
is_fixed _ = false

abbrev pub content_changed : DraftChange → Bool
content_changed c = is_some c.recipient || is_some c.body || is_some c.subject || is_some c.terms

abbrev pub edited : DraftChange → Draft → Draft
edited c d = record d {
  recipient = or_kept c.recipient d.recipient;
  channel = or_kept c.channel d.channel;
  subject = or_kept c.subject d.subject;
  body = or_kept c.body d.body;
  terms = given c.terms <|> d.terms;
  deal_id = or_kept c.deal_id d.deal_id;
  contact_id = or_kept c.contact_id d.contact_id;
  product_claims_version = or_kept c.product_claims_version d.product_claims_version;
}

abbrev pub back_to_draft : Draft → Draft
back_to_draft d = record d { status = DraftStatus.draft; reviewed_at = none; reviewed_by_id = none }

unfoldable pub edit : DraftChange → Draft → Draft
edit c d = if content_changed c then back_to_draft (edited c d) else edited c d

abbrev pub is_outdated : Option ℕ → Draft → Bool
is_outdated none d = false
is_outdated (some v) d = not (v == d.row_version)

abbrev pub update_found : ℕ → ℕ → DraftChange → Tables → Option Draft → Answer
update_found new_id id c t none = (t, fail not_found draft_missing)
update_found new_id id c t (some d) =
    if is_outdated c.expected_version d
    then (t, fail conflict changed_by_other)
    else if is_fixed d.status
    then create_draft_new_version new_id id c t
    else update_draft_row id c (edit c) t

unfoldable pub update_draft : ℕ → ℕ → DraftChange → Tables → Tables → Answer
unfolding create_draft_new_version update_draft_row edit
update_draft new_id id c read t = update_found new_id id c t (find_draft id read)
