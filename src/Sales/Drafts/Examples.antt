-- ===== src/Sales/Drafts/Examples.antt =====
-- Tests of drafts, and the theorems at one draft.
use oculus_business.Common.{ℕ, ◌≡◌, refl, true, false, Option, none, some, [], ◌∷◌, ◌++◌, map, Bool}
use oculus_business.Common.Outcome.{fail, forbidden, is_ok}
use oculus_business.Common.Text.{Text, lit, is_blank}
use oculus_business.Identity.{user}
use oculus_business.Access.{Actor}
use oculus_business.Sales.Contact.{DncState, all_touches, other_scope, draft_blocked}
use oculus_business.Sales.Pilot.{DraftStatus, is_approved}
use oculus_business.Sales.Drafts.{Draft, Tables, phone, telegram, touch_banned, find_company}
use oculus_business.Sales.Drafts.Content.{Runtime, normalize_recipient, draft_content_hash}
use oculus_business.Sales.Drafts.Store.{DraftInput, DraftChange}
use oculus_business.Sales.Drafts.Service.{
  recipient_owner, create_draft, update_draft, owner_contact,
}
use oculus_business.Sales.Drafts.Approval.{
  approve_draft, SendInput, send_draft, linked_contact, draft_owner,
}
use oculus_business.Sales.Drafts.Send.{bans_drafts, send_draft-IsAllowed}

abbrev plain : Runtime
plain = record {
  to_lower_case = λ s. s;
  stringify = λ recipient subject body terms. recipient ++ body;
}

abbrev no_ban : DncState
no_ban = record { do_not_contact = false; dnc_scope = other_scope; dnc_reason = none }

abbrev at_first : Tables
at_first = record {
  companies = record { id = 1; dnc = no_ban } ∷ [];
  contacts =
      record { id = 5; company_id = 1; dnc = no_ban }
      ∷ record { id = 6; company_id = 1; dnc = no_ban }
      ∷ [];
  channels = record { contact_id = 5; kind = phone; value = lit "+79" } ∷ [];
  deals = [];
  drafts = [];
}

abbrev offer : DraftInput
offer = record {
  group_id = none;
  deal_id = none;
  company_id = 1;
  contact_id = none;
  channel = phone;
  recipient = lit "+7 9";
  subject = none;
  body = lit "hi";
  terms = some (lit "T");
  product_claims_version = none;
  external_id = none;
}

abbrev person : Actor
person = record { user_id = 3; role = user; run_id = none }

abbrev unsent : SendInput
unsent = record { sent_at = none; external_message_id = none }

abbrev created : Tables
created = (create_draft plain 10 20 3 offer at_first at_first).0

abbrev approved : Tables
approved = (approve_draft plain [] person 10 50 created created).0

abbrev sent : Tables
sent = (send_draft plain [] person 10 60 unsent approved approved).0

phone_is_digits : normalize_recipient plain phone (lit " +7 (9)") ≡ lit "+79"
unfolding normalize_recipient
phone_is_digits = refl

telegram_gets_at : normalize_recipient plain telegram (lit "bob") ≡ lit "@bob"
unfolding normalize_recipient
telegram_gets_at = refl

-- The contact who owns the address must not be contacted.
abbrev banned_table : Tables
banned_table = record approved {
  contacts =
      record {
        id = 5;
        company_id = 1;
        dnc = record { do_not_contact = true; dnc_scope = all_touches; dnc_reason = none };
      }
      ∷ [];
}

-- An owner of the address who must not be contacted stops the sending, though the draft names no one.
banned_owner :
    (send_draft plain [] person 10 60 unsent banned_table banned_table).1
    ≡ fail forbidden (touch_banned draft_blocked)
unfolding send_draft approve_draft create_draft is_blank
banned_owner = refl

-- A channel whose value was stored as it was typed is not found by the normalized recipient.
abbrev typed_value : Tables
typed_value = record at_first {
  channels = record { contact_id = 5; kind = phone; value = lit "+7 9" } ∷ [];
}

typed_value_missed : recipient_owner plain 1 phone (lit "+7 9") typed_value ≡ none
unfolding recipient_owner
typed_value_missed = refl

abbrev new_body : DraftChange
new_body = record {
  recipient = none;
  channel = none;
  subject = none;
  body = some (lit "ho");
  terms = none;
  deal_id = none;
  contact_id = none;
  product_claims_version = none;
  expected_version = none;
}

-- A new version of an approved draft has no terms.
terms_lost :
    map {B = ℕ × ℕ × Option Text}
      (λ (d : Draft). (d.id, d.version, d.terms))
      (update_draft 11 10 new_body approved approved).0.drafts
    ≡ (11, 2, none) ∷ (10, 1, some (lit "T")) ∷ []
unfolding update_draft approve_draft create_draft
terms_lost = refl

abbrev sent_draft : Draft
sent_draft = record {
  id = 10;
  group_id = 20;
  version = 1;
  deal_id = none;
  company_id = 1;
  contact_id = none;
  channel = phone;
  recipient = lit "+7 9";
  subject = none;
  body = lit "hi";
  terms = some (lit "T");
  product_claims_version = none;
  status = DraftStatus.approved;
  created_by_id = 3;
  reviewed_by_id = none;
  reviewed_at = none;
  approved_by_id = some 3;
  approved_at = some 50;
  content_hash = some (1, 6);
  sent_at = none;
  sent_by_id = none;
  external_message_id = none;
  cancelled_at = none;
  cancel_reason = none;
  delivered_at = none;
  delivery_proof = none;
  hold_reason = none;
  external_id = none;
  row_version = 2;
}

abbrev with_draft : Tables
with_draft = record at_first { drafts = sent_draft ∷ [] }

send_draft-IsAllowed_example :
    (is_approved sent_draft.status ≡ true)
    × (is_blank sent_draft.recipient ≡ false)
    × (bans_drafts (find_company 1 with_draft) (linked_contact sent_draft with_draft) ≡ false)
    × (bans_drafts
          (find_company 1 with_draft)
          (owner_contact (draft_owner plain sent_draft with_draft) with_draft)
        ≡ false)
unfolding send_draft is_blank
send_draft-IsAllowed_example =
    send_draft-IsAllowed plain [] person 10 60 unsent with_draft with_draft sent_draft refl refl

sent_once : map (λ (d : Draft). d.sent_at) sent.drafts ≡ some 60 ∷ []
unfolding send_draft approve_draft create_draft is_blank
sent_once = refl

-- An edit comes between the read and the write of an approval: the version is approved with the new
-- body and the hash of the old one.
abbrev raced : Tables
raced =
    (approve_draft plain [] person 10 50 created (update_draft 11 10 new_body created created).0).0

raced_unfaithful :
    map {B = Bool × Text × Option (ℕ × ℕ)}
      (λ (d : Draft). (is_approved d.status, d.body, d.content_hash))
      raced.drafts
    ≡ (true, lit "ho", some (draft_content_hash plain sent_draft)) ∷ []
unfolding update_draft approve_draft create_draft draft_content_hash
raced_unfaithful = refl

-- A ban that is set after the reads of a sending does not stop its write.
ban_too_late : is_ok (send_draft plain [] person 10 60 unsent approved banned_table).1 ≡ true
unfolding send_draft approve_draft create_draft is_blank
ban_too_late = refl
