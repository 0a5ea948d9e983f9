-- ===== src/Sales/Drafts.antt =====
-- Drafts of offers: the tables of backend/prisma/schema.prisma that they touch, and the lookups of
-- backend/src/modules/business/infrastructure/sales-repository.ts.
-- A row stands for its DTO; the names that the DTO adds and the `evidence` column, which no rule
-- reads, are left out. Terms are their JSON text. New identifiers and the clock are arguments.
pub mod Content
pub mod Store
pub mod Service
pub mod Approval
pub mod Bans
pub mod Send
pub mod Faithful
pub mod Kept
pub mod Steps
mod Examples
use oculus_business.Common.{
  ℕ, zero, suc, ◌+◌, ◌-◌, ◌*◌, ◌≤◌, ◌<◌, ◌≡◌, refl, sym, ap, ◌∙◌, ◌≢◌, ◌↔◌, ◌⊎◌, inl, inr, Bool,
  true, false, not, ◌&&◌, ◌||◌, Option, none, some, List, [], ◌∷◌, ◌++◌, arith, ltb, leb, ◌==◌,
  if◌then◌else◌, ==_iff, Bool-cases, Option-cases, is_some, find, filter, any, All, Has, max,
}
use oculus_business.Common.Outcome.{Outcome, ok, fail, not_found, conflict}
use oculus_business.Common.Text.{Text, text_eq}
use oculus_business.Sales.Contact.{DncState, DncScope, TouchKind, BanMessage}
use oculus_business.Sales.Pilot.{DraftStatus, SendMessage}
use oculus_business.Access.{AccessMessage}

pub data ChannelKind : Type 0 where
  email phone telegram other_channel : ChannelKind

abbrev pub same_channel : ChannelKind → ChannelKind → Bool
same_channel email email = true
same_channel phone phone = true
same_channel telegram telegram = true
same_channel other_channel other_channel = true
same_channel _ _ = false

pub record Company : Type 0 where
  pub id : ℕ
  pub dnc : DncState

pub record Contact : Type 0 where
  pub id : ℕ
  pub company_id : ℕ
  pub dnc : DncState

pub record ContactChannel : Type 0 where
  pub contact_id : ℕ
  pub kind : ChannelKind
  pub value : Text

pub record DealRow : Type 0 where
  pub id : ℕ
  pub company_id : Option ℕ

-- `ProposalDraft`.
pub record Draft : Type 0 where
  pub id : ℕ
  pub group_id : ℕ
  pub version : ℕ
  pub deal_id : Option ℕ
  pub company_id : ℕ
  pub contact_id : Option ℕ
  pub channel : ChannelKind
  pub recipient : Text
  pub subject : Option Text
  pub body : Text
  pub terms : Option Text
  pub product_claims_version : Option Text
  pub status : DraftStatus
  pub created_by_id : ℕ
  pub reviewed_by_id : Option ℕ
  pub reviewed_at : Option ℕ
  pub approved_by_id : Option ℕ
  pub approved_at : Option ℕ
  pub content_hash : Option (ℕ × ℕ)
  pub sent_at : Option ℕ
  pub sent_by_id : Option ℕ
  pub external_message_id : Option Text
  pub cancelled_at : Option ℕ
  pub cancel_reason : Option Text
  pub delivered_at : Option ℕ
  pub delivery_proof : Option Text
  pub hold_reason : Option (DncScope × Text)
  pub external_id : Option Text
  pub row_version : ℕ

pub record Tables : Type 0 where
  pub companies : List Company
  pub contacts : List Contact
  pub channels : List ContactChannel
  pub deals : List DealRow
  pub drafts : List Draft

pub data DraftMessage : Type 0 where
  company_missing contact_of_other_company recipient_of_other_contact deal_missing : DraftMessage
  deal_of_other_company draft_missing changed_by_other not_to_approve sent_stays : DraftMessage
  not_sent_yet related_missing duplicate_row : DraftMessage
  access_refused : AccessMessage → DraftMessage
  touch_banned : BanMessage → DraftMessage
  send_refused : SendMessage → DraftMessage

abbrev pub find_company : ℕ → Tables → Option Company
find_company id t = find (λ (c : Company). c.id == id) t.companies

abbrev pub find_contact : ℕ → Tables → Option Contact
find_contact id t = find (λ (c : Contact). c.id == id) t.contacts

abbrev pub find_deal : ℕ → Tables → Option DealRow
find_deal id t = find (λ (d : DealRow). d.id == id) t.deals

abbrev pub has_draft_id : ℕ → Draft → Bool
has_draft_id id d = d.id == id

abbrev pub find_draft : ℕ → Tables → Option Draft
find_draft id t = find (has_draft_id id) t.drafts

-- The contact of an identifier that may be missing.
abbrev pub find_linked_contact : Option ℕ → Tables → Option Contact
find_linked_contact none t = none
find_linked_contact (some id) t = find_contact id t

abbrev pub is_in_company : ℕ → Option Contact → Bool
is_in_company company_id none = false
is_in_company company_id (some c) = c.company_id == company_id

-- `findChannelInCompany`.
unfoldable pub find_channel_in_company : ℕ → ChannelKind → Text → Tables → Option ContactChannel
unfolding text_eq
find_channel_in_company company_id kind value t =
    find
      (λ (c : ContactChannel).
        same_channel c.kind kind
        && text_eq c.value value
        && is_in_company company_id (find_contact c.contact_id t))
      t.channels

-- The foreign keys of a draft name rows that exist.
abbrev pub is_given_missing : {A : Type 0} → Option ℕ → Option A → Bool
is_given_missing none row = false
is_given_missing (some id) row = not (is_some row)

abbrev pub find_linked_deal : Option ℕ → Tables → Option DealRow
find_linked_deal none t = none
find_linked_deal (some id) t = find_deal id t

unfoldable pub breaks_link : Option ℕ → Option ℕ → Tables → Bool
breaks_link deal_id contact_id t =
    is_given_missing deal_id (find_linked_deal deal_id t)
    || is_given_missing contact_id (find_linked_contact contact_id t)
