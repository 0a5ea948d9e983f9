-- ===== src/Sales/Drafts/Steps.antt =====
-- Drafts under all their operations, by any users and in any order
-- (backend/src/modules/business).
use oculus_business.Common.{ℕ, ◌≡◌, Option, List, []}
use oculus_business.Common.Outcome.{Outcome}
use oculus_business.Common.Text.{Text}
use oculus_business.Identity.{User}
use oculus_business.Access.{Actor}
use oculus_business.Sales.Contact.{DncScope}
use oculus_business.Sales.Drafts.{Tables, find_draft}
use oculus_business.Sales.Drafts.Content.{Runtime}
use oculus_business.Sales.Drafts.Store.{DraftInput, DraftChange}
use oculus_business.Sales.Drafts.Service.{create_draft, update_draft}
use oculus_business.Sales.Drafts.Approval.{
  review_draft, approve_draft, SendInput, send_draft, cancel_draft, delivered_draft,
}
use oculus_business.Sales.Drafts.Bans.{
  set_company_dnc, set_contact_dnc, lift_company_dnc, lift_contact_dnc,
}
use oculus_business.Sales.Drafts.Faithful.{IsNewId}

-- One write of an operation, with the tables as its reads found them; another part of the program may
-- change the other tables. Where an operation writes what it read of its draft, the draft is still as
-- it was read.
pub data Step (rt : Runtime) (t : Tables) : Tables → Type 0 where
  creates :
      (id new_group actor_id : ℕ) (i : DraftInput) (read : Tables)
      → IsNewId id t
      → Step rt t (create_draft rt id new_group actor_id i read t).0
  edits :
      (new_id id : ℕ) (c : DraftChange) (read : Tables)
      → IsNewId new_id t
      → Step rt t (update_draft new_id id c read t).0
  reviews :
      (users : List User) (actor : Actor) (id now : ℕ)
      → Step rt t (review_draft users actor id now t).0
  approves :
      (users : List User) (actor : Actor) (id now : ℕ) (read : Tables)
      → find_draft id t ≡ find_draft id read
      → Step rt t (approve_draft rt users actor id now read t).0
  sends :
      (users : List User) (actor : Actor) (id now : ℕ) (i : SendInput) (read : Tables)
      → find_draft id t ≡ find_draft id read
      → Step rt t (send_draft rt users actor id now i read t).0
  cancels :
      (id now : ℕ) (reason : Text) (read : Tables) → Step rt t (cancel_draft id now reason read t).0
  delivers :
      (users : List User) (actor : Actor) (id now : ℕ) (at : Option ℕ) (proof : Text)
      (read : Tables)
      → find_draft id t ≡ find_draft id read
      → Step rt t (delivered_draft users actor id now at proof read t).0
  bans_company :
      (id : ℕ) (scope : DncScope) (reason : Text) → Step rt t (set_company_dnc id scope reason t).0
  bans_contact :
      (id : ℕ) (scope : DncScope) (reason : Text) → Step rt t (set_contact_dnc id scope reason t).0
  frees_company :
      (actor : Actor) (id : ℕ) (reason : Text) → Step rt t (lift_company_dnc actor id reason t).0
  frees_contact :
      (actor : Actor) (id : ℕ) (reason : Text) → Step rt t (lift_contact_dnc actor id reason t).0
  changes_others : (t' : Tables) → t'.drafts ≡ t.drafts → Step rt t t'

pub data Reach (rt : Runtime) : Tables → Type 0 where
  start : (t : Tables) → t.drafts ≡ [] → Reach rt t
  next : {t t' : Tables} → Reach rt t → Step rt t t' → Reach rt t'
