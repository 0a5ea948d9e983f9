-- ===== src/Sales/Drafts/Send.antt =====
-- What a recorded sending has passed (`sendDraft`, backend/src/modules/business/application).
use oculus_business.Common.{
  ℕ, ◌≡◌, refl, sym, ap, Bool, true, false, ◌||◌, Option, none, some, List, arith, ◌==◌, ==_iff,
  ◌<|>◌,
}
use oculus_business.Common.Rows.{find-Has}
use mathlib.Core.Path.{subst}
use oculus_business.Common.Outcome.{Outcome, ok, fail, is_ok}
use oculus_business.Common.Text.{Text, is_blank, lit}
use oculus_business.Identity.{User}
use oculus_business.Access.{Actor}
use oculus_business.Sales.Contact.{TouchKind, scope_covers, assert_commercial_touch_allowed}
use oculus_business.Sales.Pilot.{DraftStatus, is_approved, assert_draft_sendable}
use oculus_business.Sales.Drafts.{
  Company, Contact, ContactChannel, Draft, Tables, DraftMessage, send_refused, find_company,
  find_contact, find_linked_contact, find_draft,
}
use oculus_business.Sales.Drafts.Content.{Runtime}
use oculus_business.Sales.Drafts.Service.{
  Answer, after_check, lift_message, check_recipient, check_ban, company_dnc, contact_dnc,
  owner_contact, owns_other,
}
use oculus_business.Sales.Drafts.Approval.{
  may_use, SendInput, send_draft, send_found, linked_contact, draft_owner,
}

abbrev pub bans_drafts : Option Company → Option Contact → Bool
bans_drafts company contact =
    scope_covers (company_dnc company) TouchKind.draft
    || scope_covers (contact_dnc contact) TouchKind.draft

after_check_ok :
    (c : Outcome DraftMessage (Unit {0})) (t : Tables) (a : Answer)
    → is_ok (after_check c t a).1 ≡ true
    → (is_ok c ≡ true) × (is_ok a.1 ≡ true)
after_check_ok (ok u) t a h = (refl, h)
after_check_ok (fail k m) t a h = cc

lift_message_ok :
    {M : Type 0} (f : M → DraftMessage) (c : Outcome M (Unit {0}))
    → is_ok (lift_message f c) ≡ true
    → is_ok c ≡ true
lift_message_ok f (ok u) h = refl
lift_message_ok f (fail k m) h = cc

check_ban_ok :
    (company : Option Company) (contact : Option Contact)
    → is_ok (check_ban company contact) ≡ true
    → bans_drafts company contact ≡ false
unfolding assert_commercial_touch_allowed
check_ban_ok company contact h = ground arith

-- A contact that was found by its identifier is found again.
find_linked_again :
    (o : Option ℕ) (c : Contact) (t : Tables)
    → find_linked_contact o t ≡ some c
    → find_contact c.id t ≡ some c
find_linked_again none c t e = cc
find_linked_again (some id) c t e =
    let same = (==_iff c.id id).0 (find-Has (λ (x : Contact). x.id == id) c t.contacts e).1 in
    subst (λ n. find_contact n t ≡ some c) (sym same) e

check_recipient_passed :
    (company : Option Company) (contact : Option Contact) (owner : Option ContactChannel)
    (t : Tables)
    → is_ok (check_recipient company contact owner t) ≡ true
    → (owns_other owner contact ≡ false)
      × (is_ok (check_ban company (contact <|> owner_contact owner t)) ≡ true)
unfolding check_recipient
check_recipient_passed company contact owner t h = ground arith

-- The contact that is checked is the one that is named, and the one that the address belongs to.
bans_drafts_either :
    (company : Option Company) (contact : Option Contact) (owner : Option ContactChannel)
    (t : Tables)
    → ((c : Contact) → contact ≡ some c → find_contact c.id t ≡ some c)
    → owns_other owner contact ≡ false
    → bans_drafts company (contact <|> owner_contact owner t) ≡ false
    → (bans_drafts company contact ≡ false) × (bans_drafts company (owner_contact owner t) ≡ false)
unfolding scope_covers
bans_drafts_either company none owner t again same free = (ground arith, free)
bans_drafts_either company (some c) none t again same free = (free, ground arith)
bans_drafts_either company (some c) (some o) t again same free =
    let e = (==_iff o.contact_id c.id).0 (ground arith) in
    let found = subst (λ n. find_contact n t ≡ some c) (sym e) (again c refl) in
    (free, subst (λ x. bans_drafts company x ≡ false) (sym found) free)

check_recipient_ok :
    (company : Option Company) (contact : Option Contact) (owner : Option ContactChannel)
    (t : Tables)
    → ((c : Contact) → contact ≡ some c → find_contact c.id t ≡ some c)
    → is_ok (check_recipient company contact owner t) ≡ true
    → (bans_drafts company contact ≡ false) × (bans_drafts company (owner_contact owner t) ≡ false)
check_recipient_ok company contact owner t again h =
    let (same, passed) = check_recipient_passed company contact owner t h in
    bans_drafts_either company contact owner t again same
      (check_ban_ok company (contact <|> owner_contact owner t) passed)

assert_draft_sendable_ok :
    (s : DraftStatus) (r : Text)
    → is_ok (assert_draft_sendable s r) ≡ true
    → (is_approved s ≡ true) × (is_blank r ≡ false)
unfolding assert_draft_sendable
assert_draft_sendable_ok s r h = ground arith

send_draft_step :
    (rt : Runtime) (users : List User) (actor : Actor) (id now : ℕ) (i : SendInput)
    (read t : Tables) (d : Draft)
    → find_draft id read ≡ some d
    → send_draft rt users actor id now i read t
      ≡ after_check
          (may_use users actor (lit "draft.send"))
          t
          (send_found rt actor.user_id id now i read t (some d))
unfolding send_draft
send_draft_step rt users actor id now i read t d e =
    ap
      (λ o.
        after_check (may_use users actor (lit "draft.send")) t
          (send_found rt actor.user_id id now i read t o))
      e

-- A sending is recorded only of a version that, in the tables as the operation read them, was
-- approved and had a recipient, where neither the company nor the contact that the draft names banned
-- drafts, nor the contact of the first channel of the company whose stored value is the recipient as
-- it is normalized. What was written between those reads and the write is not looked at, nor is a
-- channel whose value was stored otherwise, nor a second channel.
pub send_draft-IsAllowed :
    (rt : Runtime) (users : List User) (actor : Actor) (id now : ℕ) (i : SendInput)
    (read t : Tables) (d : Draft)
    → find_draft id read ≡ some d
    → is_ok (send_draft rt users actor id now i read t).1 ≡ true
    → (is_approved d.status ≡ true)
      × (is_blank d.recipient ≡ false)
      × (bans_drafts (find_company d.company_id read) (linked_contact d read) ≡ false)
      × (bans_drafts (find_company d.company_id read) (owner_contact (draft_owner rt d read) read)
          ≡ false)
send_draft-IsAllowed rt users actor id now i read t d e h =
    let step = send_draft_step rt users actor id now i read t d e in
    let found = after_check_ok _ t _ (subst (λ (a : Answer). is_ok a.1 ≡ true) step h) in
    let sendable = after_check_ok _ t _ found.1 in
    let reached = after_check_ok _ t _ sendable.1 in
    let fit =
      assert_draft_sendable_ok d.status d.recipient (lift_message_ok send_refused _ sendable.0) in
    let free =
      check_recipient_ok (find_company d.company_id read) (linked_contact d read)
        (draft_owner rt d read) read (λ c. find_linked_again d.contact_id c read) reached.0 in
    (fit.0, fit.1, free.0, free.1)
