-- ===== src/Sales/Drafts/Approval.antt =====
-- Review, approval, sending, cancellation and delivery of a draft: `reviewDraft`, `approveDraft`,
-- `sendDraft`, `cancelDraft` and `deliveredDraft` of
-- backend/src/modules/business/application/sales-service.ts. The tables `read` are those
-- that the reads of an operation find, and `t` those that its write finds.
use oculus_business.Common.{ℕ, Bool, true, false, not, Option, none, some, List, [], if◌then◌else◌}
use oculus_business.Common.Outcome.{Outcome, fail, not_found, conflict}
use oculus_business.Common.Text.{Text, lit}
use oculus_business.Identity.{User}
use oculus_business.Access.{Actor, draft_approve, assert_capability}
use oculus_business.Sales.Pilot.{DraftStatus, assert_draft_sendable}
use oculus_business.Sales.Drafts.{
  Contact, ContactChannel, Draft, Tables, DraftMessage, not_to_approve, sent_stays, not_sent_yet,
  access_refused, send_refused, draft_missing, find_company, find_linked_contact, find_draft,
}
use oculus_business.Sales.Drafts.Content.{Runtime, draft_content_hash}
use oculus_business.Sales.Drafts.Store.{set_draft_status, or_kept}
use oculus_business.Sales.Drafts.Service.{
  Answer, after_check, lift_message, check_recipient, recipient_owner,
}

abbrev pub may_use : List User → Actor → Text → Outcome DraftMessage (Unit {0})
may_use users actor operation =
    lift_message access_refused (assert_capability users actor draft_approve operation false []).0

abbrev pub as_reviewed : ℕ → ℕ → Draft → Draft
as_reviewed now actor_id d = record d {
  status = DraftStatus.reviewed;
  reviewed_at = some now;
  reviewed_by_id = some actor_id;
}

unfoldable pub review_draft : List User → Actor → ℕ → ℕ → Tables → Answer
unfolding assert_capability set_draft_status
review_draft users actor id now t =
    after_check (may_use users actor (lit "draft.review")) t
      (set_draft_status id (as_reviewed now actor.user_id) t)

abbrev pub is_to_approve : DraftStatus → Bool
is_to_approve DraftStatus.draft = true
is_to_approve DraftStatus.reviewed = true
is_to_approve _ = false

abbrev pub as_approved : ℕ → ℕ → (ℕ × ℕ) → Draft → Draft
as_approved now actor_id hash d = record d {
  status = DraftStatus.approved;
  approved_at = some now;
  approved_by_id = some actor_id;
  content_hash = some hash;
}

unfoldable pub approve_found : Runtime → ℕ → ℕ → ℕ → Tables → Option Draft → Answer
unfolding draft_content_hash set_draft_status
approve_found rt actor_id id now t none = (t, fail not_found draft_missing)
approve_found rt actor_id id now t (some d) =
    if not (is_to_approve d.status)
    then (t, fail conflict not_to_approve)
    else set_draft_status id (as_approved now actor_id (draft_content_hash rt d)) t

unfoldable pub approve_draft : Runtime → List User → Actor → ℕ → ℕ → Tables → Tables → Answer
unfolding assert_capability approve_found
approve_draft rt users actor id now read t =
    after_check (may_use users actor (lit "draft.approve")) t
      (approve_found rt actor.user_id id now t (find_draft id read))

-- What `sendDraft` is given.
pub record SendInput : Type 0 where
  pub sent_at : Option ℕ
  pub external_message_id : Option Text

abbrev pub as_sent : ℕ → ℕ → SendInput → Draft → Draft
as_sent now actor_id i d = record d {
  status = DraftStatus.sent;
  sent_at = some (or_kept i.sent_at now);
  sent_by_id = some actor_id;
  external_message_id = i.external_message_id;
}

-- The contact that a draft names, and the channel that its recipient belongs to.
abbrev pub linked_contact : Draft → Tables → Option Contact
linked_contact d t = find_linked_contact d.contact_id t

abbrev pub draft_owner : Runtime → Draft → Tables → Option ContactChannel
draft_owner rt d t = recipient_owner rt d.company_id d.channel d.recipient t

abbrev pub send_found : Runtime → ℕ → ℕ → ℕ → SendInput → Tables → Tables → Option Draft → Answer
send_found rt actor_id id now i read t none = (t, fail not_found draft_missing)
send_found rt actor_id id now i read t (some d) =
    after_check (lift_message send_refused (assert_draft_sendable d.status d.recipient)) t (
      after_check
        (check_recipient (find_company d.company_id read) (linked_contact d read)
          (draft_owner rt d read) read)
        t (set_draft_status id (as_sent now actor_id i) t))

unfoldable pub send_draft :
    Runtime → List User → Actor → ℕ → ℕ → SendInput → Tables → Tables → Answer
unfolding assert_capability assert_draft_sendable check_recipient recipient_owner set_draft_status
send_draft rt users actor id now i read t =
    after_check (may_use users actor (lit "draft.send")) t
      (send_found rt actor.user_id id now i read t (find_draft id read))

abbrev pub is_sent : DraftStatus → Bool
is_sent DraftStatus.sent = true
is_sent _ = false

abbrev pub as_cancelled : ℕ → Text → Draft → Draft
as_cancelled now reason d = record d {
  status = DraftStatus.cancelled;
  cancelled_at = some now;
  cancel_reason = some reason;
}

abbrev pub cancel_found : ℕ → ℕ → Text → Tables → Option Draft → Answer
cancel_found id now reason t none = (t, fail not_found draft_missing)
cancel_found id now reason t (some d) =
    if is_sent d.status
    then (t, fail conflict sent_stays)
    else set_draft_status id (as_cancelled now reason) t

unfoldable pub cancel_draft : ℕ → ℕ → Text → Tables → Tables → Answer
unfolding set_draft_status
cancel_draft id now reason read t = cancel_found id now reason t (find_draft id read)

abbrev pub was_sent : DraftStatus → Bool
was_sent DraftStatus.sent = true
was_sent DraftStatus.delivered = true
was_sent _ = false

abbrev pub as_delivered : ℕ → Text → Draft → Draft
as_delivered at proof d = record d {
  status = DraftStatus.delivered;
  delivered_at = some at;
  delivery_proof = some proof;
}

abbrev pub deliver_found : ℕ → ℕ → Text → Tables → Option Draft → Answer
deliver_found id at proof t none = (t, fail not_found draft_missing)
deliver_found id at proof t (some d) =
    if not (was_sent d.status)
    then (t, fail conflict not_sent_yet)
    else set_draft_status id (as_delivered at proof) t

-- `deliveredDraft`.
unfoldable pub delivered_draft :
    List User → Actor → ℕ → ℕ → Option ℕ → Text → Tables → Tables → Answer
unfolding assert_capability set_draft_status
delivered_draft users actor id now delivered_at proof read t =
    after_check (may_use users actor (lit "draft.delivered")) t
      (deliver_found id (or_kept delivered_at now) proof t (find_draft id read))
