-- ===== src/Sales/Drafts/Kept.antt =====
-- Review, approval, sending, cancellation and delivery keep an approved version as approved
-- (backend/src/modules/business/application/sales-service.ts).
use mathlib.Core.Option.{some_inj}
use oculus_business.Common.{
  ℕ, ◌≡◌, refl, sym, ◌∙◌, inl, inr, true, false, Option, none, some, List, arith, Bool-cases,
}
use mathlib.Core.Path.{subst}
use oculus_business.Common.Text.{Text, lit}
use oculus_business.Identity.{User}
use oculus_business.Access.{Actor}
use oculus_business.Sales.Pilot.{DraftStatus, is_approved, assert_draft_sendable}
use oculus_business.Sales.Drafts.{Draft, Tables, find_draft, find_company, send_refused}
use oculus_business.Sales.Drafts.Content.{Runtime, draft_content_hash}
use oculus_business.Sales.Drafts.Store.{set_draft_status, or_kept}
use oculus_business.Sales.Drafts.Service.{Answer, after_check, check_recipient, lift_message}
use oculus_business.Sales.Drafts.Approval.{
  review_draft, as_reviewed, approve_draft, approve_found, as_approved, SendInput, send_draft,
  send_found, as_sent, as_cancelled, delivered_draft, deliver_found, as_delivered, cancel_found,
  is_sent, was_sent, is_to_approve, may_use, linked_contact, draft_owner,
}
use oculus_business.Sales.Drafts.Faithful.{
  was_approved, IsAsApproved, IsFaithful, set_draft_status-IsFaithful, after_check-IsFaithful,
}

approved_was : (s : DraftStatus) → is_approved s ≡ true → was_approved s ≡ true
approved_was DraftStatus.approved h = refl
approved_was s h = ground arith

sent_was : (s : DraftStatus) → was_sent s ≡ true → was_approved s ≡ true
sent_was DraftStatus.sent h = refl
sent_was DraftStatus.delivered h = refl
sent_was s h = ground arith

-- The row that the patch meets is the row that was checked.
module _ (rt : Runtime) (id : ℕ) (t : Tables) (d : Draft) where
  patch_checked :
      (f : Draft → Draft)
      → find_draft id t ≡ some d
      → ((x : Draft) → (f x).id ≡ x.id)
      → (IsAsApproved rt d → IsAsApproved rt (f d))
      → IsFaithful rt t
      → IsFaithful rt (set_draft_status id f t).0
  patch_checked f e same step h =
      set_draft_status-IsFaithful rt id f t same
        (λ x k.
          subst (λ y. IsAsApproved rt y → IsAsApproved rt (f y)) (some_inj.0 (sym e ∙ k)) step)
        h

  approve-IsFaithful :
      (a now : ℕ)
      → find_draft id t ≡ some d
      → IsFaithful rt t
      → IsFaithful rt (set_draft_status id (as_approved now a (draft_content_hash rt d)) t).0
  unfolding draft_content_hash
  approve-IsFaithful a now e h =
      patch_checked (as_approved now a (draft_content_hash rt d)) e (λ x. refl) (λ k q. refl) h

  send-IsFaithful :
      (a now : ℕ) (i : SendInput)
      → find_draft id t ≡ some d
      → is_approved d.status ≡ true
      → IsFaithful rt t
      → IsFaithful rt (set_draft_status id (as_sent now a i) t).0
  unfolding draft_content_hash
  send-IsFaithful a now i e ready h =
      patch_checked (as_sent now a i) e (λ x. refl) (λ k q. k (approved_was d.status ready)) h

  deliver-IsFaithful :
      (at : ℕ) (proof : Text)
      → find_draft id t ≡ some d
      → was_sent d.status ≡ true
      → IsFaithful rt t
      → IsFaithful rt (set_draft_status id (as_delivered at proof) t).0
  unfolding draft_content_hash
  deliver-IsFaithful at proof e ready h =
      patch_checked (as_delivered at proof) e (λ x. refl) (λ k q. k (sent_was d.status ready)) h

unapproved_fails :
    (s : DraftStatus) (r : Text) (t : Tables) (a : Answer)
    → is_approved s ≡ false
    → (after_check (lift_message send_refused (assert_draft_sendable s r)) t a).0 ≡ t
unfolding assert_draft_sendable
unapproved_fails s r t a e = rw e refl

send_found-IsFaithful :
    (rt : Runtime) (actor_id id now : ℕ) (i : SendInput) (read t : Tables) (o : Option Draft)
    → find_draft id t ≡ o
    → IsFaithful rt t
    → IsFaithful rt (send_found rt actor_id id now i read t o).0
send_found-IsFaithful rt a id now i read t none e h = h
send_found-IsFaithful rt a id now i read t (some d) e h = elim (Bool-cases (is_approved d.status)) [
  | inl k ↦
      after_check-IsFaithful rt
        (lift_message send_refused (assert_draft_sendable d.status d.recipient)) t _ h
        (after_check-IsFaithful rt
          (check_recipient (find_company d.company_id read) (linked_contact d read)
            (draft_owner rt d read) read)
          t _ h (send-IsFaithful rt id t d a now i e k h))
  | inr k ↦ subst (IsFaithful rt) (sym (unapproved_fails d.status d.recipient t _ k)) h
]

approve_found-IsFaithful :
    (rt : Runtime) (actor_id id now : ℕ) (t : Tables) (o : Option Draft)
    → find_draft id t ≡ o
    → IsFaithful rt t
    → IsFaithful rt (approve_found rt actor_id id now t o).0
unfolding approve_found
approve_found-IsFaithful rt a id now t none e h = h
approve_found-IsFaithful rt a id now t (some d) e h = elim (Bool-cases (is_to_approve d.status)) [
  | inl k ↦ rw k (approve-IsFaithful rt id t d a now e h)
  | inr k ↦ rw k h
]

pub cancel_found-IsFaithful :
    (rt : Runtime) (id now : ℕ) (reason : Text) (t : Tables) (o : Option Draft)
    → IsFaithful rt t
    → IsFaithful rt (cancel_found id now reason t o).0
cancel_found-IsFaithful rt id now reason t none h = h
cancel_found-IsFaithful rt id now reason t (some d) h =
    let set =
      set_draft_status-IsFaithful rt id (as_cancelled now reason) t (λ x. refl) (λ x e k q. cc) h in
    elim (Bool-cases (is_sent d.status)) [ inl e ↦ rw e h | inr e ↦ rw e set ]

deliver_found-IsFaithful :
    (rt : Runtime) (id at : ℕ) (proof : Text) (t : Tables) (o : Option Draft)
    → find_draft id t ≡ o
    → IsFaithful rt t
    → IsFaithful rt (deliver_found id at proof t o).0
deliver_found-IsFaithful rt id at proof t none e h = h
deliver_found-IsFaithful rt id at proof t (some d) e h = elim (Bool-cases (was_sent d.status)) [
  | inl k ↦ rw k (deliver-IsFaithful rt id t d at proof e k h)
  | inr k ↦ rw k h
]

pub reviewed-IsFaithful :
    (rt : Runtime) (users : List User) (actor : Actor) (id now : ℕ) (t : Tables)
    → IsFaithful rt t
    → IsFaithful rt (review_draft users actor id now t).0
unfolding review_draft
reviewed-IsFaithful rt users actor id now t h =
    after_check-IsFaithful rt (may_use users actor (lit "draft.review")) t _ h (
      set_draft_status-IsFaithful rt id (as_reviewed now actor.user_id) t (λ x. refl)
        (λ x e k q. cc) h)

pub approved-IsFaithful :
    (rt : Runtime) (users : List User) (actor : Actor) (id now : ℕ) (read t : Tables)
    → find_draft id t ≡ find_draft id read
    → IsFaithful rt t
    → IsFaithful rt (approve_draft rt users actor id now read t).0
unfolding approve_draft
approved-IsFaithful rt users actor id now read t e h =
    after_check-IsFaithful rt (may_use users actor (lit "draft.approve")) t _ h
      (approve_found-IsFaithful rt actor.user_id id now t _ e h)

pub sent-IsFaithful :
    (rt : Runtime) (users : List User) (actor : Actor) (id now : ℕ) (i : SendInput)
    (read t : Tables)
    → find_draft id t ≡ find_draft id read
    → IsFaithful rt t
    → IsFaithful rt (send_draft rt users actor id now i read t).0
unfolding send_draft
sent-IsFaithful rt users actor id now i read t e h =
    after_check-IsFaithful rt (may_use users actor (lit "draft.send")) t _ h
      (send_found-IsFaithful rt actor.user_id id now i read t _ e h)

pub delivered-IsFaithful :
    (rt : Runtime) (users : List User) (actor : Actor) (id now : ℕ) (at : Option ℕ) (proof : Text)
    (read t : Tables)
    → find_draft id t ≡ find_draft id read
    → IsFaithful rt t
    → IsFaithful rt (delivered_draft users actor id now at proof read t).0
unfolding delivered_draft
delivered-IsFaithful rt users actor id now at proof read t e h =
    after_check-IsFaithful rt (may_use users actor (lit "draft.delivered")) t _ h
      (deliver_found-IsFaithful rt id (or_kept at now) proof t _ e h)
