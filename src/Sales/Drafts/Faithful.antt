-- ===== src/Sales/Drafts/Faithful.antt =====
-- An approved version says what was approved: kept by the statements on drafts
-- (backend/src/modules/business).
use oculus_business.Common.{
  ℕ, ◌≡◌, refl, sym, ap, ◌∙◌, ◌≢◌, inl, inr, Bool, true, false, Option, none, some, arith, ==_iff,
  Bool-cases, is_some, All, ◌<|>◌,
}
use oculus_business.Common.Rows.{
  UniqueBy, All-update_many_imp, All-update_found, UniqueBy-update_many,
}
use oculus_business.Common.Outcome.{Outcome, ok, fail}
use oculus_business.Common.Text.{Text}
use oculus_business.Sales.Pilot.{DraftStatus}
use oculus_business.Sales.Drafts.{
  Draft, Tables, DraftMessage, has_draft_id, find_draft, Company, find_linked_contact,
}
use oculus_business.Sales.Drafts.Content.{Runtime, draft_content_hash}
use oculus_business.Sales.Drafts.Store.{
  DraftInput, DraftChange, insert_draft, set_draft_status, patch_drafts, patch_found,
  next_row_version, update_draft_row, create_draft_new_version, or_kept, given, add_draft,
  new_draft, next_version, insert_version,
}
use oculus_business.Sales.Drafts.Service.{
  Answer, after_check, create_for, update_found, edit, content_changed, edited, check_recipient,
  recipient_owner, check_deal, is_of_other_company,
}

abbrev pub was_approved : DraftStatus → Bool
was_approved DraftStatus.approved = true
was_approved DraftStatus.sent = true
was_approved DraftStatus.delivered = true
was_approved _ = false

-- What an approved version says is what was approved.
abbrev pub IsAsApproved : Runtime → Draft → Type 0
IsAsApproved rt d = was_approved d.status ≡ true → d.content_hash ≡ some (draft_content_hash rt d)

abbrev pub draft_id : Draft → ℕ
draft_id d = d.id

abbrev pub IsFaithful : Runtime → Tables → Type 0
IsFaithful rt t = UniqueBy draft_id t.drafts × All (IsAsApproved rt) t.drafts

-- An identifier that no draft has yet.
abbrev pub IsNewId : ℕ → Tables → Type 0
IsNewId id t = All (λ (d : Draft). d.id ≢ id) t.drafts

pub after_check-IsFaithful :
    (rt : Runtime) (c : Outcome DraftMessage (Unit {0})) (t : Tables) (a : Answer)
    → IsFaithful rt t
    → IsFaithful rt a.0
    → IsFaithful rt (after_check c t a).0
after_check-IsFaithful rt (ok u) t a before after = after
after_check-IsFaithful rt (fail k m) t a before after = before

-- A patch of the draft of an identifier that keeps its identifier, and keeps it as approved.
patch_found-IsFaithful :
    (rt : Runtime) (id : ℕ) (f : Draft → Draft) (t : Tables) (o : Option Draft)
    → find_draft id t ≡ o
    → ((d : Draft) → (f d).id ≡ d.id)
    → ((d : Draft) → o ≡ some d → IsAsApproved rt d → IsAsApproved rt (f d))
    → IsFaithful rt t
    → IsFaithful rt (patch_found id f t o).0
unfolding patch_drafts draft_content_hash
patch_found-IsFaithful rt id f t none e same step faithful = faithful
patch_found-IsFaithful rt id f t (some d) e same step (u, all) = (
  UniqueBy-update_many draft_id (has_draft_id id) (next_row_version f) t.drafts same u,
  All-update_found draft_id (has_draft_id id) (next_row_version f) (IsAsApproved rt) d t.drafts u e
      (λ y z h k. (==_iff z.id id).0 k ∙ sym ((==_iff y.id id).0 h)) (step d refl) all,
)

pub patch_drafts-IsFaithful :
    (rt : Runtime) (p : Draft → Bool) (f : Draft → Draft) (t : Tables)
    → ((d : Draft) → (f d).id ≡ d.id)
    → ((d : Draft) → IsAsApproved rt (f d))
    → IsFaithful rt t
    → IsFaithful rt (patch_drafts p f t)
unfolding patch_drafts
patch_drafts-IsFaithful rt p f t same step (u, all) = (
  UniqueBy-update_many draft_id p f t.drafts same u,
  All-update_many_imp p f (IsAsApproved rt) (IsAsApproved rt) t.drafts (λ d h e. step d)
      (λ d h e. h) all,
)

pub set_draft_status-IsFaithful :
    (rt : Runtime) (id : ℕ) (f : Draft → Draft) (t : Tables)
    → ((d : Draft) → (f d).id ≡ d.id)
    → ((d : Draft) → find_draft id t ≡ some d → IsAsApproved rt d → IsAsApproved rt (f d))
    → IsFaithful rt t
    → IsFaithful rt (set_draft_status id f t).0
unfolding set_draft_status
set_draft_status-IsFaithful rt id f t same step faithful =
    patch_found-IsFaithful rt id f t (find_draft id t) refl same step faithful

or_kept_none : {A : Type 0} (o : Option A) (a : A) → is_some o ≡ false → or_kept o a ≡ a
or_kept_none none a h = refl
or_kept_none (some b) a h = cc

terms_kept : (o : Option (Option Text)) (a : Option Text) → is_some o ≡ false → (given o <|> a) ≡ a
terms_kept none a h = refl
terms_kept (some b) a h = cc

-- An edit of nothing that is hashed keeps the hash.
edited_same_hash :
    (rt : Runtime) (c : DraftChange) (d : Draft)
    → content_changed c ≡ false
    → draft_content_hash rt (edited c d) ≡ draft_content_hash rt d
unfolding draft_content_hash
edited_same_hash rt c d h =
    rw
      (
        or_kept_none c.recipient d.recipient (ground arith),
        or_kept_none c.body d.body (ground arith),
        or_kept_none c.subject d.subject (ground arith),
        terms_kept c.terms d.terms (ground arith),
      )
      refl

edit_keeps :
    (rt : Runtime) (c : DraftChange) (d : Draft) → IsAsApproved rt d → IsAsApproved rt (edit c d)
unfolding edit
edit_keeps rt c d h = elim (Bool-cases (content_changed c)) [
  | inl e ↦ rw e (λ q. cc)
  | inr e ↦ rw e (λ q. h q ∙ ap some (sym (edited_same_hash rt c d e)))
]

edit_id : (c : DraftChange) (d : Draft) → (edit c d).id ≡ d.id
unfolding edit
edit_id c d = ground arith

add_draft-IsFaithful :
    (rt : Runtime) (d : Draft) (t : Tables)
    → IsNewId d.id t
    → IsAsApproved rt d
    → IsFaithful rt t
    → IsFaithful rt (add_draft d t)
add_draft-IsFaithful rt d t new own (u, all) = ((new, u), (own, all))

insert_draft-IsFaithful :
    (rt : Runtime) (id g a : ℕ) (i : DraftInput) (t : Tables)
    → IsNewId id t
    → IsFaithful rt t
    → IsFaithful rt (insert_draft id g a i t).0
unfolding insert_draft
insert_draft-IsFaithful rt id g a i t new faithful =
    ground (arith, add_draft-IsFaithful rt (new_draft id g a i t) t)

pub create_for-IsFaithful :
    (rt : Runtime) (id g a : ℕ) (i : DraftInput) (read t : Tables) (o : Option Company)
    → IsNewId id t
    → IsFaithful rt t
    → IsFaithful rt (create_for rt id g a i read t o).0
create_for-IsFaithful rt id g a i read t none new faithful = faithful
create_for-IsFaithful rt id g a i read t (some c) new faithful =
    let inserted =
      after_check-IsFaithful rt
        (check_recipient (some c) (find_linked_contact i.contact_id read)
          (recipient_owner rt i.company_id i.channel i.recipient read) read)
        t _ faithful
        (after_check-IsFaithful rt (check_deal i.company_id i.deal_id read) t _ faithful
          (insert_draft-IsFaithful rt id g a i t new faithful)) in
    elim (Bool-cases (is_of_other_company i.company_id (find_linked_contact i.contact_id read))) [
      | inl e ↦ rw e faithful
      | inr e ↦ rw e inserted
    ]

insert_version-IsFaithful :
    (rt : Runtime) (id : ℕ) (c : DraftChange) (t : Tables) (o : Option Draft)
    → IsNewId id t
    → IsFaithful rt t
    → IsFaithful rt (insert_version id c t o).0
unfolding next_version
insert_version-IsFaithful rt id c t none new faithful = faithful
insert_version-IsFaithful rt id c t (some d) new faithful =
    ground (arith, add_draft-IsFaithful rt (next_version id c d t) t)

update_draft_row-IsFaithful :
    (rt : Runtime) (id : ℕ) (c : DraftChange) (t : Tables)
    → IsFaithful rt t
    → IsFaithful rt (update_draft_row id c (edit c) t).0
unfolding update_draft_row
update_draft_row-IsFaithful rt id c t faithful = ground (
  arith,
  set_draft_status-IsFaithful rt id (edit c) t (edit_id c) (λ d e. edit_keeps rt c d) faithful,
)

pub update_found-IsFaithful :
    (rt : Runtime) (new_id id : ℕ) (c : DraftChange) (t : Tables) (o : Option Draft)
    → IsNewId new_id t
    → IsFaithful rt t
    → IsFaithful rt (update_found new_id id c t o).0
unfolding create_draft_new_version
update_found-IsFaithful rt new_id id c t none new faithful = faithful
update_found-IsFaithful rt new_id id c t (some d) new faithful =
    let versioned = insert_version-IsFaithful rt new_id c t (find_draft id t) new faithful in
    let edited_row = update_draft_row-IsFaithful rt id c t faithful in ground arith
