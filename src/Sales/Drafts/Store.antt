-- ===== src/Sales/Drafts/Store.antt =====
-- The statements on drafts: `createDraft`, `setDraftStatus`, `updateDraftRow` and
-- `createDraftNewVersion` of backend/src/modules/business/infrastructure/sales-repository.ts, and
-- the holds that a ban sets, of sales-repository-v2.ts beside it.
use oculus_business.Common.{
  ℕ, ◌+◌, Bool, true, false, ◌&&◌, Option, none, some, List, [], ◌∷◌, ◌==◌, if◌then◌else◌, is_some,
  any, max,
}
use oculus_business.Common.Rows.{update_many}
use oculus_business.Common.Outcome.{Outcome, ok, fail, not_found, conflict}
use oculus_business.Common.Text.{Text, text_eq}
use oculus_business.Sales.Contact.{DncScope}
use oculus_business.Sales.Pilot.{DraftStatus}
use oculus_business.Sales.Drafts.{
  Draft, Tables, ChannelKind, DraftMessage, draft_missing, related_missing, duplicate_row,
  breaks_link, find_draft, has_draft_id, find_contact,
}

-- The greatest version of a group, 0 where it has none.
unfoldable pub last_version : ℕ → List Draft → ℕ
last_version group_id [] = 0
last_version group_id (d ∷ ds) =
    let rest = last_version group_id ds in
    if d.group_id == group_id then max d.version rest else rest

-- `CreateDraftRequest`.
pub record DraftInput : Type 0 where
  pub group_id : Option ℕ
  pub deal_id : Option ℕ
  pub company_id : ℕ
  pub contact_id : Option ℕ
  pub channel : ChannelKind
  pub recipient : Text
  pub subject : Option Text
  pub body : Text
  pub terms : Option Text
  pub product_claims_version : Option Text
  pub external_id : Option Text

-- The group and the version of a new draft.
abbrev pub group_of : Option ℕ → ℕ → ℕ
group_of none new_group = new_group
group_of (some g) new_group = g

unfoldable pub version_of : Option ℕ → Tables → ℕ
unfolding last_version
version_of none t = 1
version_of (some g) t = last_version g t.drafts + 1

unfoldable pub new_draft : ℕ → ℕ → ℕ → DraftInput → Tables → Draft
unfolding version_of
new_draft id new_group actor_id i t = record {
  id = id;
  group_id = group_of i.group_id new_group;
  version = version_of i.group_id t;
  deal_id = i.deal_id;
  company_id = i.company_id;
  contact_id = i.contact_id;
  channel = i.channel;
  recipient = i.recipient;
  subject = i.subject;
  body = i.body;
  terms = i.terms;
  product_claims_version = i.product_claims_version;
  status = DraftStatus.draft;
  created_by_id = actor_id;
  reviewed_by_id = none;
  reviewed_at = none;
  approved_by_id = none;
  approved_at = none;
  content_hash = none;
  sent_at = none;
  sent_by_id = none;
  external_message_id = none;
  cancelled_at = none;
  cancel_reason = none;
  delivered_at = none;
  delivery_proof = none;
  hold_reason = none;
  external_id = i.external_id;
  row_version = 1;
}

abbrev pub same_external_id : Option Text → Draft → Bool
same_external_id none d = false
same_external_id (some e) d = elim d.external_id [ none ↦ false | some f ↦ text_eq f e ]

abbrev pub add_draft : Draft → Tables → Tables
add_draft d t = record t { drafts = d ∷ t.drafts }

-- `createDraft` of the repository, with the constraints of the table.
unfoldable pub insert_draft : ℕ → ℕ → ℕ → DraftInput → Tables → Tables × Outcome DraftMessage Draft
unfolding new_draft breaks_link text_eq
insert_draft id new_group actor_id i t =
    if breaks_link i.deal_id i.contact_id t
    then (t, fail not_found related_missing)
    else if any (same_external_id i.external_id) t.drafts
    then (t, fail conflict duplicate_row)
    else (
      add_draft (new_draft id new_group actor_id i t) t,
      ok (new_draft id new_group actor_id i t),
    )

abbrev pub next_row_version : (Draft → Draft) → Draft → Draft
next_row_version patch d = record (patch d) { row_version = d.row_version + 1 }

unfoldable pub patch_drafts : (Draft → Bool) → (Draft → Draft) → Tables → Tables
unfolding update_many
patch_drafts p f t = record t { drafts = (update_many p f t.drafts).0 }

abbrev pub patch_found :
    ℕ → (Draft → Draft) → Tables → Option Draft → Tables × Outcome DraftMessage Draft
patch_found id patch t none = (t, fail not_found draft_missing)
patch_found id patch t (some d) =
    (patch_drafts (has_draft_id id) (next_row_version patch) t, ok (next_row_version patch d))

-- `setDraftStatus`, which every caller uses without an expected version.
unfoldable pub set_draft_status : ℕ → (Draft → Draft) → Tables → Tables × Outcome DraftMessage Draft
unfolding patch_drafts
set_draft_status id patch t = patch_found id patch t (find_draft id t)

-- `UpdateDraftRequest`: what is given; of the columns that may be null, also null.
pub record DraftChange : Type 0 where
  pub recipient : Option Text
  pub channel : Option ChannelKind
  pub subject : Option (Option Text)
  pub body : Option Text
  pub terms : Option (Option Text)
  pub deal_id : Option (Option ℕ)
  pub contact_id : Option (Option ℕ)
  pub product_claims_version : Option (Option Text)
  pub expected_version : Option ℕ

abbrev pub or_kept : {A : Type 0} → Option A → A → A
or_kept none a = a
or_kept (some b) a = b

-- `value ?? undefined`: null counts as not given.
abbrev pub given : {A : Type 0} → Option (Option A) → Option A
given none = none
given (some o) = o

-- `createDraftNewVersion`: the terms are not taken over.
unfoldable pub next_version : ℕ → DraftChange → Draft → Tables → Draft
unfolding last_version
next_version id c d t = record {
  id = id;
  group_id = d.group_id;
  version = last_version d.group_id t.drafts + 1;
  deal_id = or_kept c.deal_id d.deal_id;
  company_id = d.company_id;
  contact_id = or_kept c.contact_id d.contact_id;
  channel = or_kept c.channel d.channel;
  recipient = or_kept c.recipient d.recipient;
  subject = or_kept c.subject d.subject;
  body = or_kept c.body d.body;
  terms = given c.terms;
  product_claims_version = or_kept c.product_claims_version d.product_claims_version;
  status = DraftStatus.draft;
  created_by_id = d.created_by_id;
  reviewed_by_id = none;
  reviewed_at = none;
  approved_by_id = none;
  approved_at = none;
  content_hash = none;
  sent_at = none;
  sent_by_id = none;
  external_message_id = none;
  cancelled_at = none;
  cancel_reason = none;
  delivered_at = none;
  delivery_proof = none;
  hold_reason = none;
  external_id = none;
  row_version = 1;
}

-- The links that a change gives name rows that exist.
abbrev pub breaks_new_link : DraftChange → Tables → Bool
breaks_new_link c t = breaks_link (given c.deal_id) (given c.contact_id) t

abbrev pub insert_version :
    ℕ → DraftChange → Tables → Option Draft → Tables × Outcome DraftMessage Draft
insert_version id c t none = (t, fail not_found draft_missing)
insert_version id c t (some d) =
    if breaks_new_link c t
    then (t, fail not_found related_missing)
    else (add_draft (next_version id c d t) t, ok (next_version id c d t))

-- `createDraftNewVersion`.
unfoldable pub create_draft_new_version :
    ℕ → ℕ → DraftChange → Tables → Tables × Outcome DraftMessage Draft
unfolding next_version breaks_link
create_draft_new_version id draft_id c t = insert_version id c t (find_draft draft_id t)

-- `updateDraftRow`.
unfoldable pub update_draft_row :
    ℕ → DraftChange → (Draft → Draft) → Tables → Tables × Outcome DraftMessage Draft
unfolding set_draft_status breaks_link
update_draft_row id c patch t =
    if is_some (find_draft id t) && breaks_new_link c t
    then (t, fail not_found related_missing)
    else set_draft_status id patch t

abbrev pub is_open_draft : DraftStatus → Bool
is_open_draft DraftStatus.draft = true
is_open_draft DraftStatus.reviewed = true
is_open_draft DraftStatus.approved = true
is_open_draft _ = false

abbrev pub put_on_hold : DncScope → Text → Draft → Draft
put_on_hold scope reason d = record d {
  status = DraftStatus.on_hold;
  hold_reason = some (scope, reason);
}

-- The drafts that `stopContinuationsForDnc` holds, and those of `stopContinuationsForContactDnc`.
unfoldable pub hold_company_drafts : ℕ → DncScope → Text → Tables → Tables
unfolding patch_drafts
hold_company_drafts company_id scope reason =
    patch_drafts (λ d. d.company_id == company_id && is_open_draft d.status)
      (put_on_hold scope reason)

abbrev pub has_contact : ℕ → Draft → Bool
has_contact contact_id d = elim d.contact_id [ none ↦ false | some c ↦ c == contact_id ]

unfoldable pub hold_contact_drafts : ℕ → DncScope → Text → Tables → Tables
unfolding patch_drafts
hold_contact_drafts contact_id scope reason t =
    if is_some (find_contact contact_id t)
    then patch_drafts (λ d. has_contact contact_id d && is_open_draft d.status)
        (put_on_hold scope reason) t
    else t
