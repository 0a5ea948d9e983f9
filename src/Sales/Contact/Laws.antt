-- ===== src/Sales/Contact/Laws.antt =====
-- What the bans on contact stop (`assertCommercialTouchAllowed`, `assertTaskAllowed`).
use oculus_business.Common.{Bool, true, false, ◌≡◌, ◌↔◌, ◌⊎◌, Option, some, none, arith}
use oculus_business.Common.Outcome.{ok, fail, forbidden}
use oculus_business.Sales.Contact.{
  DncState, all_touches, commercial_touches, TouchKind, draft, task, TaskKind, commercial, internal,
  assert_commercial_touch_allowed, assert_task_allowed, touch_message,
}

-- A ban that covers everything.
abbrev pub IsFullBan : DncState → Type 0
IsFullBan s = (s.do_not_contact ≡ true) × (s.dnc_scope ≡ all_touches)

abbrev pub IsCommercialBan : DncState → Type 0
IsCommercialBan s = (s.do_not_contact ≡ true) × (s.dnc_scope ≡ commercial_touches)

abbrev pub Holds : (DncState → Type 0) → Option DncState → Type 0
Holds P none = ⊥
Holds P (some s) = P s

-- A ban on either side that covers everything, or, for a commercial matter, commercial contact.
abbrev pub IsBanned : Bool → Option DncState → Option DncState → Type 0
IsBanned is_commercial company contact =
    (Holds IsFullBan company ⊎ Holds IsFullBan contact)
    ⊎ (((is_commercial ≡ true) × Holds IsCommercialBan company)
        ⊎ ((is_commercial ≡ true) × Holds IsCommercialBan contact))

abbrev pub is_draft : TouchKind → Bool
is_draft draft = true
is_draft task = false

-- A commercial touch is refused exactly when the company or the contact has a full ban, or, for a
-- draft, a ban on commercial contact; it is refused as forbidden.
pub assert_commercial_touch_allowed-IsBanned :
    (company contact : Option DncState) (kind : TouchKind)
    → (assert_commercial_touch_allowed company contact kind ≡ fail forbidden (touch_message kind))
      ↔ IsBanned (is_draft kind) company contact
unfolding assert_commercial_touch_allowed
assert_commercial_touch_allowed-IsBanned company contact kind = ground arith

abbrev pub is_commercial : TaskKind → Bool
is_commercial commercial = true
is_commercial _ = false

-- A task passes exactly when it is internal or no ban of its company and contact reaches it: a
-- full ban stops commercial and service tasks, a commercial ban stops commercial tasks alone.
pub assert_task_allowed-IsBanned :
    (company contact : Option DncState) (kind : TaskKind)
    → (assert_task_allowed company contact kind ≡ ok tt)
      ↔ ((kind ≡ internal) ⊎ (¬ IsBanned (is_commercial kind) company contact))
unfolding assert_task_allowed
assert_task_allowed-IsBanned company contact kind = ground arith
