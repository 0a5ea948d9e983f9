-- ===== src/Sales/Contact.antt =====
-- The bans on contact: `assertCommercialTouchAllowed` and `assertTaskAllowed` of
-- backend/src/modules/business/domain/sales-rules.ts. A function that throws or returns nothing is
-- an `Outcome` over `Unit`.
pub mod Laws
mod Examples
use oculus_business.Common.{
  ◌<|>◌, Bool, true, false, not, ◌&&◌, ◌||◌, Option, none, some, List, [], ◌∷◌, find, if◌then◌else◌,
}
use oculus_business.Common.Text.{Text}
use oculus_business.Common.Outcome.{Outcome, ok, fail, FailureKind, forbidden}

-- `other_scope` stands for every string but the two that the code names.
pub data DncScope : Type 0 where
  all_touches commercial_touches other_scope : DncScope

pub record DncState : Type 0 where
  pub do_not_contact : Bool
  pub dnc_scope : DncScope
  pub dnc_reason : Option Text

pub data TouchKind : Type 0 where
  draft task : TouchKind

pub data TaskKind : Type 0 where
  commercial service internal : TaskKind

pub data BanMessage : Type 0 where
  draft_blocked : BanMessage
  task_blocked : BanMessage
  commercial_task_blocked : Option DncScope → BanMessage
  service_task_blocked : BanMessage

-- Whether a scope reaches a touch, and whether it reaches a task.
abbrev pub scope_reaches_touch : DncScope → TouchKind → Bool
scope_reaches_touch all_touches _ = true
scope_reaches_touch commercial_touches draft = true
scope_reaches_touch commercial_touches task = false
scope_reaches_touch other_scope _ = false

-- `scopeCovers`.
unfoldable pub scope_covers : Option DncState → TouchKind → Bool
scope_covers none kind = false
scope_covers (some s) kind = s.do_not_contact && scope_reaches_touch s.dnc_scope kind

abbrev pub touch_message : TouchKind → BanMessage
touch_message draft = draft_blocked
touch_message task = task_blocked

unfoldable pub assert_commercial_touch_allowed :
    Option DncState → Option DncState → TouchKind → Outcome BanMessage (Unit {0})
unfolding scope_covers
assert_commercial_touch_allowed company contact kind =
    if scope_covers company kind || scope_covers contact kind
    then fail forbidden (touch_message kind)
    else ok tt

abbrev pub scope_reaches_task : DncScope → TaskKind → Bool
scope_reaches_task all_touches _ = true
scope_reaches_task commercial_touches commercial = true
scope_reaches_task commercial_touches _ = false
scope_reaches_task other_scope _ = false

-- `blocked` of `assertTaskAllowed`.
unfoldable pub task_blocked_by : Option DncState → TaskKind → Bool
task_blocked_by none kind = false
task_blocked_by (some s) kind = s.do_not_contact && scope_reaches_task s.dnc_scope kind

-- The scope that the message shows: of the first state that bans contact at all.
abbrev pub banned_scope : Option DncState → Option DncScope
banned_scope none = none
banned_scope (some s) = if s.do_not_contact then some s.dnc_scope else none

unfoldable pub shown_scope : Option DncState → Option DncState → Option DncScope
shown_scope company contact = banned_scope company <|> banned_scope contact

unfoldable pub task_message : Option DncState → Option DncState → TaskKind → BanMessage
unfolding shown_scope
task_message company contact commercial = commercial_task_blocked (shown_scope company contact)
task_message company contact _ = service_task_blocked

unfoldable pub check_task :
    Option DncState → Option DncState → TaskKind → Outcome BanMessage (Unit {0})
unfolding task_blocked_by task_message
check_task company contact kind =
    if task_blocked_by company kind || task_blocked_by contact kind
    then fail forbidden (task_message company contact kind)
    else ok tt

unfoldable pub assert_task_allowed :
    Option DncState → Option DncState → TaskKind → Outcome BanMessage (Unit {0})
unfolding check_task
assert_task_allowed company contact internal = ok tt
assert_task_allowed company contact kind = check_task company contact kind
