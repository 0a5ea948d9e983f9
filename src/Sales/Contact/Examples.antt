-- ===== src/Sales/Contact/Examples.antt =====
-- The bans on contact at concrete states.
use oculus_business.Common.{true, false, ◌≡◌, refl, ◌↔◌, ◌⊎◌, some, none, Option}
use oculus_business.Common.Outcome.{ok, fail, forbidden}
use oculus_business.Sales.Contact.{
  DncState, all_touches, commercial_touches, task, commercial, service, internal,
  assert_commercial_touch_allowed, assert_task_allowed, touch_message, commercial_task_blocked,
}
use oculus_business.Sales.Contact.Laws.{
  IsBanned, assert_commercial_touch_allowed-IsBanned, assert_task_allowed-IsBanned,
}

abbrev full_ban : Option DncState
full_ban = some (record { do_not_contact = true; dnc_scope = all_touches; dnc_reason = none })

abbrev commercial_ban : Option DncState
commercial_ban =
    some (record { do_not_contact = true; dnc_scope = commercial_touches; dnc_reason = none })

commercial_task_refused :
    assert_task_allowed none commercial_ban commercial
    ≡ fail forbidden (commercial_task_blocked (some commercial_touches))
unfolding assert_task_allowed
commercial_task_refused = refl

service_task_passes : assert_task_allowed none commercial_ban service ≡ ok tt
unfolding assert_task_allowed
service_task_passes = refl

assert_commercial_touch_allowed-IsBanned_example :
    (assert_commercial_touch_allowed full_ban none task ≡ fail forbidden (touch_message task))
    ↔ IsBanned false full_ban none
assert_commercial_touch_allowed-IsBanned_example =
    assert_commercial_touch_allowed-IsBanned full_ban none task

assert_task_allowed-IsBanned_example :
    (assert_task_allowed none commercial_ban service ≡ ok tt)
    ↔ ((service ≡ internal) ⊎ (¬ IsBanned false none commercial_ban))
assert_task_allowed-IsBanned_example = assert_task_allowed-IsBanned none commercial_ban service
