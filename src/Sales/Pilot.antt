-- ===== src/Sales/Pilot.antt =====
-- `pilotActivationBlockers`, `computeContribution`, `isUnusedPayingCustomer` and
-- `assertDraftSendable` of backend/src/modules/business/domain/sales-rules.ts.
-- Identifiers are numbers, a blocker stands for its message, and amounts are whole numbers.
pub mod Laws
mod Examples
use oculus_business.Common.{
  ℕ, ◌*◌, Bool, true, false, not, ◌&&◌, Option, List, [], ◌∷◌, ◌++◌, is_some, ltb, if◌then◌else◌,
}
use oculus_business.Common.Int.{ℤ, pos, ◌-ℤ◌, ltb_ℤ}
use oculus_business.Common.Text.{Text, is_missing, is_blank}
use oculus_business.Common.Outcome.{Outcome, ok, fail, conflict, validation}

pub record Pilot : Type 0 where
  pub ordix_owner_id : Option ℕ
  pub client_owner_contact_id : Option ℕ
  pub client_owner_name : Option Text
  pub source_data : Option Text
  pub decision_due_on : Option Text
  pub active_criteria_count : ℕ
  pub goal : Option Text
  pub paid_next_step : Option Text
  pub users_overview : Option Text
  pub criteria_agreed_and_methoded : Bool

pub data Blocker : Type 0 where
  no_ordix_owner no_client_owner no_source_data no_goal no_users no_criterion : Blocker
  criteria_not_agreed no_paid_step no_decision_date : Blocker

-- `blockers.push` under a test.
abbrev pub block_if : Bool → Blocker → List Blocker
block_if true b = b ∷ []
block_if false b = []

unfoldable pub pilot_activation_blockers : Pilot → List Blocker
pilot_activation_blockers p =
    block_if (not (is_some p.ordix_owner_id)) no_ordix_owner
    ++ (block_if (not (is_some p.client_owner_contact_id) && is_missing p.client_owner_name)
          no_client_owner
        ++ (block_if (is_missing p.source_data) no_source_data
            ++ (block_if (is_missing p.goal) no_goal
                ++ (block_if (is_missing p.users_overview) no_users
                    ++ (block_if (ltb p.active_criteria_count 1) no_criterion
                        ++ (block_if (not p.criteria_agreed_and_methoded) criteria_not_agreed
                            ++ (block_if (is_missing p.paid_next_step) no_paid_step
                                ++ block_if (not (is_some p.decision_due_on))
                                    no_decision_date)))))))

-- `computeContribution`; the rate and the hours are not negative.
unfoldable pub compute_contribution : ℤ → ℤ → ℕ → ℕ → ℤ
compute_contribution received_total direct_costs support_hours labor_hour_rate =
    received_total -ℤ direct_costs -ℤ pos (support_hours * labor_hour_rate)

unfoldable pub is_unused_paying_customer : ℤ → Option Text → Bool → Bool
is_unused_paying_customer received_total first_scenario_accepted_on value_check_overdue =
    ltb_ℤ (pos 0) received_total && not (is_some first_scenario_accepted_on) && value_check_overdue

-- The statuses of a version of a draft; only `approved` is tested here.
pub data DraftStatus : Type 0 where
  draft reviewed approved sent delivered on_hold superseded failed cancelled : DraftStatus

abbrev pub is_approved : DraftStatus → Bool
is_approved DraftStatus.approved = true
is_approved _ = false

pub data SendMessage : Type 0 where
  not_approved no_recipient : SendMessage

-- `assertDraftSendable`.
unfoldable pub assert_draft_sendable : DraftStatus → Text → Outcome SendMessage (Unit {0})
assert_draft_sendable status recipient =
    if not (is_approved status)
    then fail conflict not_approved
    else if is_blank recipient
    then fail validation no_recipient
    else ok tt
