-- ===== src/Sales/Pilot/Laws.antt =====
-- When a pilot may be activated (`pilotActivationBlockers`).
use oculus_business.Common.{◌≤◌, true, false, ◌≡◌, ◌↔◌, ◌⊎◌, [], is_some, arith}
use oculus_business.Common.Text.{is_missing}
use oculus_business.Sales.Pilot.{Pilot, pilot_activation_blockers}

-- A pilot that is fully described.
pub record IsReady (p : Pilot) : Type 0 where
  pub owned : is_some p.ordix_owner_id ≡ true
  pub client_owned :
      (is_some p.client_owner_contact_id ≡ true) ⊎ (is_missing p.client_owner_name ≡ false)
  pub sourced : is_missing p.source_data ≡ false
  pub aimed : is_missing p.goal ≡ false
  pub peopled : is_missing p.users_overview ≡ false
  pub measured : 1 ≤ p.active_criteria_count
  pub agreed : p.criteria_agreed_and_methoded ≡ true
  pub paid_after : is_missing p.paid_next_step ≡ false
  pub dated : is_some p.decision_due_on ≡ true

-- Nothing blocks the activation of a pilot exactly when it has both owners, its data, goal, users,
-- at least one active criterion, agreed criteria, a paid next step and a date of decision.
pub pilot_activation_blockers-IsReady : (p : Pilot) → (pilot_activation_blockers p ≡ []) ↔ IsReady p
unfolding pilot_activation_blockers
pilot_activation_blockers-IsReady p = ground arith
