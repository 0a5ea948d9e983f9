-- ===== src/Sales/Pilot/Examples.antt =====
-- A pilot that is ready and one that is not.
use oculus_business.Common.{true, ◌≡◌, refl, ◌↔◌, some, none, [], ◌∷◌}
use oculus_business.Common.Int.{pos, negsuc, ◌-ℤ◌}
use oculus_business.Common.Text.{lit, is_missing}
use oculus_business.Sales.Pilot.{
  Pilot, pilot_activation_blockers, compute_contribution, no_goal, no_criterion,
}
use oculus_business.Sales.Pilot.Laws.{IsReady, pilot_activation_blockers-IsReady}

abbrev ready : Pilot
ready = record {
  ordix_owner_id = some 1;
  client_owner_contact_id = none;
  client_owner_name = some (lit "A. Client");
  source_data = some (lit "orders");
  decision_due_on = some (lit "2026-12-01");
  active_criteria_count = 2;
  goal = some (lit "fewer lost orders");
  paid_next_step = some (lit "licence");
  users_overview = some (lit "dispatchers");
  criteria_agreed_and_methoded = true;
}

blocked_twice :
    pilot_activation_blockers (record ready { goal = some (lit "  "); active_criteria_count = 0 })
    ≡ no_goal ∷ no_criterion ∷ []
unfolding pilot_activation_blockers is_missing
blocked_twice = refl

contribution_negative : compute_contribution (pos 100) (pos 40) 10 9 ≡ negsuc 29
unfolding compute_contribution ◌-ℤ◌
contribution_negative = refl

pilot_activation_blockers-IsReady_example : (pilot_activation_blockers ready ≡ []) ↔ IsReady ready
pilot_activation_blockers-IsReady_example = pilot_activation_blockers-IsReady ready
