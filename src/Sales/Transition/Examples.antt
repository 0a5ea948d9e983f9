-- ===== src/Sales/Transition/Examples.antt =====
-- Tests of `evaluateTransition`, and the theorems about it at concrete deals.
use oculus_business.Common.{Bool, true, false, ◌≡◌, refl, List, [], ◌∷◌, filter, some, none}
use oculus_business.Common.Text.{lit, is_blank, is_missing}
use oculus_business.Sales.Transition.{
  TransitionInput, DealFacts, Stage, StageSemantic, Claim, ClaimStatus, problem, consequences,
  confirmed, is_overridden, enters_lost, lost_reason_of, enters_paused, paused_reason_of, resume_of,
  enters_qualified, enters_won, won_basis_of, lost_rules, paused_rules, qualification_rules,
  offer_rules, won_rules, evaluate_transition, content_step, proposal_version, upsert_deal_claim,
}
use oculus_business.Sales.Transition.Laws.{IsAllowed, evaluate_transition-IsAllowed}
use oculus_business.Sales.Transition.Override.{
  is_hard, with_override, without_override, evaluate_transition-override,
  evaluate_transition-upsert_deal_claim,
}

abbrev blank_deal : DealFacts
blank_deal = record {
  lost_reason = none;
  paused_reason = none;
  resume_condition = none;
  resume_on = none;
  won_basis = none;
  problem_statement = some (lit "slow intake");
  consequences_text = some (lit "lost orders");
  next_agreed_step = some (lit " ");
}

abbrev stage_of : StageSemantic → Bool → Bool → Stage
stage_of s w l = record {
  id = 7;
  title = lit "stage";
  position = 3;
  semantic_type = s;
  is_won = w;
  is_lost = l;
}

abbrev both_claims : List Claim
both_claims =
    record { field_key = problem; status = ClaimStatus.tested }
    ∷ record { field_key = consequences; status = ClaimStatus.customer_confirmed }
    ∷ []

abbrev move_to : Stage → TransitionInput
move_to s = record {
  deal = blank_deal;
  to_stage = s;
  reason = none;
  lost_reason_in_request = none;
  request_paused_reason = none;
  request_resume_condition = none;
  request_resume_on = none;
  request_won_basis = none;
  override_reason = none;
  claims = both_claims;
  has_process_owner_role = true;
  has_approved_or_sent_draft = false;
}

abbrev to_proposal : TransitionInput
to_proposal = move_to (stage_of StageSemantic.proposal false false)

abbrev to_research : TransitionInput
to_research = move_to (stage_of StageSemantic.research false false)

proposal_lacks_step : evaluate_transition to_proposal ≡ content_step ∷ proposal_version ∷ []
unfolding evaluate_transition lost_rules paused_rules enters_qualified qualification_rules
    offer_rules won_rules is_overridden enters_lost lost_reason_of enters_paused paused_reason_of
    resume_of enters_won won_basis_of confirmed is_missing
proposal_lacks_step = refl

research_free : evaluate_transition to_research ≡ []
unfolding evaluate_transition lost_rules paused_rules enters_qualified qualification_rules
    offer_rules won_rules is_overridden enters_lost lost_reason_of enters_paused paused_reason_of
    resume_of enters_won won_basis_of confirmed is_missing
research_free = refl

evaluate_transition-IsAllowed_example : IsAllowed to_research
evaluate_transition-IsAllowed_example = (evaluate_transition-IsAllowed to_research).0 research_free

evaluate_transition-override_example :
    evaluate_transition (with_override to_proposal (lit "owner agreed"))
    ≡ filter is_hard (evaluate_transition (without_override to_proposal))
unfolding is_blank
evaluate_transition-override_example =
    evaluate_transition-override to_proposal (lit "owner agreed") refl

abbrev tested_problem : Claim
tested_problem = record { field_key = problem; status = ClaimStatus.tested }

evaluate_transition-upsert_deal_claim_example :
    evaluate_transition
      (record to_research { claims = upsert_deal_claim tested_problem both_claims })
    ≡ []
evaluate_transition-upsert_deal_claim_example =
    evaluate_transition-upsert_deal_claim to_research tested_problem refl research_free

-- A weaker claim takes the place of a confirmed one.
abbrev weak_claim : Claim
weak_claim = record { field_key = problem; status = ClaimStatus.hypothesis }

weaker_refuses : confirmed problem (upsert_deal_claim weak_claim both_claims) ≡ false
unfolding confirmed upsert_deal_claim
weaker_refuses = refl
