-- ===== src/Sales/Transition/Laws.antt =====
-- What an accepted transition means (`evaluateTransition`), and which rules an override lifts.
use oculus_business.Common.{true, false, ◌≡◌, refl, ◌↔◌, List, [], ◌∷◌, ◌++◌, arith, if◌then◌else◌}
use oculus_business.Common.Text.{is_missing}
use oculus_business.Sales.Transition.{
  TransitionInput, Rule, is_overridden, problem, consequences, confirmed, enters_lost,
  lost_reason_of, enters_paused, paused_reason_of, resume_of, enters_qualified, is_offer_semantic,
  enters_won, won_basis_of, lost_rules, paused_rules, qualification_rules, offer_rules, won_rules,
  evaluate_transition,
}

-- A qualified deal, as the sales process describes it.
pub record IsQualified (i : TransitionInput) : Type 0 where
  pub problem_confirmed : confirmed problem i.claims ≡ true
  pub consequences_confirmed : confirmed consequences i.claims ≡ true
  pub problem_stated : is_missing i.deal.problem_statement ≡ false
  pub consequences_stated : is_missing i.deal.consequences_text ≡ false
  pub step_agreed : is_missing i.deal.next_agreed_step ≡ false
  pub owner_linked : i.has_process_owner_role ≡ true

-- The requirements of the target stage, with no list of violations in sight.
pub record IsAllowed (i : TransitionInput) : Type 0 where
  pub loss_explained : enters_lost i ≡ true → is_missing (lost_reason_of i) ≡ false
  pub pause_explained : enters_paused i ≡ true → is_missing (paused_reason_of i) ≡ false
  pub return_planned : enters_paused i ≡ true → is_missing (resume_of i) ≡ false
  pub qualified : enters_qualified i ≡ true → is_overridden i ≡ false → IsQualified i
  pub offer_agreed :
      is_offer_semantic i.to_stage.semantic_type ≡ true
      → is_overridden i ≡ false
      → i.has_approved_or_sent_draft ≡ true
  pub win_grounded :
      enters_won i ≡ true → is_overridden i ≡ false → is_missing (won_basis_of i) ≡ false

lost_rules-nil :
    (i : TransitionInput)
    → (lost_rules i ≡ []) ↔ (enters_lost i ≡ true → is_missing (lost_reason_of i) ≡ false)
unfolding lost_rules
lost_rules-nil i = ground arith

paused_rules-nil :
    (i : TransitionInput)
    → (paused_rules i ≡ []) ↔ (
        enters_paused i ≡ true
        → (is_missing (paused_reason_of i) ≡ false) × (is_missing (resume_of i) ≡ false))
unfolding paused_rules
paused_rules-nil i = ground arith

qualification_rules-nil :
    (i : TransitionInput) → (qualification_rules i ≡ []) ↔ (is_overridden i ≡ false → IsQualified i)
unfolding qualification_rules
qualification_rules-nil i = ground arith

offer_rules-nil :
    (i : TransitionInput)
    → (offer_rules i ≡ []) ↔ (
        is_offer_semantic i.to_stage.semantic_type ≡ true
        → is_overridden i ≡ false
        → i.has_approved_or_sent_draft ≡ true)
unfolding offer_rules
offer_rules-nil i = ground arith

won_rules-nil :
    (i : TransitionInput)
    → (won_rules i ≡ [])
      ↔ (enters_won i ≡ true → is_overridden i ≡ false → is_missing (won_basis_of i) ≡ false)
unfolding won_rules
won_rules-nil i = ground arith

append-eq-nil_iff : (xs ys : List Rule) → (xs ++ ys ≡ []) ↔ ((xs ≡ []) × (ys ≡ []))
append-eq-nil_iff [] ys = (λ h. (refl, h), λ h. h.1)
append-eq-nil_iff (x ∷ xs) ys = (λ h. cc, λ h. cc h.0)

evaluate_transition-nil_parts :
    (i : TransitionInput)
    → (evaluate_transition i ≡ []) ↔ (
        (lost_rules i ≡ [])
        × (paused_rules i ≡ [])
        × (enters_qualified i ≡ true → qualification_rules i ≡ [])
        × (offer_rules i ≡ [])
        × (won_rules i ≡ []))
unfolding evaluate_transition
evaluate_transition-nil_parts i =
    let q : List Rule = if enters_qualified i then qualification_rules i else [] in
    ground (
      arith,
      append-eq-nil_iff (lost_rules i) (paused_rules i ++ (q ++ (offer_rules i ++ won_rules i))),
      append-eq-nil_iff (paused_rules i) (q ++ (offer_rules i ++ won_rules i)),
      append-eq-nil_iff q (offer_rules i ++ won_rules i),
      append-eq-nil_iff (offer_rules i) (won_rules i),
    )

-- A transition is reported free of violations exactly when it meets every requirement of its
-- target stage: a loss has a reason; a pause has a reason and a way back; and, unless a reason
-- that is not blank overrides them, a milestone finds a qualified deal, an offer or a contract an
-- approved or sent version, and a win its basis.
pub evaluate_transition-IsAllowed :
    (i : TransitionInput) → (evaluate_transition i ≡ []) ↔ IsAllowed i
evaluate_transition-IsAllowed i = ground (
  arith,
  evaluate_transition-nil_parts i,
  lost_rules-nil i,
  paused_rules-nil i,
  qualification_rules-nil i,
  offer_rules-nil i,
  won_rules-nil i,
)
