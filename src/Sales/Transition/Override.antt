-- ===== src/Sales/Transition/Override.antt =====
-- What a stated override changes in `evaluateTransition`, and that confirmed evidence never hurts.
use oculus_business.Common.{
  filter-append, Bool, true, false, ◌≡◌, [], ◌∷◌, filter, some, none, arith, if◌then◌else◌, refl,
  List,
}
use oculus_business.Common.Text.{Text, is_blank, is_missing}
use oculus_business.Sales.Transition.{
  TransitionInput, Rule, Claim, confirmed, is_overridden, enters_lost, lost_reason_of,
  enters_paused, paused_reason_of, resume_of, enters_qualified, enters_won, won_basis_of,
  lost_rules, paused_rules, qualification_rules, offer_rules, won_rules, evaluate_transition,
  lost_reason_rule, paused_reason_rule, paused_resume_rule, ClaimField, upsert_deal_claim,
  is_confirmed_status, same_field, problem, consequences,
}
use oculus_business.Sales.Transition.Laws.{IsAllowed, evaluate_transition-IsAllowed}

-- The rules that no override lifts.
abbrev pub is_hard : Rule → Bool
is_hard lost_reason_rule = true
is_hard paused_reason_rule = true
is_hard paused_resume_rule = true
is_hard _ = false

abbrev pub with_override : TransitionInput → Text → TransitionInput
with_override i o = record i { override_reason = some o }

abbrev pub without_override : TransitionInput → TransitionInput
without_override i = record i { override_reason = none }

module _ (i : TransitionInput) (o : Text) (given : is_blank o ≡ false) where
  lost_rules-override :
      lost_rules (with_override i o) ≡ filter is_hard (lost_rules (without_override i))
  unfolding lost_rules enters_lost lost_reason_of
  lost_rules-override = ground arith

  paused_rules-override :
      paused_rules (with_override i o) ≡ filter is_hard (paused_rules (without_override i))
  unfolding paused_rules enters_paused paused_reason_of resume_of
  paused_rules-override = ground arith

  qualification_rules-override :
      (if enters_qualified (with_override i o) then qualification_rules (with_override i o) else [])
      ≡ filter is_hard (
          if enters_qualified (without_override i)
          then qualification_rules (without_override i)
          else [])
  unfolding enters_qualified qualification_rules is_overridden is_missing
  qualification_rules-override = ground arith

  offer_rules-override :
      offer_rules (with_override i o) ≡ filter is_hard (offer_rules (without_override i))
  unfolding offer_rules is_overridden is_missing
  offer_rules-override = ground arith

  won_rules-override :
      won_rules (with_override i o) ≡ filter is_hard (won_rules (without_override i))
  unfolding won_rules enters_won won_basis_of is_overridden is_missing
  won_rules-override = ground arith

  -- An override reason that is not blank removes from the reported rules all but the three that
  -- ask for a reason of a loss, a reason of a pause and a way back from it, in the same order.
  pub evaluate_transition-override :
      evaluate_transition (with_override i o)
      ≡ filter is_hard (evaluate_transition (without_override i))
  unfolding evaluate_transition
  evaluate_transition-override = simp (
    filter-append, lost_rules-override, paused_rules-override, qualification_rules-override,
    offer_rules-override, won_rules-override,
  )

same_field_trans :
    (a b c : ClaimField) → same_field a b ≡ true → same_field a c ≡ true → same_field b c ≡ true
same_field_trans ClaimField.problem ClaimField.problem ClaimField.problem h k = refl
same_field_trans ClaimField.consequences ClaimField.consequences ClaimField.consequences h k = refl
same_field_trans (ClaimField.other_field a) (ClaimField.other_field b) (ClaimField.other_field c) h
      k =
    ground arith
same_field_trans a b c h k = ground arith

-- A confirmed claim that is recorded takes no confirmation away.
confirmed-upsert_deal_claim :
    (key : ClaimField) (c : Claim) (xs : List Claim)
    → is_confirmed_status c.status ≡ true
    → confirmed key xs ≡ true
    → confirmed key (upsert_deal_claim c xs) ≡ true
unfolding confirmed upsert_deal_claim
confirmed-upsert_deal_claim key c [] h e = cc
confirmed-upsert_deal_claim key c (x ∷ xs) h e =
    ground
      (arith, confirmed-upsert_deal_claim key c xs h, same_field_trans x.field_key c.field_key key)

upsert_deal_claim-IsAllowed :
    (i : TransitionInput) (c : Claim)
    → is_confirmed_status c.status ≡ true
    → IsAllowed i
    → IsAllowed (record i { claims = upsert_deal_claim c i.claims })
unfolding enters_lost lost_reason_of enters_paused paused_reason_of resume_of enters_qualified
    enters_won won_basis_of is_overridden
upsert_deal_claim-IsAllowed i c k h = ground (
  arith,
  confirmed-upsert_deal_claim problem c i.claims k,
  confirmed-upsert_deal_claim consequences c i.claims k,
)

-- A transition that is free of violations stays so when a claim that is confirmed is recorded, which
-- takes the place of the deal's earlier claim of the same field.
pub evaluate_transition-upsert_deal_claim :
    (i : TransitionInput) (c : Claim)
    → is_confirmed_status c.status ≡ true
    → evaluate_transition i ≡ []
    → evaluate_transition (record i { claims = upsert_deal_claim c i.claims }) ≡ []
evaluate_transition-upsert_deal_claim i c k h =
    (evaluate_transition-IsAllowed (record i { claims = upsert_deal_claim c i.claims })).1
      (upsert_deal_claim-IsAllowed i c k ((evaluate_transition-IsAllowed i).0 h))
