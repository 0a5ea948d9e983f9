-- ===== src/Sales/Transition.antt =====
-- `evaluateTransition` of backend/src/modules/business/domain/sales-rules.ts: which rules a move of
-- a deal to another stage breaks. A field that is `string | null | undefined` is an `Option Text`,
-- since the code treats null and undefined alike. A violation is its rule: the message depends on
-- nothing else.
pub mod Laws
pub mod Override
mod Examples
use oculus_business.Common.{
  ℕ, Bool, true, false, not, ◌&&◌, ◌||◌, Option, List, [], ◌∷◌, ◌++◌, any, ◌<|>◌, if◌then◌else◌,
  zero, suc, ◌+◌, ◌-◌, ◌*◌, ◌≤◌, ◌<◌, ◌≡◌, refl, sym, ap, ◌∙◌, ◌≢◌, ◌↔◌, ◌⊎◌, inl, inr, none, some,
  arith, ltb, leb, ◌==◌, ==_iff, Bool-cases, Option-cases, is_some, find, filter, All, Has,
}
use oculus_business.Common.Text.{Text, is_missing}

-- `other` stands for every string that no rule names.
pub data StageSemantic : Type 0 where
  intake research dialogue qualified solution_check proposal contract won lost paused other :
      StageSemantic

-- `MILESTONE_SEMANTICS.has`.
abbrev pub is_milestone : StageSemantic → Bool
is_milestone StageSemantic.qualified = true
is_milestone StageSemantic.solution_check = true
is_milestone StageSemantic.proposal = true
is_milestone StageSemantic.contract = true
is_milestone StageSemantic.won = true
is_milestone _ = false

abbrev pub is_lost_semantic : StageSemantic → Bool
is_lost_semantic StageSemantic.lost = true
is_lost_semantic _ = false

abbrev pub is_paused_semantic : StageSemantic → Bool
is_paused_semantic StageSemantic.paused = true
is_paused_semantic _ = false

abbrev pub is_won_semantic : StageSemantic → Bool
is_won_semantic StageSemantic.won = true
is_won_semantic _ = false

abbrev pub is_offer_semantic : StageSemantic → Bool
is_offer_semantic StageSemantic.proposal = true
is_offer_semantic StageSemantic.contract = true
is_offer_semantic _ = false

pub record Stage : Type 0 where
  pub id : ℕ
  pub title : Text
  pub position : ℕ
  pub semantic_type : StageSemantic
  pub is_won : Bool
  pub is_lost : Bool

pub data ClaimField : Type 0 where
  problem consequences : ClaimField
  other_field : ℕ → ClaimField

pub data ClaimStatus : Type 0 where
  hypothesis customer_confirmed tested unknown : ClaimStatus

pub record Claim : Type 0 where
  pub field_key : ClaimField
  pub status : ClaimStatus

-- The part of the deal that the rules read.
pub record DealFacts : Type 0 where
  pub lost_reason : Option Text
  pub paused_reason : Option Text
  pub resume_condition : Option Text
  pub resume_on : Option Text
  pub won_basis : Option Text
  pub problem_statement : Option Text
  pub consequences_text : Option Text
  pub next_agreed_step : Option Text

pub record TransitionInput : Type 0 where
  pub deal : DealFacts
  pub to_stage : Stage
  pub reason : Option Text
  pub lost_reason_in_request : Option Text
  pub request_paused_reason : Option Text
  pub request_resume_condition : Option Text
  pub request_resume_on : Option Text
  pub request_won_basis : Option Text
  pub override_reason : Option Text
  -- The claims of the deal, one of a field.
  pub claims : List Claim
  pub has_process_owner_role : Bool
  pub has_approved_or_sent_draft : Bool

pub data Rule : Type 0 where
  lost_reason_rule paused_reason_rule paused_resume_rule : Rule
  qualified_problem qualified_consequences : Rule
  content_problem content_consequences content_step : Rule
  qualified_owner proposal_version won_basis_rule : Rule

-- `violations.push` under a test.
abbrev pub report : Bool → Rule → List Rule
report true r = r ∷ []
report false r = []

-- `overrideReason` is given and is not blank.
unfoldable pub is_overridden : TransitionInput → Bool
is_overridden i = not (is_missing i.override_reason)

-- `overridden`: a rule that a stated reason lifts.
unfoldable pub soft : TransitionInput → Bool → Rule → List Rule
soft i broken r = report (broken && not (is_overridden i)) r

unfoldable pub enters_lost : TransitionInput → Bool
enters_lost i = i.to_stage.is_lost || is_lost_semantic i.to_stage.semantic_type

unfoldable pub lost_reason_of : TransitionInput → Option Text
lost_reason_of i = i.lost_reason_in_request <|> i.deal.lost_reason <|> i.reason

unfoldable pub lost_rules : TransitionInput → List Rule
lost_rules i = report (enters_lost i && is_missing (lost_reason_of i)) lost_reason_rule

unfoldable pub enters_paused : TransitionInput → Bool
enters_paused i = is_paused_semantic i.to_stage.semantic_type

unfoldable pub paused_reason_of : TransitionInput → Option Text
paused_reason_of i = i.request_paused_reason <|> i.deal.paused_reason

unfoldable pub resume_of : TransitionInput → Option Text
resume_of i =
    i.request_resume_on <|> i.request_resume_condition <|> i.deal.resume_condition
    <|> i.deal.resume_on

unfoldable pub paused_rules : TransitionInput → List Rule
paused_rules i =
    report (enters_paused i && is_missing (paused_reason_of i)) paused_reason_rule
    ++ report (enters_paused i && is_missing (resume_of i)) paused_resume_rule

abbrev pub same_field : ClaimField → ClaimField → Bool
same_field ClaimField.problem ClaimField.problem = true
same_field ClaimField.consequences ClaimField.consequences = true
same_field (ClaimField.other_field a) (ClaimField.other_field b) = a == b
same_field _ _ = false

abbrev pub is_confirmed_status : ClaimStatus → Bool
is_confirmed_status ClaimStatus.customer_confirmed = true
is_confirmed_status ClaimStatus.tested = true
is_confirmed_status _ = false

-- `upsertDealClaim`: a deal has one claim of each field, and a newer one takes its place.
unfoldable pub upsert_deal_claim : Claim → List Claim → List Claim
upsert_deal_claim c [] = c ∷ []
upsert_deal_claim c (x ∷ xs) =
    let rest = upsert_deal_claim c xs in
    if same_field x.field_key c.field_key then c ∷ xs else x ∷ rest

unfoldable pub confirmed : ClaimField → List Claim → Bool
confirmed key = any (λ c. same_field c.field_key key && is_confirmed_status c.status)

unfoldable pub enters_qualified : TransitionInput → Bool
enters_qualified i =
    (is_milestone i.to_stage.semantic_type || i.to_stage.is_won)
    && not (is_won_semantic i.to_stage.semantic_type)

unfoldable pub qualification_rules : TransitionInput → List Rule
unfolding soft
qualification_rules i =
    soft i (not (confirmed problem i.claims)) qualified_problem
    ++ soft i (not (confirmed consequences i.claims)) qualified_consequences
    ++ soft i (is_missing i.deal.problem_statement) content_problem
    ++ soft i (is_missing i.deal.consequences_text) content_consequences
    ++ soft i (is_missing i.deal.next_agreed_step) content_step
    ++ soft i (not i.has_process_owner_role) qualified_owner

unfoldable pub offer_rules : TransitionInput → List Rule
unfolding soft
offer_rules i =
    soft i (is_offer_semantic i.to_stage.semantic_type && not i.has_approved_or_sent_draft)
      proposal_version

unfoldable pub enters_won : TransitionInput → Bool
enters_won i = i.to_stage.is_won || is_won_semantic i.to_stage.semantic_type

unfoldable pub won_basis_of : TransitionInput → Option Text
won_basis_of i = i.request_won_basis <|> i.deal.won_basis

unfoldable pub won_rules : TransitionInput → List Rule
unfolding soft
won_rules i = soft i (enters_won i && is_missing (won_basis_of i)) won_basis_rule

unfoldable pub evaluate_transition : TransitionInput → List Rule
evaluate_transition i =
    lost_rules i
    ++ (paused_rules i
        ++ ((if enters_qualified i then qualification_rules i else [])
            ++ (offer_rules i ++ won_rules i)))
