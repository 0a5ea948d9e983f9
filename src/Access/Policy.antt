-- ===== src/Access/Policy.antt =====
-- `ROUTE_POLICY` of backend/src/modules/business/application/permissions.ts, in its order.
use oculus_business.Common.{List, [], ◌∷◌}
use oculus_business.Common.Text.{Text, lit}
use oculus_business.Access.{
  RouteRule, AgentAccess, capability, human, anyone, finance_confirm, deal_delete,
  subscription_manage, claim_confirm, draft_approve, pilot_decide,
}

abbrev rule : Text → Text → Text → AgentAccess → RouteRule
rule method path area access = record {
  method = method;
  path = path;
  area = area;
  agent_access = access;
}

unfoldable pub route_policy : List RouteRule
route_policy =
    rule (lit "POST") (lit "/api/crm/deals") (lit "crm.deals") anyone
    ∷ rule (lit "PATCH") (lit "/api/crm/deals/{id}") (lit "crm.deals") anyone
    ∷ rule (lit "POST") (lit "/api/crm/deals/{id}/move") (lit "crm.deals") anyone
    ∷ rule (lit "DELETE") (lit "/api/crm/deals/{id}") (lit "crm.deals") (capability deal_delete)
    ∷ rule (lit "POST") (lit "/api/crm/stages") (lit "crm.stages") human
    ∷ rule (lit "PATCH") (lit "/api/crm/stages/{id}") (lit "crm.stages") human
    ∷ rule (lit "DELETE") (lit "/api/crm/stages/{id}") (lit "crm.stages") human
    ∷ rule (lit "POST") (lit "/api/crm/companies") (lit "crm.companies") anyone
    ∷ rule (lit "PATCH") (lit "/api/crm/companies/{id}") (lit "crm.companies") anyone
    ∷ rule (lit "POST") (lit "/api/crm/companies/{id}/dnc") (lit "crm.dnc") anyone
    ∷ rule (lit "POST") (lit "/api/crm/companies/{id}/dnc/lift") (lit "crm.dnc") human
    ∷ rule (lit "POST") (lit "/api/crm/contacts") (lit "crm.contacts") anyone
    ∷ rule (lit "PATCH") (lit "/api/crm/contacts/{id}") (lit "crm.contacts") anyone
    ∷ rule (lit "POST") (lit "/api/crm/contacts/{id}/dnc") (lit "crm.dnc") anyone
    ∷ rule (lit "POST") (lit "/api/crm/contacts/{id}/dnc/lift") (lit "crm.dnc") human
    ∷ rule (lit "POST") (lit "/api/crm/contacts/{id}/channels") (lit "crm.contacts") anyone
    ∷ rule (lit "PATCH") (lit "/api/crm/channels/{id}") (lit "crm.contacts") anyone
    ∷ rule (lit "PUT") (lit "/api/crm/deals/{id}/claims") (lit "crm.claims")
        (capability claim_confirm)
    ∷ rule (lit "PUT") (lit "/api/crm/deals/{id}/contact-roles") (lit "crm.roles") anyone
    ∷ rule (lit "POST") (lit "/api/crm/companies/{id}/facts") (lit "crm.facts") anyone
    ∷ rule (lit "POST") (lit "/api/crm/activities") (lit "crm.activities") anyone
    ∷ rule (lit "POST") (lit "/api/crm/activities/{id}/processed") (lit "crm.activities") anyone
    ∷ rule (lit "POST") (lit "/api/crm/tasks") (lit "crm.tasks") anyone
    ∷ rule (lit "PATCH") (lit "/api/crm/tasks/{id}") (lit "crm.tasks") anyone
    ∷ rule (lit "POST") (lit "/api/crm/drafts") (lit "crm.drafts") anyone
    ∷ rule (lit "PATCH") (lit "/api/crm/drafts/{id}") (lit "crm.drafts") anyone
    ∷ rule (lit "POST") (lit "/api/crm/drafts/{id}/review") (lit "crm.drafts")
        (capability draft_approve)
    ∷ rule (lit "POST") (lit "/api/crm/drafts/{id}/approve") (lit "crm.drafts")
        (capability draft_approve)
    ∷ rule (lit "POST") (lit "/api/crm/drafts/{id}/send") (lit "crm.drafts")
        (capability draft_approve)
    ∷ rule (lit "POST") (lit "/api/crm/drafts/{id}/delivered") (lit "crm.drafts")
        (capability draft_approve)
    ∷ rule (lit "POST") (lit "/api/crm/drafts/{id}/cancel") (lit "crm.drafts") anyone
    ∷ rule (lit "PUT") (lit "/api/crm/deals/{id}/pilot") (lit "crm.pilot") anyone
    ∷ rule (lit "POST") (lit "/api/crm/deals/{id}/pilot/activate") (lit "crm.pilot") anyone
    ∷ rule (lit "POST") (lit "/api/crm/deals/{id}/pilot/decision") (lit "crm.pilot")
        (capability pilot_decide)
    ∷ rule (lit "POST") (lit "/api/crm/deals/{id}/pilot/criteria") (lit "crm.pilot") anyone
    ∷ rule (lit "PATCH") (lit "/api/crm/pilot-criteria/{id}") (lit "crm.pilot") anyone
    ∷ rule (lit "POST") (lit "/api/crm/pilot-criteria/{id}/agree") (lit "crm.pilot")
        (capability claim_confirm)
    ∷ rule (lit "POST") (lit "/api/crm/deals/{id}/pilot/milestones") (lit "crm.pilot") anyone
    ∷ rule (lit "PATCH") (lit "/api/crm/pilot-milestones/{id}") (lit "crm.pilot") anyone
    ∷ rule (lit "PUT") (lit "/api/crm/deals/{id}/launch") (lit "crm.launch") anyone
    ∷ rule (lit "POST") (lit "/api/crm/deals/{id}/extension") (lit "crm.launch") anyone
    ∷ rule (lit "PUT") (lit "/api/crm/deals/{id}/partner") (lit "crm.partner") anyone
    ∷ rule (lit "POST") (lit "/api/crm/import/preview") (lit "crm.import") anyone
    ∷ rule (lit "POST") (lit "/api/crm/import/apply") (lit "crm.import") anyone
    ∷ rule (lit "POST") (lit "/api/finance/txns") (lit "finance.txns") (capability finance_confirm)
    ∷ rule (lit "PATCH") (lit "/api/finance/txns/{id}") (lit "finance.txns")
        (capability finance_confirm)
    ∷ rule (lit "DELETE") (lit "/api/finance/txns/{id}") (lit "finance.txns")
        (capability finance_confirm)
    ∷ rule (lit "POST") (lit "/api/finance/recurring") (lit "finance.recurring")
        (capability finance_confirm)
    ∷ rule (lit "PATCH") (lit "/api/finance/recurring/{id}") (lit "finance.recurring")
        (capability finance_confirm)
    ∷ rule (lit "DELETE") (lit "/api/finance/recurring/{id}") (lit "finance.recurring")
        (capability finance_confirm)
    ∷ rule (lit "PUT") (lit "/api/finance/settings") (lit "finance.settings")
        (capability finance_confirm)
    ∷ rule (lit "POST") (lit "/api/finance/expected") (lit "finance.expected")
        (capability finance_confirm)
    ∷ rule (lit "PATCH") (lit "/api/finance/expected/{id}") (lit "finance.expected")
        (capability finance_confirm)
    ∷ rule (lit "DELETE") (lit "/api/finance/expected/{id}") (lit "finance.expected")
        (capability finance_confirm)
    ∷ rule (lit "POST") (lit "/api/finance/expected/{id}/received") (lit "finance.expected")
        (capability finance_confirm)
    ∷ rule (lit "POST") (lit "/api/finance/expected/{id}/receipts") (lit "finance.expected")
        (capability finance_confirm)
    ∷ rule (lit "POST") (lit "/api/finance/expected/{id}/receipts/{txnId}/reverse")
        (lit "finance.expected") (capability finance_confirm)
    ∷ rule (lit "POST") (lit "/api/finance/deals/{id}/subscription") (lit "finance.subscription")
        (capability subscription_manage)
    ∷ []
