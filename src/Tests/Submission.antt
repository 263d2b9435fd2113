-- ===== src/Tests/Submission.antt =====
-- A submission with a key, and the same again.
use vanguard_settlement_engi.Base.{
  String, true, false, none, some, [], ◌∷◌, refl, trim, to_lower, js_length, ◌≡◌, str_eq,
  if◌then◌else◌,
}
use vanguard_settlement_engi.Domain.{JwtPayload, OrgRole, submitted}
use vanguard_settlement_engi.Database.Session.{
  World, request_on, pool_query, client_query, connect, begin_tx, commit_tx, rollback_tx, enqueue,
}
use vanguard_settlement_engi.Repositories.Invoices
use vanguard_settlement_engi.Repositories.Events
use vanguard_settlement_engi.Repositories.Organisations
use vanguard_settlement_engi.Invoice.StateMachine.{
  is_valid_transition, valid_transitions, assert_valid_transition,
}
use vanguard_settlement_engi.Invoice.Service
use vanguard_settlement_engi.Invoice.Service.{submit_invoice}
use vanguard_settlement_engi.Api.Authenticate.{
  Verified, valid, token_expired, Request, authenticate, require_role,
}
use vanguard_settlement_engi.Api.Idempotency.{
  with_scope, idempotency_guard, try_insert, on_response, mark_completed,
}
use vanguard_settlement_engi.Api.Schemas.{SubmitInvoiceBody, CurrencyField, parse_submission}
use vanguard_settlement_engi.Api.Routes.{success}
use vanguard_settlement_engi.Api.Routes.Submission.{
  Answer, Rows, Circumstances, replay, submit_handler, guarded_submit, post_submit,
}
use vanguard_settlement_engi.Tests.Samples.{start, given, invoice_with}

abbrev verify : String → Verified
verify token =
    if str_eq token "s"
    then valid (record { sub = 1; email = "s@s.in"; role = OrgRole.supplier; org_id = 1 })
    else token_expired

abbrev supplier_user : JwtPayload
supplier_user = record { sub = 1; email = "s@s.in"; role = OrgRole.supplier; org_id = 1 }

abbrev unsigned_in : Request
unsigned_in = record { authorization = some "Bearer s"; user = none }

abbrev signed_in : Request
signed_in = record { authorization = some "Bearer s"; user = some supplier_user }

abbrev pub body : SubmitInvoiceBody
body = record {
  invoice_number = some "INV-1";
  buyer_id = some 2;
  amount_cents = some 100;
  currency = CurrencyField.missing;
  due_date = some 5000;
}

-- Another amount.
abbrev changed_body : SubmitInvoiceBody
changed_body = record body { amount_cents = some 1 }

-- No query of the guard fails, or the one behind the response.
abbrev pub undisturbed : Circumstances
undisturbed = record { others = []; faults = []; lost = false }

abbrev unread : Circumstances
unread = record { others = []; faults = false ∷ true ∷ []; lost = false }

abbrev first_answer : Answer × World × Rows
first_answer =
    post_submit verify body (given 10) undisturbed (some "k") unsigned_in (request_on start []) []

-- Sent again while nothing fails, it is answered with the first response.
replayed :
    (post_submit verify changed_body
      (given 11)
      undisturbed
      (some "k")
      unsigned_in
      (request_on start [])
      first_answer.2).0
    ≡ replay 201 (some (success 201 (invoice_with submitted)))
unfolding post_submit guarded_submit submit_handler authenticate require_role parse_submission
    idempotency_guard with_scope try_insert submit_invoice Service.submission is_valid_transition
    valid_transitions assert_valid_transition pool_query client_query connect begin_tx commit_tx
    rollback_tx Invoices.find_by_invoice_number Invoices.save Invoices.update_status
    Organisations.find_by_id Events.append enqueue trim to_lower js_length on_response
    mark_completed
replayed = refl
