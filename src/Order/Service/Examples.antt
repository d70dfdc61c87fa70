-- ===== src/Order/Service/Examples.antt =====
-- The order service over a database of one order and one invoice.
use uniedit_server.Common.{
  ◌≡◌, refl, ℤ, pos, String, String_Eq, List, [], ◌∷◌, Option, none, some, ok, returns, arith,
}
use uniedit_server.Order.Errors.{not_cancelable, not_refundable, invalid_transition}
use uniedit_server.Order.Status.{paid, OrderStatus_Eq}
use uniedit_server.Order.Aggregate.{cancel, mark_as_failed, refund}
use uniedit_server.Order.Model.{Order, Invoice}
use uniedit_server.Order.Ports.{Ports}
use uniedit_server.Order.Service.Create.{topup_row}
use uniedit_server.Order.Service.Transitions.{
  cancel_order, mark_as_refunded, generate_invoice, invoice_of, expire_pending_orders,
}
use uniedit_server.Order.Service.Transitions
use uniedit_server.Order.Service.Refinement.{restore_order, Follows, transitions_follow}
use uniedit_server.Order.Service.Invoices.{StoresInvoices}
use uniedit_server.Order.Service.Expiry.{all_failed, expire_pending_orders-all_failed}

pub record Store : Type 0 where
  pub order : Option Order
  pub invoice : Option Invoice

abbrev listed : Option Order → List Order
listed none = []
listed (some o) = o ∷ []

abbrev pub memory : Ports Store
memory = record {
  create = λ o w. (ok tt, record w { order = some o });
  get_by_id = λ id w. (ok w.order, w);
  get_by_id_with_items = λ id w. (ok w.order, w);
  get_by_payment_intent_id = λ id w. (ok w.order, w);
  update = λ o w. (ok tt, record w { order = some o });
  list_pending_expired = λ w. (ok (listed w.order), w);
  create_batch = λ items w. (ok tt, w);
  create_invoice = λ i w. (ok tt, record w { invoice = some i });
  get_invoice_by_id = λ id w. (ok w.invoice, w);
  get_invoice_by_order_id = λ id w. (ok w.invoice, w);
  get_plan_by_id = λ id w. (ok none, w);
}

abbrev pub top_up : Order
top_up = topup_row 11 "ORD-1" 100 5 (pos 1500)

abbrev paid_top_up : Order
paid_top_up = record top_up { status = paid; paid_at = some 110; updated_at = 110 }

abbrev pub store : Order → Store
store o = record { order = some o; invoice = none }

transitions_follow_example :
    Follows memory not_cancelable
      (cancel (restore_order top_up) 120)
      (store top_up)
      (cancel_order memory 120 11 (store top_up))
    × Follows memory invalid_transition
        (mark_as_failed (restore_order top_up) 120)
        (store top_up)
        (Transitions.mark_as_failed memory 120 11 (store top_up))
    × Follows memory not_refundable
        (refund (restore_order top_up) 120)
        (store top_up)
        (mark_as_refunded memory 120 11 (store top_up))
transitions_follow_example =
    transitions_follow memory 120 11 top_up (store top_up) (store top_up) refl

memory-StoresInvoices : StoresInvoices memory
memory-StoresInvoices = record {
  create_found = λ i w w' e. ground arith;
  create_keeps = λ i id w w' e. ground arith;
  reads_keep = λ id w. refl;
}

abbrev invoice : Invoice
invoice = invoice_of 71 "INV-1" 111 11 paid_top_up

expire_pending_orders-all_failed_example :
    expire_pending_orders memory 2000 (store top_up)
    ≡ (returns tt, all_failed memory 2000 (top_up ∷ []) (store top_up))
expire_pending_orders-all_failed_example =
    expire_pending_orders-all_failed memory 2000 (top_up ∷ []) (store top_up) (store top_up) refl
      (refl, tt)

abbrev label : ℤ → String
label n = "Credits Top-up"
