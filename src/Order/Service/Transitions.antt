-- ===== src/Order/Service/Transitions.antt =====
-- internal/domain/order/domain.go: lookups, the transitions of an order, its invoice, and the orders
-- that expire. Ids, the numbers of invoices and `time.Now()` are arguments, and calls of the logger are left out.
use uniedit_server.Common.{
  ℕ, String, List, [], ◌∷◌, if◌then◌else◌, Option, some, Result, ok, Service, Reply, returns, ◌>>=◌,
  ◌>>◌, give, require, try, call, found,
}
use uniedit_server.Order.Errors.{
  OrderError, order_not_found, invalid_transition, not_cancelable, not_refundable, not_paid,
  invoice_not_found, from_port,
}
use uniedit_server.Order.Status.{paid, canceled, refunded, failed, can_transition_to}
use uniedit_server.Order.Model.{Order, Invoice, is_paid}
use uniedit_server.Order.Ports.{Ports}

abbrev pub paid_order : Order → ℕ → Order
paid_order o now = record o { status = paid; paid_at = some now; updated_at = now }

abbrev pub failed_order : Order → ℕ → Order
failed_order o now = record o { status = failed; updated_at = now }

abbrev pub canceled_order : Order → ℕ → Order
canceled_order o now = record o { status = canceled; canceled_at = some now; updated_at = now }

abbrev pub refunded_order : Order → ℕ → Order
refunded_order o now = record o { status = refunded; refunded_at = some now; updated_at = now }

-- The invoice of a paid order.
abbrev pub invoice_of : ℕ → String → ℕ → ℕ → Order → Invoice
invoice_of new_id invoice_no now order_id o = record {
  id = new_id;
  invoice_no = invoice_no;
  order_id = order_id;
  user_id = o.user_id;
  amount = o.total;
  currency = o.currency;
  status = "paid";
  pdf_url = "";
  stripe_invoice_id = "";
  issued_at = now;
  due_at = now;
  paid_at = o.paid_at;
  created_at = now;
}

module _ {W : Type 0} (d : Ports W) where
  -- `orderDB.GetByID`, and its two ways to find no order.
  abbrev stored_order : ℕ → Service W OrderError Order
  stored_order order_id = do o ← call from_port (d.get_by_id order_id); found o order_not_found

  unfoldable pub get_order : ℕ → Service W OrderError Order
  get_order order_id = do
    o ← call from_port (d.get_by_id_with_items order_id)
    found o order_not_found

  unfoldable pub get_order_by_payment_intent_id : String → Service W OrderError Order
  get_order_by_payment_intent_id intent_id = do
    o ← call from_port (d.get_by_payment_intent_id intent_id)
    found o order_not_found

  -- The invoice that `GetByOrderID` finds without an error, or a new one.
  abbrev existing_or : Result String (Option Invoice) → Invoice → Service W OrderError Invoice
  existing_or (ok (some i)) new = give i
  existing_or _ new = do call from_port (d.create_invoice new); give new

  unfoldable pub generate_invoice : ℕ → String → ℕ → ℕ → Service W OrderError Invoice
  generate_invoice new_id invoice_no now order_id = do
    o ← stored_order order_id
    require (is_paid o) not_paid
    existing ← try (d.get_invoice_by_order_id order_id)
    existing_or existing (invoice_of new_id invoice_no now order_id o)

  unfoldable pub get_invoice : ℕ → Service W OrderError Invoice
  get_invoice invoice_id = do
    i ← call from_port (d.get_invoice_by_id invoice_id)
    found i invoice_not_found

  -- An error of `GenerateInvoice` is logged and dropped.
  abbrev dropped : Reply OrderError Invoice × W → Reply OrderError (Unit {0}) × W
  dropped (r, w) = (returns tt, w)

  unfoldable pub mark_as_paid : ℕ → String → ℕ → ℕ → Service W OrderError (Unit {0})
  mark_as_paid new_id invoice_no now order_id = do
    o ← stored_order order_id
    require (can_transition_to o.status paid) invalid_transition
    call from_port (d.update (paid_order o now))
    λ w. dropped (generate_invoice new_id invoice_no now order_id w)

  unfoldable pub mark_as_failed : ℕ → ℕ → Service W OrderError (Unit {0})
  mark_as_failed now order_id = do
    o ← stored_order order_id
    require (can_transition_to o.status failed) invalid_transition
    call from_port (d.update (failed_order o now))

  unfoldable pub cancel_order : ℕ → ℕ → Service W OrderError (Unit {0})
  cancel_order now order_id = do
    o ← stored_order order_id
    require (can_transition_to o.status canceled) not_cancelable
    call from_port (d.update (canceled_order o now))

  unfoldable pub mark_as_refunded : ℕ → ℕ → Service W OrderError (Unit {0})
  mark_as_refunded now order_id = do
    o ← stored_order order_id
    require (can_transition_to o.status refunded) not_refundable
    call from_port (d.update (refunded_order o now))

  unfoldable pub set_stripe_payment_intent_id : ℕ → ℕ → String → Service W OrderError (Unit {0})
  set_stripe_payment_intent_id now order_id intent_id = do
    o ← stored_order order_id
    call from_port (d.update (record o { stripe_payment_intent_id = intent_id; updated_at = now }))

  -- The loop over the orders; an update that fails is logged and dropped.
  unfoldable pub expire_each : ℕ → List Order → Service W OrderError (Unit {0})
  expire_each now [] = give tt
  expire_each now (o ∷ orders) =
      let rest = expire_each now orders in
      if can_transition_to o.status failed
      then (do _ ← try (d.update (failed_order o now)); rest)
      else rest

  unfoldable pub expire_pending_orders : ℕ → Service W OrderError (Unit {0})
  expire_pending_orders now = do
    orders ← call from_port d.list_pending_expired
    expire_each now orders
