-- ===== src/App/OrderReader.antt =====
-- internal/app/app.go: `orderReaderAdapter`, the orders as the payment service reads them. The ids,
-- the number and the time that an order operation draws are arguments, and so is the text of an error.
use uniedit_server.Common.{
  ℕ, String, String_Eq, ◌==◌, Option, none, some, if◌then◌else◌, Result, ok, err, Port, Service,
  Reply, returns, fails_with, panics, ◌>>=◌, give,
}
use uniedit_server.Order.Errors.{OrderError}
use uniedit_server.Order.Status.{
  OrderStatus, OrderType, pending, paid, canceled, refunded, failed, other, subscription, topup,
  upgrade, other_type,
}
use uniedit_server.Order.Model.{Order}
use uniedit_server.Order.Ports.{Ports}
use uniedit_server.Order.Service.Transitions.{
  get_order, get_order_by_payment_intent_id, mark_as_paid, mark_as_failed, cancel_order,
  mark_as_refunded, set_stripe_payment_intent_id,
}
use uniedit_server.Payment.Ports.{PaymentOrderInfo}

-- `string(ord.Type)`.
abbrev pub type_text : OrderType → String
type_text subscription = "subscription"
type_text topup = "topup"
type_text upgrade = "upgrade"
type_text (other_type s) = s

-- `string(ord.Status)`.
abbrev pub status_text : OrderStatus → String
status_text pending = "pending"
status_text paid = "paid"
status_text canceled = "canceled"
status_text refunded = "refunded"
status_text failed = "failed"
status_text (other s) = s

abbrev text_or_empty : Option String → String
text_or_empty none = ""
text_or_empty (some s) = s

unfoldable pub order_info : Order → PaymentOrderInfo
order_info o = record {
  id = o.id;
  user_id = o.user_id;
  order_type = type_text o.order_type;
  status = status_text o.status;
  total = o.total;
  currency = o.currency;
  credits_amount = o.credits_amount;
  plan_id = text_or_empty o.plan_id;
}

module _ {W : Type 0} where
  abbrev reply_result : {E A : Type 0} → (E → String) → Reply E A × W → Result String A × W
  reply_result text (returns a, w) = (ok a, w)
  reply_result text (fails_with e, w) = (err (text e), w)
  reply_result text (panics, w) = (err "panic", w)

  -- A service as another service's port. Neither the order service nor that of billing, in the
  -- operations passed on here, dereferences nil.
  abbrev pub as_port : {E A : Type 0} → (E → String) → Service W E A → Port W A
  as_port text m w = reply_result text (m w)

  module _ (text : OrderError → String) (d : Ports W) where
    unfoldable pub read_order : ℕ → Port W PaymentOrderInfo
    read_order id = as_port text (do o ← get_order d id; give (order_info o))

    unfoldable pub read_order_by_payment_intent_id : String → Port W PaymentOrderInfo
    read_order_by_payment_intent_id intent_id =
        as_port text (do o ← get_order_by_payment_intent_id d intent_id; give (order_info o))

    unfoldable pub update_order_status : ℕ → String → ℕ → ℕ → String → Port W (Unit {0})
    update_order_status invoice_id invoice_no now id status w =
        if status == "paid"
        then as_port text (mark_as_paid d invoice_id invoice_no now id) w
        else if status == "failed"
        then as_port text (mark_as_failed d now id) w
        else if status == "canceled"
        then as_port text (cancel_order d now id) w
        else if status == "refunded"
        then as_port text (mark_as_refunded d now id) w
        else (err "unsupported status", w)

    unfoldable pub set_intent_id : ℕ → ℕ → String → Port W (Unit {0})
    set_intent_id now id intent_id = as_port text (set_stripe_payment_intent_id d now id intent_id)
