-- ===== src/Order/Service/Refinement.antt =====
-- The transitions of the service against those of the aggregate.
use uniedit_server.Common.{
  ◌≡◌, refl, ℕ, String, String_Eq, Bool-cases, inl, inr, List, [], ◌∷◌, Option, none, some, ok,
  Reply, fails_with, call,
}
use uniedit_server.Order.Errors.{
  OrderError, invalid_transition, not_cancelable, not_refundable, from_port,
}
use uniedit_server.Order.Status.{canceled, failed, refunded, can_transition_to}
use uniedit_server.Order.Money.{new_money}
use uniedit_server.Order.Item.{OrderItem, restore_order_item}
use uniedit_server.Order.Aggregate.{Order, cancel, mark_as_failed, refund}
use uniedit_server.Order.Model
use uniedit_server.Order.Ports.{Ports}
use uniedit_server.Order.Service.Transitions.{
  cancel_order, mark_as_refunded, canceled_order, failed_order, refunded_order,
}
use uniedit_server.Order.Service.Transitions

abbrev restore_item : String → Model.OrderItem → OrderItem
restore_item currency i =
    restore_order_item i.id i.order_id i.description i.quantity i.unit_price currency

abbrev restore_items : String → List Model.OrderItem → List OrderItem
restore_items currency [] = []
restore_items currency (i ∷ items) = restore_item currency i ∷ restore_items currency items

-- `RestoreOrder`, on the fields of a row.
unfoldable pub restore_order : Model.Order → Order
restore_order o = record {
  id = o.id;
  order_no = o.order_no;
  user_id = o.user_id;
  order_type = o.order_type;
  status = o.status;
  subtotal = new_money o.subtotal o.currency;
  discount = new_money o.discount o.currency;
  tax = new_money o.tax o.currency;
  total = new_money o.total o.currency;
  plan_id = o.plan_id;
  credits_amount = o.credits_amount;
  stripe_payment_intent_id = o.stripe_payment_intent_id;
  stripe_invoice_id = o.stripe_invoice_id;
  paid_at = o.paid_at;
  canceled_at = o.canceled_at;
  refunded_at = o.refunded_at;
  expires_at = o.expires_at;
  created_at = o.created_at;
  updated_at = o.updated_at;
  items = restore_items o.currency o.items;
}

module _ {W : Type 0} (d : Ports W) where
  -- To follow an answer of the aggregate: for an error to return the error `e` and write nothing, and
  -- else to write a row that restores to the new order and return what the write returns.
  abbrev pub Follows :
      OrderError → Order × Option OrderError → W → Reply OrderError (Unit {0}) × W → Type 0
  Follows e (t, some _) w r = r ≡ (fails_with e, w)
  Follows e (t, none) w r =
      (q : Model.Order) × (restore_order q ≡ t) × (r ≡ call from_port (d.update q) w)

  -- On an order that is found, `CancelOrder`, `MarkAsFailed` and `MarkAsRefunded` of the service follow
  -- `Cancel`, `MarkAsFailed` and `Refund` of the aggregate on the restored order, each with its own error.
  pub transitions_follow :
      (now order_id : ℕ) (o : Model.Order) (w w' : W)
      → d.get_by_id order_id w ≡ (ok (some o), w')
      → Follows not_cancelable (cancel (restore_order o) now) w' (cancel_order d now order_id w)
        × Follows invalid_transition
            (mark_as_failed (restore_order o) now)
            w'
            (Transitions.mark_as_failed d now order_id w)
        × Follows not_refundable
            (refund (restore_order o) now)
            w'
            (mark_as_refunded d now order_id w)
  unfolding cancel mark_as_failed refund cancel_order Transitions.mark_as_failed mark_as_refunded
      restore_order
  transitions_follow now order_id o w w' e = (
    elim (Bool-cases (can_transition_to o.status canceled)) [
      | inl t ↦ rw (e, t) (canceled_order o now, refl, refl)
      | inr f ↦ rw (e, f) refl
    ],
    elim (Bool-cases (can_transition_to o.status failed)) [
      | inl t ↦ rw (e, t) (failed_order o now, refl, refl)
      | inr f ↦ rw (e, f) refl
    ],
    elim (Bool-cases (can_transition_to o.status refunded)) [
      | inl t ↦ rw (e, t) (refunded_order o now, refl, refl)
      | inr f ↦ rw (e, f) refl
    ],
  )
