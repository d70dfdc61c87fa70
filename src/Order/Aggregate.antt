-- ===== src/Order/Aggregate.antt =====
-- internal/domain/order/order.go: the order and its methods. A method that mutates `*Order` returns
-- the new record with its error; `time.Now()` is the argument `now`.
use uniedit_server.Common.{
  ℕ, String, String_Eq, Bool, false, not, ◌==◌, ltb, if◌then◌else◌, ℤ, pos, add64, sub64, List, [],
  ◌∷◌, ◌++◌, Option, none, some, Result, ok, err, ℕ_Eq,
}
use uniedit_server.Order.Errors.{
  OrderError, empty_user_id, empty_order_no, invalid_order_type, not_pending, invalid_transition,
}
use uniedit_server.Order.Money.{Money, new_money, default_currency}
use uniedit_server.Order.Status.{
  OrderStatus, pending, paid, canceled, refunded, failed, OrderStatus_Eq, OrderType, type_is_valid,
  can_transition_to,
}
use uniedit_server.Order.Item.{OrderItem, item_amount, set_order_id}

pub record Order : Type 0 where
  pub id : ℕ
  pub order_no : String
  pub user_id : ℕ
  pub order_type : OrderType
  pub status : OrderStatus
  pub subtotal : Money
  pub discount : Money
  pub tax : Money
  pub total : Money
  pub plan_id : Option String
  pub credits_amount : ℤ
  pub stripe_payment_intent_id : String
  pub stripe_invoice_id : String
  pub paid_at : Option ℕ
  pub canceled_at : Option ℕ
  pub refunded_at : Option ℕ
  pub expires_at : Option ℕ
  pub created_at : ℕ
  pub updated_at : ℕ
  pub items : List OrderItem

blank_order : ℕ → ℕ → ℕ → String → OrderType → String → Order
blank_order new_id now user_id order_no order_type currency = record {
  id = new_id;
  order_no = order_no;
  user_id = user_id;
  order_type = order_type;
  status = pending;
  subtotal = new_money (pos 0) currency;
  discount = new_money (pos 0) currency;
  tax = new_money (pos 0) currency;
  total = new_money (pos 0) currency;
  plan_id = none;
  credits_amount = pos 0;
  stripe_payment_intent_id = "";
  stripe_invoice_id = "";
  paid_at = none;
  canceled_at = none;
  refunded_at = none;
  expires_at = none;
  created_at = now;
  updated_at = now;
  items = [];
}

unfoldable pub new_order : ℕ → ℕ → ℕ → String → OrderType → String → Result OrderError Order
unfolding blank_order new_money type_is_valid
new_order new_id now user_id order_no order_type currency =
    if user_id == 0
    then err empty_user_id
    else if order_no == ""
    then err empty_order_no
    else if not (type_is_valid order_type)
    then err invalid_order_type
    else ok (
        blank_order new_id now user_id order_no order_type
          (if currency == "" then default_currency else currency))

unfoldable pub is_pending : Order → Bool
is_pending o = o.status == pending

unfoldable pub is_paid : Order → Bool
is_paid o = o.status == paid

-- `time.Now().After(*o.expiresAt)`.
unfoldable pub is_expired : Order → ℕ → Bool
is_expired o now = elim o.expires_at [ none ↦ false | some t ↦ ltb t now ]

-- The loop of `recalculateTotals`.
unfoldable pub sum_items : ℤ → List OrderItem → ℤ
sum_items subtotal [] = subtotal
sum_items subtotal (i ∷ items) = sum_items (add64 subtotal (item_amount i).amount) items

unfoldable pub recalculate_totals : Order → Order
recalculate_totals o =
    let subtotal = sum_items (pos 0) o.items in
    let p = record o { subtotal = new_money subtotal o.total.currency } in
    record p {
      total = new_money (add64 (sub64 subtotal p.discount.amount) p.tax.amount) p.total.currency;
    }

unfoldable pub add_item : Order → OrderItem → ℕ → Order × Option OrderError
add_item o item now = if not (is_pending o) then (o, some not_pending) else (
  record (recalculate_totals (record o { items = o.items ++ set_order_id item o.id ∷ [] })) {
    updated_at = now;
  },
  none,
)

unfoldable pub mark_as_paid : Order → ℕ → Order × Option OrderError
mark_as_paid o now =
    if not (can_transition_to o.status paid)
    then (o, some invalid_transition)
    else (record o { status = paid; paid_at = some now; updated_at = now }, none)

unfoldable pub cancel : Order → ℕ → Order × Option OrderError
cancel o now =
    if not (can_transition_to o.status canceled)
    then (o, some invalid_transition)
    else (record o { status = canceled; canceled_at = some now; updated_at = now }, none)

unfoldable pub mark_as_failed : Order → ℕ → Order × Option OrderError
mark_as_failed o now =
    if not (can_transition_to o.status failed)
    then (o, some invalid_transition)
    else (record o { status = failed; updated_at = now }, none)

unfoldable pub refund : Order → ℕ → Order × Option OrderError
refund o now =
    if not (can_transition_to o.status refunded)
    then (o, some invalid_transition)
    else (record o { status = refunded; refunded_at = some now; updated_at = now }, none)

unfoldable pub set_stripe_payment_intent_id : Order → String → ℕ → Order
set_stripe_payment_intent_id o id now = record o { stripe_payment_intent_id = id; updated_at = now }

unfoldable pub set_stripe_invoice_id : Order → String → ℕ → Order
set_stripe_invoice_id o id now = record o { stripe_invoice_id = id; updated_at = now }

unfoldable pub set_plan_id : Order → String → ℕ → Order
set_plan_id o plan_id now = record o { plan_id = some plan_id; updated_at = now }

unfoldable pub set_credits_amount : Order → ℤ → ℕ → Order
set_credits_amount o amount now = record o { credits_amount = amount; updated_at = now }

unfoldable pub set_expiration : Order → ℕ → ℕ → Order
set_expiration o expires_at now = record o { expires_at = some expires_at; updated_at = now }

unfoldable pub set_totals : Order → ℤ → ℤ → ℤ → ℤ → ℕ → Order
set_totals o subtotal discount tax total now =
    let currency = o.total.currency in
    record o {
      subtotal = new_money subtotal currency;
      discount = new_money discount currency;
      tax = new_money tax currency;
      total = new_money total currency;
      updated_at = now;
    }
