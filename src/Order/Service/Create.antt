-- ===== src/Order/Service/Create.antt =====
-- internal/domain/order/domain.go: the creation of orders. Ids and the number of the order, which
-- are drawn at random, are arguments, and so are `time.Now()` and the texts that fmt makes.
use uniedit_server.Common.{
  ℕ, ◌+◌, ℤ, pos, le_ℤ, lt_ℤ, not, String, [], ◌∷◌, Option, none, some, Service, ◌>>=◌, ◌>>◌, give,
  require, call, found,
}
use uniedit_server.Billing.Plan.{Plan}
use uniedit_server.Order.Errors.{
  OrderError, minimum_topup_amount, free_plan_not_orderable, plan_not_found, plan_not_active,
  from_port,
}
use uniedit_server.Order.Status.{pending, OrderType, subscription, topup}
use uniedit_server.Order.Model.{Order, OrderItem}
use uniedit_server.Order.Ports.{Ports}

-- 30 minutes.
abbrev payment_window : ℕ
payment_window = 1800

-- A pending order for one amount.
abbrev new_row : ℕ → String → ℕ → ℕ → OrderType → ℤ → Option String → ℤ → Order
new_row new_id order_no now user_id order_type amount plan_id credits_amount = record {
  id = new_id;
  order_no = order_no;
  user_id = user_id;
  order_type = order_type;
  status = pending;
  subtotal = amount;
  discount = pos 0;
  tax = pos 0;
  total = amount;
  currency = "usd";
  plan_id = plan_id;
  credits_amount = credits_amount;
  stripe_payment_intent_id = "";
  stripe_invoice_id = "";
  paid_at = none;
  canceled_at = none;
  refunded_at = none;
  expires_at = some (now + payment_window);
  created_at = now;
  updated_at = now;
  items = [];
}

abbrev pub only_item : ℕ → ℕ → String → ℤ → OrderItem
only_item item_id order_id description amount = record {
  id = item_id;
  order_id = order_id;
  description = description;
  quantity = pos 1;
  unit_price = amount;
  amount = amount;
}

-- The order of a top-up.
abbrev pub topup_row : ℕ → String → ℕ → ℕ → ℤ → Order
topup_row new_id order_no now user_id amount =
    new_row new_id order_no now user_id topup amount none amount

module _ {W : Type 0} (d : Ports W) where
  -- Store the order, then its item, and return the two together.
  abbrev store : Order → OrderItem → Service W OrderError Order
  store order item = do
    call from_port (d.create order)
    call from_port (d.create_batch (item ∷ []))
    give (record order { items = item ∷ [] })

  unfoldable pub create_subscription_order :
      (Plan → String) → ℕ → ℕ → String → ℕ → ℕ → String → Service W OrderError Order
  create_subscription_order plan_text new_id item_id order_no now user_id plan_id = do
    plan ← found (← call from_port (d.get_plan_by_id plan_id)) plan_not_found
    require plan.active plan_not_active
    require (not (le_ℤ plan.price_usd (pos 0))) free_plan_not_orderable
    store (new_row new_id order_no now user_id subscription plan.price_usd (some plan_id) (pos 0))
        (only_item item_id new_id (plan_text plan) plan.price_usd)

  unfoldable pub create_topup_order :
      (ℤ → String) → ℕ → ℕ → String → ℕ → ℕ → ℤ → Service W OrderError Order
  create_topup_order topup_text new_id item_id order_no now user_id amount = do
    require (not (lt_ℤ amount (pos 100))) minimum_topup_amount
    store (topup_row new_id order_no now user_id amount)
        (only_item item_id new_id (topup_text amount) amount)
