-- ===== src/App/Examples.antt =====
-- Payments through orders and billing in memory: one order, its invoice and one subscription.
use uniedit_server.Common.{
  ◌≡◌, refl, ℕ, pos, add64, false, String_Eq, [], Option, none, some, ok, err, returns, panics,
  arith,
}
use uniedit_server.Order.Status.{OrderStatus_Eq, pending, paid, topup}
use uniedit_server.Order.Model.{Order, Invoice, is_paid}
use uniedit_server.Order.Ports.{Ports as OrderPorts}
use uniedit_server.Order.Service.Transitions.{generate_invoice}
use uniedit_server.Billing.Ports.{Ports as BillingPorts}
use uniedit_server.Billing.Status.{active}
use uniedit_server.Billing.Subscription.{Subscription}
use uniedit_server.Payment.Aggregate.{Payment}
use uniedit_server.Payment.Status
use uniedit_server.Payment.Ports.{Ports as PaymentPorts}
use uniedit_server.Payment.Service.Stripe.{settle}
use uniedit_server.Payment.Service.Create.{create_payment_intent}
use uniedit_server.App.OrderReader.{order_info}
use uniedit_server.App.Payments.{Draws, with_readers, provide_payment_domain}
use uniedit_server.App.Settled.{settle_topup, create_payment_intent_panics}

pub record World : Type 0 where
  pub order : Option Order
  pub invoice : Option Invoice
  pub subscription : Option Subscription

abbrev orders : OrderPorts World
orders = record {
  create = λ o w. (ok tt, record w { order = some o });
  get_by_id = λ id w. (ok w.order, w);
  get_by_id_with_items = λ id w. (ok w.order, w);
  get_by_payment_intent_id = λ id w. (ok w.order, w);
  update = λ o w. (ok tt, record w { order = some o });
  list_pending_expired = λ w. (ok [], w);
  create_batch = λ items w. (ok tt, w);
  create_invoice = λ i w. (ok tt, record w { invoice = some i });
  get_invoice_by_id = λ id w. (ok w.invoice, w);
  get_invoice_by_order_id = λ id w. (ok w.invoice, w);
  get_plan_by_id = λ id w. (ok none, w);
}

abbrev subscriptions : BillingPorts World ℕ
subscriptions = record {
  get_plan_by_id = λ id w. (ok none, w);
  create = λ s w. (ok tt, record w { subscription = some s });
  get_by_user_id = λ id w. (ok w.subscription, w);
  get_by_user_id_with_plan = λ id w. (ok w.subscription, w);
  get_by_stripe_id = λ id w. (ok w.subscription, w);
  update = λ s w. (ok tt, record w { subscription = some s });
  create_usage = λ r w. (ok tt, w);
  get_monthly_tokens = λ id start w. (ok (pos 0), w);
  get_daily_requests = λ id now w. (ok (pos 0), w);
  get_tokens_used = λ id start w. (ok (pos 0), w);
  increment_tokens = λ id start end n w. (ok n, w);
  get_requests_today = λ id w. (ok (pos 0), w);
  increment_requests = λ id w. (ok (pos 1), w);
  reset_tokens = λ id start w. (ok tt, w);
}

abbrev draws : Draws
draws = record {
  order_text = λ e. "order";
  billing_text = λ e. "billing";
  invoice_id = 71;
  invoice_no = "INV-1";
  now = 120;
}

abbrev top_up : Order
top_up = record {
  id = 11;
  order_no = "ORD-1";
  user_id = 5;
  order_type = topup;
  status = pending;
  subtotal = pos 1500;
  discount = pos 0;
  tax = pos 0;
  total = pos 1500;
  currency = "usd";
  plan_id = none;
  credits_amount = pos 1500;
  stripe_payment_intent_id = "";
  stripe_invoice_id = "";
  paid_at = none;
  canceled_at = none;
  refunded_at = none;
  expires_at = some 1900;
  created_at = 100;
  updated_at = 100;
  items = [];
}

abbrev paid_top_up : Order
paid_top_up = record top_up { status = paid; paid_at = some 120; updated_at = 120 }

abbrev member : Subscription
member = record {
  id = 3;
  user_id = 5;
  plan_id = "free";
  status = active;
  stripe_customer_id = "";
  stripe_subscription_id = "";
  current_period_start = 100;
  current_period_end = 200;
  cancel_at_period_end = false;
  canceled_at = none;
  credits_balance = pos 40;
  created_at = 90;
  updated_at = 100;
  plan = none;
}

abbrev refunded_bill : Payment
refunded_bill = record {
  id = 31;
  order_id = 11;
  user_id = 5;
  amount = pos 1500;
  currency = "usd";
  method = Status.card;
  status = Status.refunded;
  provider = "stripe";
  stripe_payment_intent_id = "pi_1";
  stripe_charge_id = "ch_1";
  trade_no = "";
  payer_id = "";
  failure_code = none;
  failure_message = none;
  refunded_amount = pos 1500;
  succeeded_at = some 101;
  failed_at = none;
  created_at = 100;
  updated_at = 101;
}

-- The fields that the readers replace answer with an error.
abbrev payments : PaymentPorts World
payments = record {
  find_by_id = λ id w. (ok (some refunded_bill), w);
  find_by_payment_intent_id = λ id w. (ok (some refunded_bill), w);
  create = λ p w. (ok tt, w);
  update = λ p w. (ok tt, w);
  create_event = λ e w. (ok tt, w);
  mark_processed = λ id x w. (ok tt, w);
  provider_reg = none;
  get_order = λ id w. (err "", w);
  get_order_by_payment_intent_id = λ id w. (err "", w);
  update_order_status = λ id status w. (err "", w);
  set_stripe_payment_intent_id = λ id intent w. (err "", w);
  get_subscription = λ user w. (err "", w);
  add_credits = λ user n source w. (err "", w);
  event_publisher = none;
  parse_uuid = λ s. some 31;
  uuid_string = λ id. "31";
  uuid_prefix = λ id. "31";
  notify_base_url = "host";
}

abbrev world : Order → World
world o = record { order = some o; invoice = none; subscription = some member }

abbrev readers : PaymentPorts World
readers = with_readers draws orders subscriptions payments

settle_topup_example : settle readers refunded_bill (order_info top_up) 11 (world top_up) ≡ (
  returns tt,
  (subscriptions.update
      (record member { credits_balance = add64 (pos 40) (pos 1500); updated_at = 120 })
      (generate_invoice orders 71 "INV-1" 120 11 (world paid_top_up)).1).1,
)
unfolding generate_invoice is_paid
settle_topup_example =
    settle_topup draws orders subscriptions payments refunded_bill top_up member (world top_up)
      (world top_up) (world paid_top_up) _ refl refl refl (omega arith) refl refl refl

create_payment_intent_panics_example :
    create_payment_intent
      (provide_payment_domain draws orders subscriptions payments)
      31
      130
      11
      5
      (world top_up)
    ≡ (panics, world top_up)
create_payment_intent_panics_example =
    create_payment_intent_panics draws orders subscriptions payments 31 130 5 11 top_up
      (world top_up) (world top_up) refl refl refl
