-- ===== src/App/Payments.antt =====
-- internal/app/providers.go: `ProvidePaymentDomain` and what it is given.
use uniedit_server.Common.{ℕ, String, none, some}
use uniedit_server.Order.Errors.{OrderError}
use uniedit_server.Billing.Errors.{BillingError}
use uniedit_server.Payment.Service.Settlement.{no_op_publish}
use uniedit_server.App.OrderReader.{
  read_order, read_order_by_payment_intent_id, update_order_status, set_intent_id,
}
use uniedit_server.App.BillingReader.{read_subscription, credit}
use uniedit_server.Order.Ports.{Ports as OrderPorts}
use uniedit_server.Billing.Ports.{Ports as BillingPorts}
use uniedit_server.Payment.Ports.{Ports as PaymentPorts}

-- The texts of errors, and what the operations on orders draw while a payment is handled: the id and
-- the number of an invoice, and the time.
pub record Draws : Type 0 where
  pub order_text : OrderError → String
  pub billing_text : BillingError → String
  pub invoice_id : ℕ
  pub invoice_no : String
  pub now : ℕ

module _ {W F : Type 0} (t : Draws) (o : OrderPorts W) (b : BillingPorts W F) where
  -- The payment service over the readers of the order and billing services.
  unfoldable pub with_readers : PaymentPorts W → PaymentPorts W
  with_readers p = record p {
    get_order = read_order t.order_text o;
    get_order_by_payment_intent_id = read_order_by_payment_intent_id t.order_text o;
    update_order_status = update_order_status t.order_text o t.invoice_id t.invoice_no t.now;
    set_stripe_payment_intent_id = set_intent_id t.order_text o t.now;
    get_subscription = read_subscription t.billing_text b;
    add_credits = credit t.billing_text b t.now;
  }

  -- As the application provides it: no registry of providers, and the no-op publisher.
  unfoldable pub provide_payment_domain : PaymentPorts W → PaymentPorts W
  unfolding with_readers
  provide_payment_domain p = record (with_readers p) {
    provider_reg = none;
    event_publisher = some no_op_publish;
  }
