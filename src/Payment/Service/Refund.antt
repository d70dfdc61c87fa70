-- ===== src/Payment/Service/Refund.antt =====
-- internal/domain/payment/domain.go: `CreateRefund`. The id of a native refund and `time.Now()` are
-- arguments.
use uniedit_server.Common.{
  ℕ, ℤ, pos, String, String_Eq, not, ◌&&◌, ◌||◌, ◌==◌, ℕ_Eq, if◌then◌else◌, add64, sub64, eq_ℤ,
  le_ℤ, lt_ℤ, Service, ◌>>=◌, ◌>>◌, give, raise, require, try, call, deref,
}
use uniedit_server.Payment.Errors.{
  PaymentError, not_succeeded, invalid_refund_amount, provider_not_available, no_charge_id,
  unsupported_provider, from_port,
}
use uniedit_server.Payment.Status.{refunded, PaymentStatus_Eq, is_succeeded}
use uniedit_server.Payment.Aggregate.{Payment}
use uniedit_server.Payment.Ports.{Ports}

module _ {W : Type 0} (d : Ports W) where
  -- The `switch` on the provider of the payment.
  unfoldable pub refund_by_provider : Payment → ℤ → String → ℕ → Service W PaymentError (Unit {0})
  refund_by_provider p n reason refund_id =
      if p.provider == "stripe"
      then (do
        require (not (p.stripe_charge_id == "")) no_charge_id
        reg ← deref d.provider_reg
        stripe ← call (λ _. provider_not_available) (reg.get "stripe")
        call from_port (stripe.create_refund p.stripe_charge_id n reason))
      else if p.provider == "alipay" || p.provider == "wechat"
      then (do
        reg ← deref d.provider_reg
        native ← call (λ _. provider_not_available) (reg.get_native p.provider)
        call from_port (
            native.refund_payment (d.uuid_string p.id) p.trade_no (d.uuid_string refund_id) n
              p.amount reason))
      else raise unsupported_provider

  -- The order of a payment that is refunded in full.
  unfoldable pub close_order : Payment → Service W PaymentError (Unit {0})
  close_order p =
      if p.status == refunded
      then (do _ ← try (d.update_order_status p.order_id "refunded"); give tt)
      else give tt

  unfoldable pub create_refund : ℕ → ℕ → ℕ → ℤ → String → Service W PaymentError (Unit {0})
  create_refund refund_id now payment_id amount reason = do
    p ← deref (← call from_port (d.find_by_id payment_id))
    require (not (not (is_succeeded p.status) && not (p.status == refunded))) not_succeeded
    let n = if eq_ℤ amount (pos 0) then sub64 p.amount p.refunded_amount else amount
    require (not (le_ℤ n (pos 0) || lt_ℤ (sub64 p.amount p.refunded_amount) n))
        invalid_refund_amount
    refund_by_provider p n reason refund_id
    let total = add64 p.refunded_amount n
    let q = record p {
      refunded_amount = total;
      status = if le_ℤ p.amount total then refunded else p.status;
      updated_at = now;
    }
    call from_port (d.update q)
    close_order q
