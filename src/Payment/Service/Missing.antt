-- ===== src/Payment/Service/Missing.antt =====
-- A payment that is not in the database: the postgres adapter answers `nil` and no error.
use uniedit_server.Common.{◌≡◌, ℕ, ℤ, String, String_Eq, none, ok, panics, arith}
use uniedit_server.Payment.Ports.{Ports, PaymentOrderInfo}
use uniedit_server.Payment.Service.Refund.{create_refund}
use uniedit_server.Payment.Service.Stripe.{handle_payment_succeeded, handle_payment_failed}

module _ {W : Type 0} (d : Ports W) where
  -- Where the lookup of a payment finds no row and reports no error, `CreateRefund`,
  -- `HandlePaymentFailed` and `HandlePaymentSucceeded` (here with its order found) dereference nil.
  pub missing_payment_panics :
      (new_id now payment_id : ℕ) (amount : ℤ) (intent_id code message reason : String)
      (ord : PaymentOrderInfo) (w w' : W)
      → d.find_by_id payment_id w ≡ (ok none, w')
      → d.find_by_payment_intent_id intent_id w ≡ (ok none, w')
      → d.get_order_by_payment_intent_id intent_id w ≡ (ok ord, w)
      → (create_refund d new_id now payment_id amount reason w ≡ (panics, w'))
        × (handle_payment_failed d now intent_id code message w ≡ (panics, w'))
        × (handle_payment_succeeded d new_id now intent_id code w ≡ (panics, w'))
  unfolding create_refund handle_payment_failed handle_payment_succeeded
  missing_payment_panics new_id now payment_id amount intent_id code message reason ord w w' a b c =
      (ground arith, ground arith, ground arith)
