-- ===== src/Payment/Service/Stripe.antt =====
-- internal/domain/payment/domain.go: what follows a payment that succeeded, and the handlers of
-- the Stripe events.
use uniedit_server.Common.{
  ℕ, String, String_Eq, ◌==◌, ℕ_Eq, if◌then◌else◌, Option, none, some, Result, ok, err, Service,
  ◌>>=◌, ◌>>◌, give, require, try, call, deref,
}
use uniedit_server.Payment.Errors.{PaymentError, invalid_status_transition, from_port}
use uniedit_server.Payment.Status.{
  succeeded, failed, PaymentStatus_Eq, is_succeeded, can_transition_to,
}
use uniedit_server.Payment.Aggregate.{Payment}
use uniedit_server.Payment.Ports.{
  Ports, PaymentOrderInfo, PaymentEvent, payment_succeeded, payment_failed,
}
use uniedit_server.Payment.Service.Create.{card_payment}

abbrev succeeded_event : Payment → PaymentOrderInfo → PaymentEvent
succeeded_event p ord = payment_succeeded (record {
  payment_id = p.id;
  order_id = ord.id;
  user_id = ord.user_id;
  amount = p.amount;
  currency = p.currency;
  provider = p.provider;
  order_type = ord.order_type;
  credits_amount = ord.credits_amount;
  plan_id = ord.plan_id;
})

abbrev failed_event : Payment → String → String → PaymentEvent
failed_event p failure_code failure_message = payment_failed (record {
  payment_id = p.id;
  order_id = p.order_id;
  user_id = p.user_id;
  failure_code = failure_code;
  failure_message = failure_message;
  provider = p.provider;
})

-- `FindByPaymentIntentID` failed: a new record is made; it found nothing: the pointer is nil.
abbrev payment_or_new : Result String (Option Payment) → Payment → Option Payment
payment_or_new (ok p) new = p
payment_or_new (err e) new = some new

module _ {W : Type 0} (d : Ports W) where
  -- Publish the event, or, without a publisher, mark the order and add its credits.
  unfoldable pub settle : Payment → PaymentOrderInfo → ℕ → Service W PaymentError (Unit {0})
  settle p ord order_id = elim d.event_publisher [
    | some publish ↦ do _ ← try (publish (succeeded_event p ord)); give tt
    | none ↦ do
      call from_port (d.update_order_status order_id "paid")
      if ord.order_type == "topup"
          then (do _ ← try (d.add_credits ord.user_id ord.credits_amount "topup"); give tt)
          else give tt
  ]

  -- The rest of `HandlePaymentSucceeded`, for a payment that has not succeeded yet.
  unfoldable pub charge :
      Payment → PaymentOrderInfo → String → ℕ → Service W PaymentError (Unit {0})
  charge p ord charge_id now = do
    require (can_transition_to p.status succeeded) invalid_status_transition
    let q = record p {
      status = succeeded;
      stripe_charge_id = charge_id;
      succeeded_at = some now;
      updated_at = now;
    }
    call from_port (d.update q)
    settle q ord ord.id

  unfoldable pub handle_payment_succeeded :
      ℕ → ℕ → String → String → Service W PaymentError (Unit {0})
  handle_payment_succeeded new_id now intent_id charge_id = do
    ord ← call from_port (d.get_order_by_payment_intent_id intent_id)
    looked_up ← try (d.find_by_payment_intent_id intent_id)
    p ← deref (
        payment_or_new looked_up
          (card_payment new_id now ord ord.id ord.user_id "stripe" intent_id))
    if is_succeeded p.status then give tt else charge p ord charge_id now

  unfoldable pub handle_payment_failed :
      ℕ → String → String → String → Service W PaymentError (Unit {0})
  handle_payment_failed now intent_id failure_code failure_message = do
    p ← deref (← call from_port (d.find_by_payment_intent_id intent_id))
    require (can_transition_to p.status failed) invalid_status_transition
    let q = record p {
      status = failed;
      failure_code = some failure_code;
      failure_message = some failure_message;
      failed_at = some now;
      updated_at = now;
    }
    call from_port (d.update q)
    elim d.event_publisher [
      | none ↦ give tt
      | some publish ↦ do _ ← try (publish (failed_event q failure_code failure_message)); give tt
    ]
