-- ===== src/Payment/Service/Settlement.antt =====
-- What becomes of the order and of its credits when a payment succeeds.
use uniedit_server.Common.{
  ◌≡◌, refl, ℕ, String, String_Eq, true, none, some, ok, err, Port, returns, fails_with,
}
use uniedit_server.Payment.Errors.{from_port}
use uniedit_server.Payment.Status.{succeeded, can_transition_to}
use uniedit_server.Payment.Aggregate.{Payment}
use uniedit_server.Payment.Ports.{Ports, PaymentOrderInfo, PaymentEvent}
use uniedit_server.Payment.Service.Stripe.{charge, settle}

-- `noOpEventPublisher.Publish` (internal/app/app.go).
unfoldable pub no_op_publish : {W : Type 0} → PaymentEvent → Port W (Unit {0})
no_op_publish event w = (ok tt, w)

module _ {W : Type 0} (d : Ports W) where
  -- With the no-op publisher, a charge of a payment that may succeed and is stored ends in the
  -- very world that the storing of the payment left: the order is not marked paid and no credits
  -- are added.
  pub charge_no_op :
      (p : Payment) (ord : PaymentOrderInfo) (charge_id : String) (now : ℕ) (w w' : W)
      → d.event_publisher ≡ some no_op_publish
      → can_transition_to p.status succeeded ≡ true
      → d.update
          (record p {
            status = succeeded;
            stripe_charge_id = charge_id;
            succeeded_at = some now;
            updated_at = now;
          })
          w
        ≡ (ok tt, w')
      → charge d p ord charge_id now w ≡ (returns tt, w')
  unfolding charge settle no_op_publish
  charge_no_op p ord charge_id now w w' e t h = rw (t, h, e) refl

  -- Without a publisher, a charge of a payment that may succeed and is stored marks the order
  -- paid, and for a top-up whose order was marked it adds the credits of the order; an order that
  -- cannot be marked is the error of the call.
  pub charge_direct :
      (p : Payment) (ord : PaymentOrderInfo) (charge_id : String) (now : ℕ) (w w' w'' : W)
      → d.event_publisher ≡ none
      → can_transition_to p.status succeeded ≡ true
      → d.update
          (record p {
            status = succeeded;
            stripe_charge_id = charge_id;
            succeeded_at = some now;
            updated_at = now;
          })
          w
        ≡ (ok tt, w')
      → ((msg : String)
          → d.update_order_status ord.id "paid" w' ≡ (err msg, w'')
          → charge d p ord charge_id now w ≡ (fails_with (from_port msg), w''))
        × (d.update_order_status ord.id "paid" w' ≡ (ok tt, w'')
            → ord.order_type ≡ "topup"
            → charge d p ord charge_id now w
              ≡ (returns tt, (d.add_credits ord.user_id ord.credits_amount "topup" w'').1))
  unfolding charge settle
  charge_direct p ord charge_id now w w' w'' e t h =
      (λ msg s. rw (t, h, e, s) refl, λ s k. rw (t, h, e, s, k) refl)
