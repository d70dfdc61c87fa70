-- ===== src/App/Settled.antt =====
-- Payments through the order and billing services.
use uniedit_server.Common.{
  ◌≡◌, refl, ap, ==_refl, ℕ_Eq, ℕ, ℤ, pos, ◌<ℤ◌, add64, String_Eq, true, false, none, some, ok,
  returns, panics, arith,
}
use uniedit_server.Order.Status.{pending, paid, refunded, topup, can_transition_to}
use uniedit_server.Order.Model.{Order}
use uniedit_server.Order.Service.Transitions.{
  mark_as_paid, mark_as_refunded, generate_invoice, paid_order, refunded_order,
}
use uniedit_server.Billing.Subscription.{Subscription}
use uniedit_server.Billing.Service.Account.{add_credits}
use uniedit_server.Payment.Aggregate.{Payment}
use uniedit_server.Payment.Status
use uniedit_server.Payment.Ports.{is_pending}
use uniedit_server.Payment.Service.Stripe.{settle}
use uniedit_server.Payment.Service.Refund.{close_order}
use uniedit_server.Payment.Service.Create.{create_payment_intent}
use uniedit_server.App.OrderReader.{
  type_text, status_text, order_info, update_order_status, read_order,
}
use uniedit_server.Order.Service.Transitions.{get_order}
use uniedit_server.App.BillingReader.{credit}
use uniedit_server.App.Payments.{Draws, with_readers, provide_payment_domain}
use uniedit_server.Order.Ports.{Ports as OrderPorts}
use uniedit_server.Billing.Ports.{Ports as BillingPorts}
use uniedit_server.Payment.Ports.{Ports as PaymentPorts}

module _ {W F : Type 0} (t : Draws) (o : OrderPorts W) (b : BillingPorts W F)
    (p : PaymentPorts W) where
  marked_paid :
      (r : Order) (w w1 w2 : W)
      → can_transition_to r.status paid ≡ true
      → o.get_by_id r.id w ≡ (ok (some r), w1)
      → o.update (paid_order r t.now) w1 ≡ (ok tt, w2)
      → update_order_status t.order_text o t.invoice_id t.invoice_no t.now r.id "paid" w
        ≡ (ok tt, (generate_invoice o t.invoice_id t.invoice_no t.now r.id w2).1)
  unfolding update_order_status mark_as_paid
  marked_paid r w w1 w2 c e f = rw (e, c, f) refl

  credited :
      (user_id : ℕ) (amount : ℤ) (s : Subscription) (w w1 : W)
      → pos 0 <ℤ amount
      → b.get_by_user_id user_id w ≡ (ok (some s), w1)
      → (credit t.billing_text b t.now user_id amount "topup" w).1
        ≡ (b.update
            (record s { credits_balance = add64 s.credits_balance amount; updated_at = t.now })
            w1).1
  unfolding credit add_credits
  credited user_id amount s w w1 l e = ground arith

  -- Over the order and billing services and without a publisher, the settling of a payment for a
  -- pending top-up order with a positive amount of credits that is found and stored as paid, for a user
  -- with a subscription that is found, succeeds and ends with a write of that subscription with the credits of the order added
  -- to its balance.
  pub settle_topup :
      (q : Payment) (r : Order) (s : Subscription) (w w1 w2 w4 : W)
      → p.event_publisher ≡ none
      → r.status ≡ pending
      → r.order_type ≡ topup
      → pos 0 <ℤ r.credits_amount
      → o.get_by_id r.id w ≡ (ok (some r), w1)
      → o.update (paid_order r t.now) w1 ≡ (ok tt, w2)
      → (let w3 = (generate_invoice o t.invoice_id t.invoice_no t.now r.id w2).1 in
          b.get_by_user_id r.user_id w3 ≡ (ok (some s), w4))
      → settle (with_readers t o b p) q (order_info r) r.id w ≡ (
        returns tt,
        (b.update
            (record s {
              credits_balance = add64 s.credits_balance r.credits_amount;
              updated_at = t.now;
            })
            w4).1,
      )
  unfolding settle with_readers order_info can_transition_to
  settle_topup q r s w w1 w2 w4 n a k l e f g =
      let c = marked_paid r w w1 w2 (rw a refl) e f in
      rw (n, c, ap type_text k, credited r.user_id r.credits_amount s _ w4 l g) refl

  -- When a payment is refunded in full and its order is found, the order is written as refunded
  -- where its status allows it (it was paid); in every other status it is left as it is, and the
  -- call succeeds all the same.
  pub close_order_lem :
      (q : Payment) (r : Order) (w w1 : W)
      → q.status ≡ Status.refunded
      → o.get_by_id q.order_id w ≡ (ok (some r), w1)
      → (can_transition_to r.status refunded ≡ true
          → close_order (with_readers t o b p) q w
            ≡ (returns tt, (o.update (refunded_order r t.now) w1).1))
        × (can_transition_to r.status refunded ≡ false
            → close_order (with_readers t o b p) q w ≡ (returns tt, w1))
  unfolding close_order with_readers update_order_status mark_as_refunded
  close_order_lem q r w w1 a e = (λ c. rw (a, e, c) (ground arith), λ c. rw (a, e, c) refl)

  -- As the application wires it, a user who asks to pay a pending order of theirs makes the service
  -- dereference its missing registry of providers.
  pub create_payment_intent_panics :
      (new_id now user_id order_id : ℕ) (r : Order) (w w1 : W)
      → o.get_by_id_with_items order_id w ≡ (ok (some r), w1)
      → r.user_id ≡ user_id
      → r.status ≡ pending
      → create_payment_intent (provide_payment_domain t o b p) new_id now order_id user_id w
        ≡ (panics, w1)
  unfolding create_payment_intent provide_payment_domain read_order order_info is_pending get_order
  create_payment_intent_panics new_id now user_id order_id r w w1 e a s =
      rw (e, a, ap status_text s, ==_refl user_id) refl
