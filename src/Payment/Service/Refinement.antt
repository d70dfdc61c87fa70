-- ===== src/Payment/Service/Refinement.antt =====
-- The service decides as the aggregate does: each handler runs the aggregate's method on the stored
-- payment and writes its result.
use uniedit_server.Common.{
  ◌≡◌, ◌∙◌, ℕ, ℤ, String, String_Eq, Option, none, some, Result, ok, err, Service, ◌>>=◌, ◌>>◌,
  give, raise, try, call, deref, ◌==◌, ◌||◌, if◌then◌else◌, arith,
}
use uniedit_server.Payment.Errors.{
  PaymentError, already_succeeded, no_charge_id, provider_not_available, unsupported_provider,
  from_port,
}
use uniedit_server.Payment.Status.{PaymentStatus_Eq, is_succeeded, refunded}
use uniedit_server.Payment.Aggregate.{
  Payment, refund, mark_as_succeeded, mark_as_succeeded_native, mark_as_canceled,
}
use uniedit_server.Payment.Ports.{Ports, PaymentOrderInfo, ProviderNotifyResult}
use uniedit_server.Payment.Service.Refund.{create_refund, refund_by_provider, close_order}
use uniedit_server.Payment.Service.Stripe.{handle_payment_succeeded, charge, settle}
use uniedit_server.Payment.Service.Native.{
  handle_native_payment_success, handle_native_payment_closed,
}

module _ {W : Type 0} (d : Ports W) where
  -- The provider that took the payment pays `n` back: Stripe under the charge, which it must have,
  -- Alipay and WeChat under the trade number. Another provider has no refunds.
  abbrev pub paid_back : Payment → ℤ → String → ℕ → Service W PaymentError (Unit {0})
  paid_back p n reason refund_id =
      if p.provider == "stripe"
      then if p.stripe_charge_id == "" then raise no_charge_id else (do
        providers ← deref d.provider_reg
        stripe ← call (λ e. provider_not_available) (providers.get "stripe")
        call from_port (stripe.create_refund p.stripe_charge_id n reason))
      else if p.provider == "alipay" || p.provider == "wechat"
      then (do
        providers ← deref d.provider_reg
        native ← call (λ e. provider_not_available) (providers.get_native p.provider)
        call from_port (
            native.refund_payment (d.uuid_string p.id) p.trade_no (d.uuid_string refund_id) n
              p.amount reason))
      else raise unsupported_provider

  -- To carry out an answer of the aggregate, where `pay` pays an amount back: an error ends it before any
  -- provider is asked or anything is written; else the new payment is stored after the payment, and its order is
  -- marked refunded if the payment is.
  abbrev pub carried_by :
      (ℤ → Service W PaymentError (Unit {0}))
      → Payment × Result PaymentError ℤ
      → Service W PaymentError (Unit {0})
  carried_by pay (q, err e) = raise e
  carried_by pay (q, ok n) = do
    pay n
    call from_port (d.update q)
    if q.status == refunded
        then (do ignored ← try (d.update_order_status q.order_id "refunded"); give tt)
        else give tt

  abbrev pub carried_out :
      Payment → ℕ → String → Payment × Result PaymentError ℤ → Service W PaymentError (Unit {0})
  carried_out p refund_id reason a = carried_by (λ n. paid_back p n reason refund_id) a

  refund_by_provider-paid_back :
      (p : Payment) (n : ℤ) (reason : String) (refund_id : ℕ) (w : W)
      → refund_by_provider d p n reason refund_id w ≡ paid_back p n reason refund_id w
  unfolding refund_by_provider
  refund_by_provider-paid_back p n reason refund_id w = ground arith

  create_refund-carried_by :
      (refund_id now payment_id : ℕ) (amount : ℤ) (reason : String) (p : Payment) (w w' : W)
      → d.find_by_id payment_id w ≡ (ok (some p), w')
      → create_refund d refund_id now payment_id amount reason w
        ≡ carried_by (λ n. refund_by_provider d p n reason refund_id) (refund p amount now) w'
  unfolding create_refund refund close_order
  create_refund-carried_by refund_id now payment_id amount reason p w w' e = ground arith

  -- When the payment is found, `CreateRefund` carries out the answer of `Refund` of the aggregate: an error
  -- is returned at once; an amount is paid back by the provider of the payment, the new payment is stored,
  -- and its order is asked to be marked as refunded if the payment is.
  pub create_refund-refund :
      (refund_id now payment_id : ℕ) (amount : ℤ) (reason : String) (p : Payment) (w w' : W)
      → d.find_by_id payment_id w ≡ (ok (some p), w')
      → create_refund d refund_id now payment_id amount reason w
        ≡ carried_out p refund_id reason (refund p amount now) w'
  create_refund-refund refund_id now payment_id amount reason p w w' e =
      create_refund-carried_by refund_id now payment_id amount reason p w w' e ∙ (λ i.
        carried_by (λ n v. refund_by_provider-paid_back p n reason refund_id v i)
          (refund p amount now) w')

  -- What `HandlePaymentSucceeded` does with the aggregate's answer: an error other than "already
  -- succeeded" is returned and nothing is written; otherwise the new payment is stored and settled.
  abbrev pub charged :
      PaymentOrderInfo → Payment × Option PaymentError → Service W PaymentError (Unit {0})
  charged ord (q, some already_succeeded) = give tt
  charged ord (q, some e) = raise e
  charged ord (q, none) = do call from_port (d.update q); settle d q ord ord.id

  -- When the order and the payment are found, `HandlePaymentSucceeded` stores what `MarkAsSucceeded`
  -- of the aggregate gives and settles the order, does nothing for a payment that has succeeded,
  -- and otherwise returns the aggregate's error and writes nothing.
  pub handle_payment_succeeded-mark_as_succeeded :
      (new_id now : ℕ) (intent_id charge_id : String) (ord : PaymentOrderInfo) (p : Payment)
      (w w' w'' : W)
      → d.get_order_by_payment_intent_id intent_id w ≡ (ok ord, w')
      → d.find_by_payment_intent_id intent_id w' ≡ (ok (some p), w'')
      → handle_payment_succeeded d new_id now intent_id charge_id w
        ≡ charged ord (mark_as_succeeded p charge_id now) w''
  unfolding handle_payment_succeeded charge mark_as_succeeded is_succeeded
  handle_payment_succeeded-mark_as_succeeded new_id now intent_id charge_id ord p w w' w'' e h =
      rw (e, h) (ground arith)

  -- What is done with the answer for a native payment.
  abbrev pub native_charged : Payment × Option PaymentError → Service W PaymentError (Unit {0})
  native_charged (q, some already_succeeded) = give tt
  native_charged (q, some e) = raise e
  native_charged (q, none) = do
    call from_port (d.update q)
    ord ← try (d.get_order q.order_id)
    elim ord [ err e ↦ give tt | ok o ↦ settle d q o q.order_id ]

  -- For a native payment that is reported paid, the service stores what `MarkAsSucceededNative` of
  -- the aggregate gives and settles the order, if it is found; it does nothing for a payment that
  -- has succeeded, and otherwise returns the aggregate's error and writes nothing.
  pub handle_native_payment_success-mark_as_succeeded_native :
      (p : Payment) (result : ProviderNotifyResult) (now : ℕ) (w : W)
      → handle_native_payment_success d p result now w
        ≡ native_charged (mark_as_succeeded_native p result.trade_no result.payer_id now) w
  unfolding handle_native_payment_success mark_as_succeeded_native is_succeeded
  handle_native_payment_success-mark_as_succeeded_native p result now w = ground arith

  -- The new payment is stored; an error is returned and nothing is written.
  abbrev pub stored : Payment × Option PaymentError → Service W PaymentError (Unit {0})
  stored (q, some e) = raise e
  stored (q, none) = call from_port (d.update q)

  -- A native payment that is reported closed is stored as `MarkAsCanceled` of the aggregate gives it,
  -- or the aggregate's error is returned and nothing is written.
  pub handle_native_payment_closed-mark_as_canceled :
      (p : Payment) (now : ℕ) (w : W)
      → handle_native_payment_closed d p now w ≡ stored (mark_as_canceled p now) w
  unfolding handle_native_payment_closed mark_as_canceled
  handle_native_payment_closed-mark_as_canceled p now w = ground arith
