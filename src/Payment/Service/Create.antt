-- ===== src/Payment/Service/Create.antt =====
-- internal/domain/payment/domain.go: the creation of payments. `uuid.New()` and `time.Now()`
-- are arguments, and calls of the logger are left out.
use Prim.Native.String.{◌++◌ as append_text}
use uniedit_server.Common.{
  ℕ, String, String_Eq, ◌==◌, ℕ_Eq, List, if◌then◌else◌, Option, some, [], ◌∷◌, Result, ok, Service,
  ◌>>=◌, ◌>>◌, give, require, try, call, deref,
}
use uniedit_server.Payment.Errors.{
  PaymentError, order_not_pending, forbidden, provider_not_available, from_port,
}
use uniedit_server.Payment.Status.{
  PaymentMethod, PaymentStatus_Eq, card, alipay, wechat, other_method,
}
use uniedit_server.Payment.Aggregate.{Payment, new_payment}
use uniedit_server.Payment.Ports.{
  Ports, PaymentOrderInfo, is_pending, PaymentSubscriptionInfo, PaymentIntentResponse,
  CreateNativePaymentRequest, NativePaymentResponse,
}

-- The pending card payment of an order.
abbrev pub card_payment : ℕ → ℕ → PaymentOrderInfo → ℕ → ℕ → String → String → Payment
card_payment new_id now ord order_id user_id provider intent_id =
    record (new_payment new_id now order_id user_id ord.total ord.currency card provider) {
      stripe_payment_intent_id = intent_id;
    }

module _ {W : Type 0} (d : Ports W) where
  -- `sub.StripeCustomerID` if there is a subscription, and the empty text if not.
  abbrev customer_of : Result String (Option PaymentSubscriptionInfo) → String
  customer_of (ok (some sub)) = sub.stripe_customer_id
  customer_of _ = ""

  unfoldable pub create_payment_intent :
      ℕ → ℕ → ℕ → ℕ → Service W PaymentError PaymentIntentResponse
  create_payment_intent new_id now order_id user_id = do
    ord ← call from_port (d.get_order order_id)
    require (ord.user_id == user_id) forbidden
    require (is_pending ord) order_not_pending
    reg ← deref d.provider_reg
    stripe ← call (λ _. provider_not_available) (reg.get "stripe")
    sub ← try (d.get_subscription user_id)
    pi ← call from_port (
        stripe.create_payment_intent ord.total ord.currency (customer_of sub)
          (("order_id", d.uuid_string order_id) ∷ ("user_id", d.uuid_string user_id) ∷ []))
    _ ← try (d.set_stripe_payment_intent_id order_id pi.id)
    _ ← try (d.create (card_payment new_id now ord order_id user_id stripe.name pi.id))
    give (record {
      payment_intent_id = pi.id;
      client_secret = pi.client_secret;
      amount = pi.amount;
      currency = pi.currency;
    })

  -- `model.PaymentMethod(req.Method)`.
  abbrev method_of : String → PaymentMethod
  method_of s =
      if s == "card"
      then card
      else if s == "alipay"
      then alipay
      else if s == "wechat"
      then wechat
      else other_method s

  -- The two ids, and the open id where there is one.
  abbrev native_metadata : CreateNativePaymentRequest → ℕ → List (String × String)
  native_metadata req user_id =
      ("order_id", d.uuid_string req.order_id)
      ∷ ("user_id", d.uuid_string user_id)
      ∷ (if req.open_id == "" then [] else ("openid", req.open_id) ∷ [])

  unfoldable pub create_native_payment :
      ℕ → ℕ → CreateNativePaymentRequest → ℕ → Service W PaymentError NativePaymentResponse
  create_native_payment new_id now req user_id = do
    ord ← call from_port (d.get_order req.order_id)
    require (ord.user_id == user_id) forbidden
    require (is_pending ord) order_not_pending
    reg ← deref d.provider_reg
    native ← call (λ _. provider_not_available) (reg.get_native_by_method req.method)
    let p =
        new_payment new_id now req.order_id user_id ord.total "CNY" (method_of req.method)
          native.name
    order ← call from_port (
        native.create_native_payment req.scene (d.uuid_string p.id) ord.total
          (append_text "Order #" (d.uuid_prefix ord.id)) ""
          (append_text (append_text d.notify_base_url "/webhooks/") native.name) req.return_url
          (native_metadata req user_id))
    call from_port (d.create (record p { trade_no = order.trade_no }))
    give (record {
      payment_id = p.id;
      order_id = req.order_id;
      method = req.method;
      pay_url = order.pay_url;
      qr_code = order.qr_code;
      app_pay_data = order.app_pay_data;
      mini_pay_data = order.mini_pay_data;
      amount = order.amount;
      currency = order.currency;
      expire_time = order.expire_time;
    })
