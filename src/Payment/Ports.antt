-- ===== src/Payment/Ports.antt =====
-- internal/port/outbound/payment.go: what the payment service asks of the world `W`, and the records
-- of internal/model/payment.go that pass through. `model.Payment` has the fields of the aggregate.
use uniedit_server.Common.{ℕ, ℤ, String, Bool, Option, List, ◌==◌, String_Eq, Port}
use uniedit_server.Payment.Errors.{PaymentError}
use uniedit_server.Payment.Aggregate.{Payment}

pub record PaymentOrderInfo : Type 0 where
  pub id : ℕ
  pub user_id : ℕ
  pub order_type : String
  pub status : String
  pub total : ℤ
  pub currency : String
  pub credits_amount : ℤ
  pub plan_id : String

unfoldable pub is_pending : PaymentOrderInfo → Bool
is_pending o = o.status == "pending"

pub record PaymentSubscriptionInfo : Type 0 where
  pub user_id : ℕ
  pub plan_id : String
  pub status : String
  pub stripe_customer_id : String

pub record WebhookEvent : Type 0 where
  pub id : ℕ
  pub provider : String
  pub event_id : String
  pub event_type : String
  pub trade_no : String
  pub out_trade_no : String
  pub payload : String  -- Data
  pub processed : Bool
  pub processed_at : Option ℕ
  pub error : Option String
  pub created_at : ℕ

pub record ProviderPaymentIntent : Type 0 where
  pub id : String
  pub client_secret : String
  pub amount : ℤ
  pub currency : String
  pub status : String
  pub metadata : List (String × String)

pub record PaymentIntentResponse : Type 0 where
  pub payment_intent_id : String
  pub client_secret : String
  pub amount : ℤ
  pub currency : String

pub record ProviderNativeOrder : Type 0 where
  pub order_id : String
  pub trade_no : String
  pub pay_url : String
  pub qr_code : String
  pub app_pay_data : String
  pub mini_pay_data : List (String × String)
  pub amount : ℤ
  pub currency : String
  pub expire_time : ℤ

pub record CreateNativePaymentRequest : Type 0 where
  pub order_id : ℕ
  pub method : String
  pub scene : String
  pub return_url : String
  pub open_id : String

pub record NativePaymentResponse : Type 0 where
  pub payment_id : ℕ
  pub order_id : ℕ
  pub method : String
  pub pay_url : String
  pub qr_code : String
  pub app_pay_data : String
  pub mini_pay_data : List (String × String)
  pub amount : ℤ
  pub currency : String
  pub expire_time : ℤ

pub record ProviderNotifyResult : Type 0 where
  pub trade_no : String
  pub out_trade_no : String
  pub amount : ℤ
  pub status : String
  pub payer_id : String
  pub pay_time : ℤ
  pub raw_data : String
  pub success_resp : String

pub record PaymentSucceededEvent : Type 0 where
  pub payment_id : ℕ
  pub order_id : ℕ
  pub user_id : ℕ
  pub amount : ℤ
  pub currency : String
  pub provider : String
  pub order_type : String
  pub credits_amount : ℤ
  pub plan_id : String

pub record PaymentFailedEvent : Type 0 where
  pub payment_id : ℕ
  pub order_id : ℕ
  pub user_id : ℕ
  pub failure_code : String
  pub failure_message : String
  pub provider : String

pub data PaymentEvent : Type 0 where
  payment_succeeded : PaymentSucceededEvent → PaymentEvent
  payment_failed : PaymentFailedEvent → PaymentEvent

-- The methods of `PaymentProviderPort` that the service calls.
pub record PaymentProvider (W : Type 0) : Type 0 where
  pub name : String
  pub create_payment_intent :
      ℤ → String → String → List (String × String) → Port W ProviderPaymentIntent
  pub create_refund : String → ℤ → String → Port W (Unit {0})

-- The methods of `NativePaymentProviderPort` that the service calls.
pub record NativePaymentProvider (W : Type 0) : Type 0 where
  pub name : String
  -- The scene, our payment's id, the amount, subject, description, both URLs and the metadata.
  pub create_native_payment :
      String
      → String
      → ℤ
      → String
      → String
      → String
      → String
      → List (String × String)
      → Port W ProviderNativeOrder
  pub refund_payment : String → String → String → ℤ → ℤ → String → Port W (Unit {0})
  pub parse_notify : String → List (String × String) → Port W ProviderNotifyResult

pub record ProviderRegistry (W : Type 0) : Type 0 where
  pub get : String → Port W (PaymentProvider W)
  pub get_native : String → Port W (NativePaymentProvider W)
  pub get_native_by_method : String → Port W (NativePaymentProvider W)

-- The fields of `paymentDomain`, with the functions of the uuid library that it calls (`uuid_prefix` is
-- the first 8 characters of the text). A field
-- of an interface type may be nil where the code, or the wiring, allows for it.
pub record Ports (W : Type 0) : Type 0 where
  pub find_by_id : ℕ → Port W (Option Payment)
  pub find_by_payment_intent_id : String → Port W (Option Payment)
  pub create : Payment → Port W (Unit {0})
  pub update : Payment → Port W (Unit {0})
  pub create_event : WebhookEvent → Port W (Unit {0})
  pub mark_processed : ℕ → Option PaymentError → Port W (Unit {0})
  pub provider_reg : Option (ProviderRegistry W)
  pub get_order : ℕ → Port W PaymentOrderInfo
  pub get_order_by_payment_intent_id : String → Port W PaymentOrderInfo
  pub update_order_status : ℕ → String → Port W (Unit {0})
  pub set_stripe_payment_intent_id : ℕ → String → Port W (Unit {0})
  pub get_subscription : ℕ → Port W (Option PaymentSubscriptionInfo)
  pub add_credits : ℕ → ℤ → String → Port W (Unit {0})
  pub event_publisher : Option (PaymentEvent → Port W (Unit {0}))
  pub parse_uuid : String → Option ℕ
  pub uuid_string : ℕ → String
  pub uuid_prefix : ℕ → String
  pub notify_base_url : String
