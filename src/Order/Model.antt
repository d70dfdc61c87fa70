-- ===== src/Order/Model.antt =====
-- internal/model/order.go: the rows of orders, items and invoices. An order has one currency here,
-- and a nil pointer is `none`. Times count seconds.
use uniedit_server.Common.{ℕ, ℤ, String, Bool, ◌==◌, List, Option}
use uniedit_server.Order.Status.{OrderStatus, OrderType, paid, OrderStatus_Eq}

pub record OrderItem : Type 0 where
  pub id : ℕ
  pub order_id : ℕ
  pub description : String
  pub quantity : ℤ
  pub unit_price : ℤ
  pub amount : ℤ

pub record Order : Type 0 where
  pub id : ℕ
  pub order_no : String
  pub user_id : ℕ
  pub order_type : OrderType
  pub status : OrderStatus
  pub subtotal : ℤ
  pub discount : ℤ
  pub tax : ℤ
  pub total : ℤ
  pub currency : String
  pub plan_id : Option String
  pub credits_amount : ℤ
  pub stripe_payment_intent_id : String
  pub stripe_invoice_id : String
  pub paid_at : Option ℕ
  pub canceled_at : Option ℕ
  pub refunded_at : Option ℕ
  pub expires_at : Option ℕ
  pub created_at : ℕ
  pub updated_at : ℕ
  pub items : List OrderItem

unfoldable pub is_paid : Order → Bool
is_paid o = o.status == paid

pub record Invoice : Type 0 where
  pub id : ℕ
  pub invoice_no : String
  pub order_id : ℕ
  pub user_id : ℕ
  pub amount : ℤ
  pub currency : String
  pub status : String
  pub pdf_url : String
  pub stripe_invoice_id : String
  pub issued_at : ℕ
  pub due_at : ℕ
  pub paid_at : Option ℕ
  pub created_at : ℕ
