-- ===== src/Order/Ports.antt =====
-- internal/port/outbound/order.go: what the order service asks of the world `W`.
use uniedit_server.Common.{ℕ, String, Option, List, Port}
use uniedit_server.Billing.Plan.{Plan}
use uniedit_server.Order.Model.{Order, OrderItem, Invoice}

-- The methods of the fields of `orderDomain` that its operations call; those on invoices carry the
-- name of their port.
pub record Ports (W : Type 0) : Type 0 where
  pub create : Order → Port W (Unit {0})
  pub get_by_id : ℕ → Port W (Option Order)
  pub get_by_id_with_items : ℕ → Port W (Option Order)
  pub get_by_payment_intent_id : String → Port W (Option Order)
  pub update : Order → Port W (Unit {0})
  pub list_pending_expired : Port W (List Order)
  pub create_batch : List OrderItem → Port W (Unit {0})
  pub create_invoice : Invoice → Port W (Unit {0})
  pub get_invoice_by_id : ℕ → Port W (Option Invoice)
  pub get_invoice_by_order_id : ℕ → Port W (Option Invoice)
  pub get_plan_by_id : String → Port W (Option Plan)
