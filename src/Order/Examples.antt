-- ===== src/Order/Examples.antt =====
-- The order's theorems at concrete inputs, and runs of the code.
use uniedit_server.Common.{
  ◌≡◌, ◌≢◌, refl, ℕ, pos, List, [], ◌∷◌, some, none, ok, add64, sub64, mul64, wrap64, ◌+ℤ◌, ◌-ℤ◌,
  ◌*ℤ◌, ◌≤◌,
}
use uniedit_server.Order.Money.{Money, new_money, multiply}
use uniedit_server.Order.Errors.{not_pending}
use uniedit_server.Order.Status.{pending, refunded, topup, can_transition_to}
use uniedit_server.Order.Item.{OrderItem, item_amount, set_order_id}
use uniedit_server.Order.Aggregate.{Order, add_item, new_order, is_pending, sum_items}
use uniedit_server.Order.Calls.{Call, adds, pays, refunds, step, run}
use uniedit_server.Order.Totals.{exact_sum, Consistent, add_item_lem}
use uniedit_server.Order.History.{new_order-run-Consistent}
use uniedit_server.Order.Lifecycle.{Stamps, new_order-run-Stamps, changes, changes-le}

abbrev five_usd : Money
five_usd = record { amount = pos 5; currency = "usd" }

abbrev seven_usd : Money
seven_usd = record { amount = pos 7; currency = "usd" }

abbrev seven_eur : Money
seven_eur = record { amount = pos 7; currency = "eur" }

abbrev credits : OrderItem
credits = record {
  id = 21;
  order_id = 0;
  description = "credits";
  quantity = pos 3;
  unit_price = five_usd;
}

abbrev imported : OrderItem
imported = record {
  id = 22;
  order_id = 0;
  description = "import";
  quantity = pos 1;
  unit_price = seven_eur;
}

abbrev fresh : Order
fresh = record {
  id = 11;
  order_no = "ORD-1";
  user_id = 5;
  order_type = topup;
  status = pending;
  subtotal = record { amount = pos 0; currency = "usd" };
  discount = record { amount = pos 0; currency = "usd" };
  tax = record { amount = pos 0; currency = "usd" };
  total = record { amount = pos 0; currency = "usd" };
  plan_id = none;
  credits_amount = pos 0;
  stripe_payment_intent_id = "";
  stripe_invoice_id = "";
  paid_at = none;
  canceled_at = none;
  refunded_at = none;
  expires_at = none;
  created_at = 100;
  updated_at = 100;
  items = [];
}

new_order-fresh : new_order 11 100 5 "ORD-1" topup "" ≡ ok fresh
unfolding new_order
new_order-fresh = refl

abbrev bought : List (Call × ℕ)
bought = (adds credits, 101) ∷ (pays, 102) ∷ (pays, 103) ∷ (refunds, 104) ∷ []

bought_refunded : (run fresh bought).status ≡ refunded
unfolding run step is_pending can_transition_to
bought_refunded = refl

bought_total : (run fresh bought).total.amount ≡ pos 15
unfolding run step is_pending can_transition_to sum_items item_amount multiply new_money mul64 add64
    sub64 wrap64 ◌*ℤ◌ ◌+ℤ◌ ◌-ℤ◌ set_order_id
bought_total = refl

new_order-run-Stamps_example : Stamps (run fresh bought).status (run fresh bought)
unfolding new_order
new_order-run-Stamps_example = new_order-run-Stamps 11 100 5 "ORD-1" topup "" bought fresh refl

changes-le_example : changes fresh bought ≤ 2
changes-le_example = changes-le fresh bought

add_item_lem_example :
    let (p, e) = add_item fresh credits 101 in
    (fresh.status ≡ pending
      → (e ≡ none)
        × (p.items ≡ set_order_id credits 11 ∷ [])
        × (p.discount ≡ fresh.discount)
        × (p.tax ≡ fresh.tax)
        × (p.status ≡ pending)
        × Consistent p)
    × (fresh.status ≢ pending → add_item fresh credits 101 ≡ (fresh, some not_pending))
add_item_lem_example = add_item_lem fresh credits 101

new_order-run-Consistent_example : Consistent (run fresh bought)
unfolding new_order
new_order-run-Consistent_example =
    new_order-run-Consistent 11 100 5 "ORD-1" topup "" bought fresh refl
      (refl, (refl, (refl, (refl, tt))))

fresh-Consistent : Consistent fresh
unfolding exact_sum wrap64 ◌+ℤ◌ ◌-ℤ◌
fresh-Consistent = record { subtotal_lem = refl; total_lem = refl }
