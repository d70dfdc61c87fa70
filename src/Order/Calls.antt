-- ===== src/Order/Calls.antt =====
-- A history of an order: the methods of `*Order` as data, each with the time of its call.
use uniedit_server.Common.{ℕ, String, ℤ, List, [], ◌∷◌, Option, none}
use uniedit_server.Order.Errors.{OrderError}
use uniedit_server.Order.Item.{OrderItem}
use uniedit_server.Order.Aggregate.{
  Order, add_item, mark_as_paid, cancel, mark_as_failed, refund, set_stripe_payment_intent_id,
  set_stripe_invoice_id, set_plan_id, set_credits_amount, set_expiration, set_totals,
  recalculate_totals,
}

pub data Call : Type 0 where
  adds : OrderItem → Call
  pays cancels fails refunds : Call
  sets_intent sets_invoice sets_plan : String → Call
  sets_credits : ℤ → Call
  expires : ℕ → Call
  totals : ℤ → ℤ → ℤ → ℤ → Call

unfoldable pub step : Order → Call → ℕ → Order × Option OrderError
unfolding add_item mark_as_paid cancel mark_as_failed refund set_stripe_payment_intent_id
    set_stripe_invoice_id set_plan_id set_credits_amount set_expiration set_totals
    recalculate_totals
step o (adds item) now = add_item o item now
step o pays now = mark_as_paid o now
step o cancels now = cancel o now
step o fails now = mark_as_failed o now
step o refunds now = refund o now
step o (sets_intent id) now = (set_stripe_payment_intent_id o id now, none)
step o (sets_invoice id) now = (set_stripe_invoice_id o id now, none)
step o (sets_plan id) now = (set_plan_id o id now, none)
step o (sets_credits n) now = (set_credits_amount o n now, none)
step o (expires t) now = (set_expiration o t now, none)
step o (totals a b c d) now = (set_totals o a b c d now, none)

unfoldable pub run : Order → List (Call × ℕ) → Order
run o [] = o
run o ((c, now) ∷ cs) = run (step o c now).0 cs
