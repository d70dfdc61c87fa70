-- ===== src/Order/History.antt =====
-- The totals over a history of an order, and what `AddItem` does with a foreign currency.
use uniedit_server.Common.{
  ◌≡◌, ◌≢◌, sym, ap, ◌∙◌, ℕ, ℤ, ◌+ℤ◌, ◌-ℤ◌, ◌*ℤ◌, wrap64, add64, mul64, wrap64-+ℤ, wrap64-+ℤ_right,
  int_laws, List, [], ◌∷◌, ◌++◌, none, arith, String, Bool, true, false, Bool-cases, ◌==◌, ◌⊎◌, inl,
  inr, ok, err, All,
}
use uniedit_server.Order.Money.{new_money, add, multiply}
use uniedit_server.Order.Money.Laws.{add-refused}
use uniedit_server.Order.Errors.{currency_mismatch}
use uniedit_server.Order.Status.{pending, status_eq_iff, OrderStatus_Eq, OrderType}
use uniedit_server.Order.Item.{OrderItem, item_amount, set_order_id}
use uniedit_server.Order.Aggregate.{Order, add_item, new_order}
use uniedit_server.Order.Calls.{Call, adds, totals, step, run}
use uniedit_server.Order.Totals.{exact_sum, Consistent, add_item_lem}

new_order-Consistent :
    (new_id now user_id : ℕ) (order_no : String) (t : OrderType) (currency : String) (o : Order)
    → new_order new_id now user_id order_no t currency ≡ ok o
    → Consistent o
unfolding new_order exact_sum new_money wrap64 ◌+ℤ◌ ◌-ℤ◌
new_order-Consistent new_id now user_id order_no t currency o h = ground arith

is_pending_cases : (o : Order) → (o.status ≡ pending) ⊎ (o.status ≢ pending)
is_pending_cases o = elim (Bool-cases (o.status == pending)) [
  | inl e ↦ inl ((status_eq_iff o.status pending).0 e)
  | inr e ↦ inr (λ h. ground (arith, status_eq_iff o.status pending))
]

add_item-Consistent :
    (o : Order) (item : OrderItem) (now : ℕ) → Consistent o → Consistent (add_item o item now).0
add_item-Consistent o item now v = elim (is_pending_cases o) [
  | inl h ↦ ((add_item_lem o item now).0 h).5
  | inr h ↦ rw ((add_item_lem o item now).1 h) v
]

abbrev sets_totals : Call → Bool
sets_totals (totals a b c d) = true
sets_totals _ = false

step-Consistent :
    (o : Order) (c : Call) (now : ℕ)
    → sets_totals c ≡ false
    → Consistent o
    → Consistent (step o c now).0
unfolding step
step-Consistent o (adds item) now h v = add_item-Consistent o item now v
step-Consistent o c now h v = ground arith

run-Consistent :
    (o : Order) (cs : List (Call × ℕ))
    → All (λ c. sets_totals c.0 ≡ false) cs
    → Consistent o
    → Consistent (run o cs)
unfolding run
run-Consistent o [] h v = v
run-Consistent o ((c, now) ∷ cs) h v =
    run-Consistent (step o c now).0 cs h.1 (step-Consistent o c now h.0 v)

-- After any history of a new order in which `SetTotals` is not called, the subtotal is the sum of
-- price times quantity over the items, and the total that sum less the discount plus the tax, both
-- reduced to 64 bits.
pub new_order-run-Consistent :
    (new_id now user_id : ℕ) (order_no : String) (t : OrderType) (currency : String)
    (cs : List (Call × ℕ)) (o : Order)
    → new_order new_id now user_id order_no t currency ≡ ok o
    → All (λ c. sets_totals c.0 ≡ false) cs
    → Consistent (run o cs)
new_order-run-Consistent new_id now user_id order_no t currency cs o e h =
    run-Consistent o cs h (new_order-Consistent new_id now user_id order_no t currency o e)

exact_sum-append :
    (xs : List OrderItem) (i : OrderItem)
    → exact_sum (xs ++ i ∷ []) ≡ exact_sum xs +ℤ i.unit_price.amount *ℤ i.quantity
unfolding exact_sum
exact_sum-append [] i = omega int_laws
exact_sum-append (x ∷ xs) i = rw (exact_sum-append xs i) (omega int_laws)

wrap64_snoc : (a b : ℤ) → wrap64 (a +ℤ b) ≡ add64 (wrap64 a) (wrap64 b)
unfolding add64
wrap64_snoc a b = sym (wrap64-+ℤ_right (wrap64 a) b ∙ wrap64-+ℤ a b)

-- An item whose amount is in another currency than the subtotal: `Money.Add` refuses the sum, and
-- `AddItem` on a pending order makes it all the same, adding the bare amounts under the currency of
-- the order.
pub add_item_foreign_currency :
    (o : Order) (item : OrderItem) (now : ℕ)
    → o.status ≡ pending
    → Consistent o
    → o.subtotal.currency ≢ (item_amount item).currency
    → (add o.subtotal (item_amount item) ≡ err currency_mismatch)
      × ((add_item o item now).1 ≡ none)
      × ((add_item o item now).0.subtotal.amount
          ≡ add64 o.subtotal.amount (item_amount item).amount)
unfolding item_amount multiply new_money mul64 set_order_id
add_item_foreign_currency o item now h v foreign =
    let p = (add_item_lem o item now).0 h in
    (
      (add-refused o.subtotal (item_amount item)).1 foreign,
      p.0,
      p.5.subtotal_lem
          ∙ ap (λ items. wrap64 (exact_sum items)) p.1
          ∙ ap wrap64 (exact_sum-append o.items (set_order_id item o.id))
          ∙ wrap64_snoc (exact_sum o.items) (item.unit_price.amount *ℤ item.quantity)
          ∙ ap (λ a. add64 a (item_amount item).amount) (sym v.subtotal_lem),
    )
