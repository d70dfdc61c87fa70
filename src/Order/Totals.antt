-- ===== src/Order/Totals.antt =====
-- The totals of an order against the exact sums, with no overflow.
use uniedit_server.Common.{
  ◌≡◌, ◌≢◌, refl, sym, ap, ◌∙◌, ℕ, ℤ, pos, ◌+ℤ◌, ◌-ℤ◌, ◌*ℤ◌, IsInt64, wrap64, wrap64_id, add64,
  sub64, mul64, wrap64-IsInt64, add64-sub64, wrap64-+ℤ, wrap64-+ℤ_right, wrap64--ℤ, int_laws, List,
  [], ◌∷◌, ◌++◌, some, none, arith, String_Eq,
}
use uniedit_server.Order.Money.{new_money, multiply}
use uniedit_server.Order.Errors.{not_pending}
use uniedit_server.Order.Status.{pending, OrderStatus_Eq}
use uniedit_server.Order.Item.{OrderItem, item_amount, set_order_id}
use uniedit_server.Order.Aggregate.{Order, is_pending, sum_items, recalculate_totals, add_item}

-- The sum of price times quantity, as integers without bound.
unfoldable pub exact_sum : List OrderItem → ℤ
exact_sum [] = pos 0
exact_sum (i ∷ items) = i.unit_price.amount *ℤ i.quantity +ℤ exact_sum items

sum_items_step :
    (acc x rest : ℤ) → wrap64 (add64 acc (wrap64 x) +ℤ rest) ≡ wrap64 (acc +ℤ (x +ℤ rest))
unfolding add64
sum_items_step acc x rest =
    wrap64-+ℤ (acc +ℤ wrap64 x) rest
    ∙ ap wrap64 (omega int_laws)
    ∙ wrap64-+ℤ_right (acc +ℤ rest) x
    ∙ ap wrap64 (omega int_laws)

sum_items-exact_sum :
    (acc : ℤ) (items : List OrderItem)
    → IsInt64 acc
    → sum_items acc items ≡ wrap64 (acc +ℤ exact_sum items)
unfolding sum_items exact_sum item_amount multiply new_money mul64 add64
sum_items-exact_sum acc [] h = sym (wrap64_id acc h) ∙ ap wrap64 (omega int_laws)
sum_items-exact_sum acc (i ∷ items) h =
    sum_items-exact_sum (add64 acc (item_amount i).amount) items (wrap64-IsInt64 _)
    ∙ sum_items_step acc (i.unit_price.amount *ℤ i.quantity) (exact_sum items)

sum_items_lem : (items : List OrderItem) → sum_items (pos 0) items ≡ wrap64 (exact_sum items)
sum_items_lem items = sum_items-exact_sum (pos 0) items (omega arith) ∙ ap wrap64 (omega int_laws)

net_lem : (s d t : ℤ) → add64 (sub64 (wrap64 s) d) t ≡ wrap64 (s -ℤ d +ℤ t)
net_lem s d t = add64-sub64 (wrap64 s) d t ∙ wrap64--ℤ s d t

-- What `recalculateTotals` establishes: the totals are the exact sums, reduced to 64 bits.
pub record Consistent (o : Order) : Type 0 where
  pub subtotal_lem : o.subtotal.amount ≡ wrap64 (exact_sum o.items)
  pub total_lem : o.total.amount ≡ wrap64 (exact_sum o.items -ℤ o.discount.amount +ℤ o.tax.amount)

recalculate_totals-Consistent : (o : Order) → Consistent (recalculate_totals o)
unfolding recalculate_totals new_money
recalculate_totals-Consistent o = record {
  subtotal_lem = sum_items_lem o.items;
  total_lem =
      rw (sum_items_lem o.items) (net_lem (exact_sum o.items) o.discount.amount o.tax.amount);
}

-- The order that a successful `AddItem` leaves.
abbrev added : Order → OrderItem → ℕ → Order
added o item now =
    record (recalculate_totals (record o { items = o.items ++ set_order_id item o.id ∷ [] })) {
      updated_at = now;
    }

added-Consistent : (o : Order) (item : OrderItem) (now : ℕ) → Consistent (added o item now)
added-Consistent o item now =
    let c =
      recalculate_totals-Consistent (record o { items = o.items ++ set_order_id item o.id ∷ [] }) in
    record { subtotal_lem = c.subtotal_lem; total_lem = c.total_lem }

add_item_ok :
    (o : Order) (item : OrderItem) (now : ℕ)
    → o.status ≡ pending
    → add_item o item now ≡ (added o item now, none)
unfolding add_item is_pending
add_item_ok o item now h = rw h

add_item_refused :
    (o : Order) (item : OrderItem) (now : ℕ)
    → o.status ≢ pending
    → add_item o item now ≡ (o, some not_pending)
unfolding add_item is_pending
add_item_refused o item now h = ground arith

-- `AddItem` on a pending order appends the item under the order's id, keeps discount, tax and
-- status, and makes the subtotal the sum of price times quantity over all items, and the total
-- that sum less the discount plus the tax, both reduced to 64 bits; any other order is refused
-- and unchanged.
pub add_item_lem :
    (o : Order) (item : OrderItem) (now : ℕ)
    → let (p, e) = add_item o item now in
      (o.status ≡ pending
        → (e ≡ none)
          × (p.items ≡ o.items ++ set_order_id item o.id ∷ [])
          × (p.discount ≡ o.discount)
          × (p.tax ≡ o.tax)
          × (p.status ≡ o.status)
          × Consistent p)
      × (o.status ≢ pending → add_item o item now ≡ (o, some not_pending))
unfolding recalculate_totals
add_item_lem o item now = (
  λ h. rw (add_item_ok o item now h) (refl, refl, refl, refl, refl, added-Consistent o item now),
  add_item_refused o item now,
)
