-- ===== src/Order/Service/Created.antt =====
-- The orders that the service creates.
use uniedit_server.Common.{
  ◌≡◌, refl, ℕ, ℤ, pos, ◌≤ℤ◌, ◌<ℤ◌, IsInt64, wrap64_id, add64, sub64, mul64, int_laws, eq_of_parts,
  ◌*ℤ◌, ◌+ℤ◌, ◌-ℤ◌, String, String_Eq, [], ◌∷◌, ok, returns, fails_with, arith,
}
use uniedit_server.Order.Errors.{minimum_topup_amount}
use uniedit_server.Order.Status.{pending}
use uniedit_server.Order.Money.{new_money, multiply}
use uniedit_server.Order.Item.{item_amount, restore_order_item}
use uniedit_server.Order.Aggregate.{recalculate_totals, sum_items}
use uniedit_server.Order.Model.{Order}
use uniedit_server.Order.Ports.{Ports}
use uniedit_server.Order.Service.Create.{create_topup_order, topup_row, only_item}
use uniedit_server.Order.Service.Refinement.{restore_order}

exact_times_one : (a : ℤ) → a *ℤ pos 1 ≡ a
unfolding ◌*ℤ◌
exact_times_one a = ground (arith, eq_of_parts (a *ℤ pos 1) a)

times_one : (a : ℤ) → IsInt64 a → mul64 a (pos 1) ≡ a
unfolding mul64
times_one a r = rw (exact_times_one a) (wrap64_id a r)

zero_plus : (a : ℤ) → IsInt64 a → add64 (pos 0) a ≡ a
unfolding add64
zero_plus a r = rw (exact a) (wrap64_id a r)
  where
    exact : (a : ℤ) → pos 0 +ℤ a ≡ a
    exact a = omega int_laws

unchanged : (a : ℤ) → IsInt64 a → add64 (sub64 a (pos 0)) (pos 0) ≡ a
unfolding add64 sub64
unchanged a r = rw (less a, wrap64_id a r, more a) (wrap64_id a r)
  where
    less : (a : ℤ) → a -ℤ pos 0 ≡ a
    less a = omega int_laws

    more : (a : ℤ) → a +ℤ pos 0 ≡ a
    more a = omega int_laws

module _ {W : Type 0} (d : Ports W) (topup_text : ℤ → String) where
  -- `CreateTopupOrder` refuses an amount below 100 before anything is stored. For any other 64-bit
  -- amount, when the order and its item can be stored, it returns a pending order that the aggregate
  -- restores with totals that agree with its items, for the amount, and with as many credits.
  pub create_topup_order_lem :
      (new_id item_id : ℕ) (order_no : String) (now user_id : ℕ) (amount : ℤ) (w w1 w2 : W)
      → let row = topup_row new_id order_no now user_id amount in
        let item = only_item item_id new_id (topup_text amount) amount in
        let result = create_topup_order d topup_text new_id item_id order_no now user_id amount w in
        (amount <ℤ pos 100 → result ≡ (fails_with minimum_topup_amount, w))
        × (IsInt64 amount
            → pos 100 ≤ℤ amount
            → d.create row w ≡ (ok tt, w1)
            → d.create_batch (item ∷ []) w1 ≡ (ok tt, w2)
            → (q : Order) × (result ≡ (returns q, w2))
              × (q.status ≡ pending)
              × (q.credits_amount ≡ amount)
              × (q.total ≡ amount)
              × (recalculate_totals (restore_order q) ≡ restore_order q))
  unfolding create_topup_order recalculate_totals restore_order sum_items item_amount multiply
      new_money restore_order_item
  create_topup_order_lem new_id item_id order_no now user_id amount w w1 w2 = (
    λ h. ground arith,
    λ r h e f. (
      record (topup_row new_id order_no now user_id amount) {
        items = only_item item_id new_id (topup_text amount) amount ∷ [];
      },
      ground arith,
      refl,
      refl,
      refl,
      rw (times_one amount r, zero_plus amount r, unchanged amount r) refl,
    ),
  )
