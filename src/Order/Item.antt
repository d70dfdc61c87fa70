-- ===== src/Order/Item.antt =====
-- internal/domain/order/order.go: a line item. A UUID is a number, `0` for `uuid.Nil`; the id that
-- `uuid.New` draws is an argument.
use uniedit_server.Common.{ℕ, String, String_Eq, ◌==◌, if◌then◌else◌, ℤ, pos, le_ℤ, Result, ok, err}
use uniedit_server.Order.Errors.{OrderError, empty_description, nonpositive_quantity}
use uniedit_server.Order.Money.{Money, new_money, multiply}

pub record OrderItem : Type 0 where
  pub id : ℕ
  pub order_id : ℕ
  pub description : String
  pub quantity : ℤ  -- int
  pub unit_price : Money

unfoldable pub new_order_item : ℕ → String → ℤ → Money → Result OrderError OrderItem
new_order_item new_id description quantity unit_price =
    if description == ""
    then err empty_description
    else if le_ℤ quantity (pos 0)
    then err nonpositive_quantity
    else ok (record {
      id = new_id;
      order_id = 0;
      description = description;
      quantity = quantity;
      unit_price = unit_price;
    })

-- From persisted data, with no validation.
unfoldable pub restore_order_item : ℕ → ℕ → String → ℤ → ℤ → String → OrderItem
restore_order_item id order_id description quantity unit_price_amount currency = record {
  id = id;
  order_id = order_id;
  description = description;
  quantity = quantity;
  unit_price = new_money unit_price_amount currency;
}

-- `OrderItem.Amount`: quantity * unit_price.
unfoldable pub item_amount : OrderItem → Money
item_amount i = multiply i.unit_price i.quantity

unfoldable pub set_order_id : OrderItem → ℕ → OrderItem
set_order_id i order_id = record i { order_id = order_id }
