-- ===== src/Order/Money/Laws.antt =====
-- Arithmetic on money: what `Add` and `Subtract` do to each other.
use uniedit_server.Common.{◌≡◌, ◌≢◌, String_Eq, IsInt64, sub64-add64, ok, err, arith, eq_iff, ◌↔◌}
use uniedit_server.Order.Errors.{currency_mismatch}
use uniedit_server.Order.Money.{Money, new_money, add, subtract}

-- `Subtract` undoes `Add`, also when the sum wraps around.
pub subtract-add :
    (m n p : Money) → IsInt64 m.amount → m.currency ≢ "" → add m n ≡ ok p → subtract p n ≡ ok m
unfolding add subtract new_money
subtract-add m n p h c e =
    ground
      (arith, eq_iff m.currency "", eq_iff m.currency n.currency, sub64-add64 m.amount n.amount)

-- `Add` is refused exactly when the currencies differ.
pub add-refused : (m n : Money) → (add m n ≡ err currency_mismatch) ↔ (m.currency ≢ n.currency)
unfolding add
add-refused m n = ground (arith, eq_iff m.currency n.currency)
