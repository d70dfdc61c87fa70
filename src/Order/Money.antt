-- ===== src/Order/Money.antt =====
-- internal/domain/order/money.go: an amount in the smallest currency unit, and its currency.
pub mod Laws
use uniedit_server.Common.{
  Bool, ◌&&◌, String, ◌==◌, String_Eq, eq_ℤ, lt_ℤ, if◌then◌else◌, ℤ, pos, add64, sub64, mul64,
  Result, ok, err,
}
use uniedit_server.Order.Errors.{OrderError, currency_mismatch}

pub record Money : Type 0 where
  pub amount : ℤ  -- int64
  pub currency : String

abbrev pub default_currency : String
default_currency = "usd"

-- The empty currency is replaced by the default one.
unfoldable pub new_money : ℤ → String → Money
new_money amount currency = record {
  amount = amount;
  currency = if currency == "" then default_currency else currency;
}

unfoldable pub is_zero : Money → Bool
is_zero m = eq_ℤ m.amount (pos 0)

unfoldable pub is_positive : Money → Bool
is_positive m = lt_ℤ (pos 0) m.amount

unfoldable pub is_negative : Money → Bool
is_negative m = lt_ℤ m.amount (pos 0)

unfoldable pub add : Money → Money → Result OrderError Money
add m other =
    if m.currency == other.currency
    then ok (new_money (add64 m.amount other.amount) m.currency)
    else err currency_mismatch

unfoldable pub subtract : Money → Money → Result OrderError Money
subtract m other =
    if m.currency == other.currency
    then ok (new_money (sub64 m.amount other.amount) m.currency)
    else err currency_mismatch

unfoldable pub multiply : Money → ℤ → Money
multiply m factor = new_money (mul64 m.amount factor) m.currency

unfoldable pub equals : Money → Money → Bool
equals m other = eq_ℤ m.amount other.amount && m.currency == other.currency
