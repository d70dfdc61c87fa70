-- ===== src/Payment/Examples.antt =====
-- The payment's theorems at concrete inputs, and runs of the code.
use uniedit_server.Common.{
  ◌≡◌, inl, refl, ℕ, pos, ◌+ℤ◌, ◌-ℤ◌, ◌≤ℤ◌, List, [], ◌∷◌, some, none, add64, sub64, wrap64, arith,
}
use uniedit_server.Payment.Status.{pending, succeeded, card}
use uniedit_server.Payment.Aggregate.{Payment, new_payment, refund}
use uniedit_server.Payment.Calls.{Call, succeeds, refunds, step, run}
use uniedit_server.Payment.Refunds.{IsValid}
use uniedit_server.Payment.History.{new_payment-run-IsValid}

abbrev started : Payment
started = record {
  id = 31;
  order_id = 11;
  user_id = 5;
  amount = pos 1500;
  currency = "usd";
  method = card;
  status = pending;
  provider = "stripe";
  stripe_payment_intent_id = "";
  stripe_charge_id = "";
  trade_no = "";
  payer_id = "";
  failure_code = none;
  failure_message = none;
  refunded_amount = pos 0;
  succeeded_at = none;
  failed_at = none;
  created_at = 100;
  updated_at = 100;
}

abbrev charged : Payment
charged = record started {
  status = succeeded;
  stripe_charge_id = "ch_1";
  refunded_amount = pos 500;
  succeeded_at = some 101;
}

charged-IsValid : IsValid charged
charged-IsValid = record {
  ranged = omega arith;
  nonneg = omega arith;
  matches = (omega arith, omega arith, inl (omega arith));
}

abbrev returned : List (Call × ℕ)
returned =
    (succeeds "ch_1", 101)
    ∷ (refunds (pos 500), 102)
    ∷ (refunds (pos 1200), 103)
    ∷ (refunds (pos 0), 104)
    ∷ []

returned_in_full : (run started returned).1 ≡ pos 1500
unfolding run step refund add64 sub64 wrap64 ◌+ℤ◌ ◌-ℤ◌
returned_in_full = refl

new_payment-run-IsValid_example :
    let (p, back) = run (new_payment 31 100 11 5 (pos 1500) "usd" card "stripe") returned in
    (back ≡ p.refunded_amount) × (back ≤ℤ pos 1500) × IsValid p
new_payment-run-IsValid_example =
    new_payment-run-IsValid 31 100 11 5 (pos 1500) "usd" card "stripe" returned (omega arith)
      (omega arith)
