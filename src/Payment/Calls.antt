-- ===== src/Payment/Calls.antt =====
-- A history of a payment: the methods of `*Payment` as data, each with the time of its call.
use uniedit_server.Common.{ℕ, String, ℤ, pos, ◌+ℤ◌, List, [], ◌∷◌, Result, ok, err}
use uniedit_server.Payment.Errors.{PaymentError}
use uniedit_server.Payment.Status.{is_succeeded, can_transition_to}
use uniedit_server.Payment.Aggregate.{
  Payment, set_stripe_payment_intent_id, set_stripe_charge_id, set_trade_no, set_payer_id,
  mark_as_succeeded, mark_as_succeeded_native, mark_as_failed, mark_as_canceled, refund,
}

pub data Call : Type 0 where
  sets_intent sets_charge sets_trade_no sets_payer : String → Call
  succeeds : String → Call
  succeeds_native fails : String → String → Call
  cancels : Call
  refunds : ℤ → Call

-- What the call has paid back.
abbrev pub paid_back : Payment × Result PaymentError ℤ → Payment × ℤ
paid_back (p, ok n) = (p, n)
paid_back (p, err e) = (p, pos 0)

-- The new payment, and the amount that the call has paid back.
unfoldable pub step : Payment → Call → ℕ → Payment × ℤ
unfolding mark_as_succeeded mark_as_succeeded_native mark_as_failed mark_as_canceled
    set_stripe_payment_intent_id set_stripe_charge_id set_trade_no set_payer_id can_transition_to
    is_succeeded
step p (sets_intent id) now = (set_stripe_payment_intent_id p id now, pos 0)
step p (sets_charge id) now = (set_stripe_charge_id p id now, pos 0)
step p (sets_trade_no trade) now = (set_trade_no p trade now, pos 0)
step p (sets_payer id) now = (set_payer_id p id now, pos 0)
step p (succeeds charge) now = ((mark_as_succeeded p charge now).0, pos 0)
step p (succeeds_native trade payer) now = ((mark_as_succeeded_native p trade payer now).0, pos 0)
step p (fails code message) now = ((mark_as_failed p code message now).0, pos 0)
step p cancels now = ((mark_as_canceled p now).0, pos 0)
step p (refunds n) now = paid_back (refund p n now)

-- The payment after a history, and the sum of all that was paid back.
unfoldable pub run : Payment → List (Call × ℕ) → Payment × ℤ
run p [] = (p, pos 0)
run p ((c, now) ∷ cs) = let rest = run (step p c now).0 cs in (rest.0, (step p c now).1 +ℤ rest.1)
