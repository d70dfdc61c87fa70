-- ===== src/Payment/Aggregate.antt =====
-- internal/domain/payment/payment.go: the payment and its methods. A method that mutates `*Payment`
-- returns the new record with its result; `time.Now()` is the argument `now`, and a UUID is a number.
use uniedit_server.Common.{
  ℕ, String, not, ◌&&◌, ◌||◌, ◌==◌, if◌then◌else◌, ℤ, pos, lt_ℤ, le_ℤ, eq_ℤ, add64, sub64, Option,
  none, some, Result, ok, err,
}
use uniedit_server.Payment.Status.{
  PaymentStatus, pending, succeeded, failed, canceled, refunded, PaymentStatus_Eq, is_succeeded,
  can_transition_to, PaymentMethod,
}
use uniedit_server.Payment.Errors.{
  PaymentError, already_succeeded, not_succeeded, invalid_refund_amount, invalid_status_transition,
}

pub record Payment : Type 0 where
  pub id : ℕ
  pub order_id : ℕ
  pub user_id : ℕ
  pub amount : ℤ
  pub currency : String
  pub method : PaymentMethod
  pub status : PaymentStatus
  pub provider : String
  pub stripe_payment_intent_id : String
  pub stripe_charge_id : String
  pub trade_no : String
  pub payer_id : String
  pub failure_code : Option String
  pub failure_message : Option String
  pub refunded_amount : ℤ
  pub succeeded_at : Option ℕ
  pub failed_at : Option ℕ
  pub created_at : ℕ
  pub updated_at : ℕ

unfoldable pub new_payment : ℕ → ℕ → ℕ → ℕ → ℤ → String → PaymentMethod → String → Payment
new_payment new_id now order_id user_id amount currency method provider = record {
  id = new_id;
  order_id = order_id;
  user_id = user_id;
  amount = amount;
  currency = currency;
  method = method;
  status = pending;
  provider = provider;
  stripe_payment_intent_id = "";
  stripe_charge_id = "";
  trade_no = "";
  payer_id = "";
  failure_code = none;
  failure_message = none;
  refunded_amount = pos 0;
  succeeded_at = none;
  failed_at = none;
  created_at = now;
  updated_at = now;
}

unfoldable pub set_stripe_payment_intent_id : Payment → String → ℕ → Payment
set_stripe_payment_intent_id p id now = record p { stripe_payment_intent_id = id; updated_at = now }

unfoldable pub set_stripe_charge_id : Payment → String → ℕ → Payment
set_stripe_charge_id p id now = record p { stripe_charge_id = id; updated_at = now }

unfoldable pub set_trade_no : Payment → String → ℕ → Payment
set_trade_no p trade_no now = record p { trade_no = trade_no; updated_at = now }

unfoldable pub set_payer_id : Payment → String → ℕ → Payment
set_payer_id p payer_id now = record p { payer_id = payer_id; updated_at = now }

unfoldable pub mark_as_succeeded : Payment → String → ℕ → Payment × Option PaymentError
mark_as_succeeded p charge_id now =
    if is_succeeded p.status
    then (p, some already_succeeded)
    else if not (can_transition_to p.status succeeded)
    then (p, some invalid_status_transition)
    else (
      record p {
        status = succeeded;
        stripe_charge_id = charge_id;
        succeeded_at = some now;
        updated_at = now;
      },
      none,
    )

unfoldable pub mark_as_succeeded_native :
    Payment → String → String → ℕ → Payment × Option PaymentError
mark_as_succeeded_native p trade_no payer_id now =
    if is_succeeded p.status
    then (p, some already_succeeded)
    else if not (can_transition_to p.status succeeded)
    then (p, some invalid_status_transition)
    else (
      record p {
        status = succeeded;
        trade_no = trade_no;
        payer_id = payer_id;
        succeeded_at = some now;
        updated_at = now;
      },
      none,
    )

unfoldable pub mark_as_failed : Payment → String → String → ℕ → Payment × Option PaymentError
mark_as_failed p failure_code failure_message now =
    if not (can_transition_to p.status failed) then (p, some invalid_status_transition) else (
      record p {
        status = failed;
        failure_code = some failure_code;
        failure_message = some failure_message;
        failed_at = some now;
        updated_at = now;
      },
      none,
    )

unfoldable pub mark_as_canceled : Payment → ℕ → Payment × Option PaymentError
mark_as_canceled p now =
    if not (can_transition_to p.status canceled)
    then (p, some invalid_status_transition)
    else (record p { status = canceled; failed_at = some now; updated_at = now }, none)

-- The amount that a refund is asked for: `0` asks for all that remains.
abbrev pub asked : Payment → ℤ → ℤ
asked p amount = if eq_ℤ amount (pos 0) then sub64 p.amount p.refunded_amount else amount

-- The fields that a refund of `n` changes.
abbrev pub refunded_by : Payment → ℤ → ℕ → Payment
refunded_by p n now =
    let total = add64 p.refunded_amount n in
    record p {
      refunded_amount = total;
      status = if le_ℤ p.amount total then refunded else p.status;
      updated_at = now;
    }

unfoldable pub refund : Payment → ℤ → ℕ → Payment × Result PaymentError ℤ
refund p amount now =
    if not (is_succeeded p.status) && not (p.status == refunded)
    then (p, err not_succeeded)
    else let n = asked p amount in
      if le_ℤ n (pos 0) || lt_ℤ (sub64 p.amount p.refunded_amount) n
      then (p, err invalid_refund_amount)
      else (refunded_by p n now, ok n)
