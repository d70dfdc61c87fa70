-- ===== src/Payment/History.antt =====
-- The states of a payment over a history, and the sum of all that it paid back.
use uniedit_server.Common.{
  ap, refl, sym, ◌∙◌, subst₂, ◌≡◌, ◌⊎◌, ℕ, ℤ, pos, ◌+ℤ◌, ◌≤ℤ◌, ◌<ℤ◌, IsInt64, int_laws, +ℤ_assoc,
  List, [], ◌∷◌, Result, ok, err, arith, true, String, eq_of_parts,
}
use uniedit_server.Payment.Errors.{PaymentError}
use uniedit_server.Payment.Status.{
  PaymentStatus_Eq, PaymentMethod, failed, canceled, is_succeeded, can_transition_to,
}
use uniedit_server.Payment.Aggregate.{Payment, new_payment, refund}
use uniedit_server.Payment.Calls.{Call, refunds, paid_back, step, run}
use uniedit_server.Payment.Refunds.{IsValid, bounded, refund_lem}

-- What a call does to a payment.
abbrev Keeps : Payment → Payment × ℤ → Type 0
Keeps p (q, n) =
    IsValid q × (pos 0 ≤ℤ n) × (q.refunded_amount ≡ p.refunded_amount +ℤ n) × (q.amount ≡ p.amount)

zero_split : (amount : ℤ) → pos 0 ≤ℤ amount → (pos 0 <ℤ amount) ⊎ (amount ≡ pos 0)
zero_split amount h = ground (arith, eq_of_parts amount (pos 0))

add_zero : (a : ℤ) → a ≡ a +ℤ pos 0
add_zero a = omega int_laws

paid_back-Keeps :
    (p : Payment) (r : Payment × Result PaymentError ℤ)
    → IsValid p
    → ((n : ℤ)
        → r.1 ≡ ok n
        → (pos 0 <ℤ n) × (r.0.refunded_amount ≡ p.refunded_amount +ℤ n) × IsValid r.0)
      × ((e : PaymentError) → r.1 ≡ err e → r.0 ≡ p)
    → r.0.amount ≡ p.amount
    → Keeps p (paid_back r)
paid_back-Keeps p (q, ok n) v (good, bad) same =
    let g = good n refl in (g.2, omega arith, g.1, same)
paid_back-Keeps p (q, err e) v (good, bad) same =
    rw (bad e refl) (v, omega arith, add_zero p.refunded_amount, refl)

refund-amount : (p : Payment) (n : ℤ) (now : ℕ) → (refund p n now).0.amount ≡ p.amount
unfolding refund is_succeeded
refund-amount p n now = ground arith

step-Keeps : (p : Payment) (c : Call) (now : ℕ) → IsValid p → Keeps p (step p c now)
unfolding step
step-Keeps p (refunds n) now v =
    paid_back-Keeps p (refund p n now) v (refund_lem p n now v) (refund-amount p n now)
step-Keeps p c now v = ground (arith, zero_split p.amount, add_zero p.refunded_amount)

run-Keeps : (p : Payment) (cs : List (Call × ℕ)) → IsValid p → Keeps p (run p cs)
unfolding run
run-Keeps p [] v = (v, omega arith, add_zero p.refunded_amount, refl)
run-Keeps p ((c, now) ∷ cs) v =
    let s = step-Keeps p c now v in
    let r = run-Keeps (step p c now).0 cs s.0 in
    (
      r.0,
      omega int_laws,
      r.2 ∙ ap (λ a. a +ℤ (run (step p c now).0 cs).1) s.2 ∙ +ℤ_assoc _ _ _,
      r.3 ∙ s.3,
    )

new_payment-IsValid :
    (new_id now order_id user_id : ℕ) (amount : ℤ) (currency : String) (m : PaymentMethod)
    (provider : String)
    → IsInt64 amount
    → pos 0 ≤ℤ amount
    → IsValid (new_payment new_id now order_id user_id amount currency m provider)
unfolding new_payment
new_payment-IsValid new_id now order_id user_id amount currency m provider r h = record {
  ranged = r;
  nonneg = h;
  matches = refl;
}

drop_zero : (a b : ℤ) → a ≡ pos 0 +ℤ b → b ≡ a
drop_zero a b h = omega int_laws ∙ sym h

run_from_zero :
    (p : Payment) (cs : List (Call × ℕ))
    → IsValid p
    → p.refunded_amount ≡ pos 0
    → ((run p cs).1 ≡ (run p cs).0.refunded_amount)
      × ((run p cs).1 ≤ℤ p.amount)
      × IsValid (run p cs).0
run_from_zero p cs v z =
    let k = run-Keeps p cs v in
    let q = (run p cs).0 in
    let back = drop_zero q.refunded_amount (run p cs).1 (k.2 ∙ ap (λ a. a +ℤ (run p cs).1) z) in
    let b = (bounded q.status q.amount q.refunded_amount k.0.nonneg k.0.matches).1 in
    (back, subst₂ ◌≤ℤ◌ (sym back) k.3 b, k.0)

-- Over any history of a new payment whose amount is not negative, all that was paid back adds up to
-- the refunded amount, which never passes the amount; and the refunded amount fits the status.
pub new_payment-run-IsValid :
    (new_id now order_id user_id : ℕ) (amount : ℤ) (currency : String) (m : PaymentMethod)
    (provider : String) (cs : List (Call × ℕ))
    → IsInt64 amount
    → pos 0 ≤ℤ amount
    → let (p, back) = run (new_payment new_id now order_id user_id amount currency m provider) cs in
      (back ≡ p.refunded_amount) × (back ≤ℤ amount) × IsValid p
unfolding new_payment
new_payment-run-IsValid new_id now order_id user_id amount currency m provider cs r h =
    run_from_zero (new_payment new_id now order_id user_id amount currency m provider) cs
      (new_payment-IsValid new_id now order_id user_id amount currency m provider r h) refl

-- A call that changes the status of a payment moves it along an entry of `CanTransitionTo`.
pub step-can_transition_to :
    (p : Payment) (c : Call) (now : ℕ)
    → ((step p c now).0.status ≡ p.status)
      ⊎ (can_transition_to p.status (step p c now).0.status ≡ true)
unfolding step refund
step-can_transition_to p c now = ground arith

step_dead :
    (p : Payment) (c : Call) (now : ℕ)
    → (p.status ≡ failed) ⊎ (p.status ≡ canceled)
    → ((step p c now).0.status ≡ p.status) × ((step p c now).1 ≡ pos 0)
unfolding step refund
step_dead p c now h = ground arith

-- A failed or canceled payment keeps its status for ever, and never pays anything back.
pub run_dead :
    (p : Payment) (cs : List (Call × ℕ))
    → (p.status ≡ failed) ⊎ (p.status ≡ canceled)
    → ((run p cs).0.status ≡ p.status) × ((run p cs).1 ≡ pos 0)
unfolding run
run_dead p [] h = (refl, refl)
run_dead p ((c, now) ∷ cs) h =
    let s = step_dead p c now h in
    let r = run_dead (step p c now).0 cs (rw s.0 h) in
    (r.0 ∙ s.0, rw (s.1, r.1) (sym (add_zero (pos 0))))
