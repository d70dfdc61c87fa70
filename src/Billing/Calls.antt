-- ===== src/Billing/Calls.antt =====
-- A history of a subscription: the methods of `*Subscription` as data, each with its time.
use uniedit_server.Common.{
  ℕ, ◌+◌, String, Bool, ℤ, pos, pos_part, ◌+ℤ◌, ◌-ℤ◌, List, [], ◌∷◌, Option, none, some,
}
use uniedit_server.Billing.Errors.{BillingError}
use uniedit_server.Billing.Status.{SubscriptionStatus}
use uniedit_server.Billing.Plan.{Plan}
use uniedit_server.Billing.Subscription.{
  Subscription, cancel, reactivate, add_credits, deduct_credits, update_from_stripe, set_stripe_ids,
  set_plan, renew_period,
}

pub data Call : Type 0 where
  cancels : Bool → Call
  reactivates : Call
  adds deducts : ℤ → Call
  updates : SubscriptionStatus → ℕ → ℕ → Bool → Call
  sets_stripe_ids : String → String → Call
  sets_plan : Plan → Call
  renews : ℕ → ℕ → Call

-- The movement of the balance, if the call was accepted.
abbrev pub booked : Subscription × Option BillingError → ℤ → Subscription × ℤ
booked (s, none) n = (s, n)
booked (s, some e) n = (s, pos 0)

-- The new subscription, and by how much the call is to move the balance.
unfoldable pub step : Subscription → Call → ℕ → Subscription × ℤ
unfolding cancel reactivate update_from_stripe set_stripe_ids set_plan renew_period
step s (cancels immediately) now = ((cancel s immediately now).0, pos 0)
step s reactivates now = ((reactivate s now).0, pos 0)
step s (adds n) now = booked (add_credits s n now) n
step s (deducts n) now = booked (deduct_credits s n now) (pos 0 -ℤ n)
step s (updates st a b c) now = (update_from_stripe s st a b c now, pos 0)
step s (sets_stripe_ids a b) now = (set_stripe_ids s a b now, pos 0)
step s (sets_plan p) now = (set_plan s p now, pos 0)
step s (renews a b) now = (renew_period s a b now, pos 0)

unfoldable pub run : Subscription → List (Call × ℕ) → Subscription × ℤ
run s [] = (s, pos 0)
run s ((c, now) ∷ cs) = let rest = run (step s c now).0 cs in (rest.0, (step s c now).1 +ℤ rest.1)

-- The most that a call can add to the balance.
abbrev pub adds_at_most : Call → ℕ
adds_at_most (adds n) = pos_part n
adds_at_most _ = 0

abbrev pub all_adds : List (Call × ℕ) → ℕ
all_adds [] = 0
all_adds ((c, now) ∷ cs) = adds_at_most c + all_adds cs
