-- ===== src/Billing/Service/Refinement.antt =====
-- The service moves credits and cancels as the aggregate does.
use uniedit_server.Common.{
  ◌≡◌, ℕ, ℤ, pos, ◌≤ℤ◌, ◌<ℤ◌, Bool, Option, none, some, ok, Service, fails_with, ◌>>◌, give, raise,
  call, arith,
}
use uniedit_server.Billing.Subscription.{Subscription, cancel, is_canceled}
use uniedit_server.Billing.Subscription
use uniedit_server.Billing.Errors.{
  BillingError, subscription_not_found, invalid_credits_amount, insufficient_credits,
  subscription_canceled, already_canceled, not_positive, short_of_credits, from_port,
}
use uniedit_server.Billing.Ports.{Ports}
use uniedit_server.Billing.Service.Account.{add_credits, deduct_credits, cancel_subscription}

module _ {W F : Type 0} (d : Ports W F) where
  -- The error of the service for one of the aggregate.
  abbrev pub sentinel : BillingError → BillingError
  sentinel already_canceled = subscription_canceled
  sentinel not_positive = invalid_credits_amount
  sentinel (short_of_credits balance amount) = insufficient_credits
  sentinel e = e

  -- For an error of the aggregate the service's own is returned and nothing is written; else its
  -- subscription is stored.
  abbrev pub stored : Subscription × Option BillingError → Service W BillingError (Unit {0})
  stored (s, some e) = raise (sentinel e)
  stored (s, none) = call from_port (d.update s)

  -- `AddCredits` and `DeductCredits` of the service refuse an amount that is not positive before
  -- they look anything up; on a stored subscription they run the method of the aggregate and store
  -- its result, or, where it fails, write nothing and return the error of the service that stands for
  -- its own; without a subscription they report it.
  pub credits_refine :
      (now user_id : ℕ) (amount : ℤ) (w w' : W)
      → (amount ≤ℤ pos 0
          → (add_credits d now user_id amount w ≡ (fails_with invalid_credits_amount, w))
            × (deduct_credits d now user_id amount w ≡ (fails_with invalid_credits_amount, w)))
        × ((s : Subscription)
            → pos 0 <ℤ amount
            → d.get_by_user_id user_id w ≡ (ok (some s), w')
            → (add_credits d now user_id amount w
                ≡ stored (Subscription.add_credits s amount now) w')
              × (deduct_credits d now user_id amount w
                  ≡ stored (Subscription.deduct_credits s amount now) w'))
        × (pos 0 <ℤ amount
            → d.get_by_user_id user_id w ≡ (ok none, w')
            → (add_credits d now user_id amount w ≡ (fails_with subscription_not_found, w'))
              × (deduct_credits d now user_id amount w ≡ (fails_with subscription_not_found, w')))
  unfolding add_credits deduct_credits Subscription.add_credits Subscription.deduct_credits
  credits_refine now user_id amount w w' = (
    λ h. (ground arith, ground arith),
    λ s h e. (ground arith, ground arith),
    λ h e. (ground arith, ground arith),
  )

  -- Likewise, with the subscription that was stored returned.
  abbrev pub stored_self : Subscription × Option BillingError → Service W BillingError Subscription
  stored_self (s, some e) = raise (sentinel e)
  stored_self (s, none) = do call from_port (d.update s); give s

  -- On a subscription that is found, `CancelSubscription` stores and returns what `Cancel` of the
  -- aggregate gives, or, where it fails, returns the service's error for it and writes nothing.
  pub cancel_subscription-cancel :
      (now user_id : ℕ) (immediately : Bool) (s : Subscription) (w w' : W)
      → d.get_by_user_id_with_plan user_id w ≡ (ok (some s), w')
      → cancel_subscription d now user_id immediately w ≡ stored_self (cancel s immediately now) w'
  unfolding cancel_subscription cancel
  cancel_subscription-cancel now user_id immediately s w w' e = ground arith
