-- ===== src/Order/Service/Expiry.antt =====
-- The expiry of pending orders.
use uniedit_server.Common.{◌≡◌, refl, ℕ, List, [], ◌∷◌, ok, returns, All}
use uniedit_server.Order.Status.{pending, failed, can_transition_to}
use uniedit_server.Order.Model.{Order}
use uniedit_server.Order.Ports.{Ports}
use uniedit_server.Order.Service.Transitions.{expire_each, expire_pending_orders}

module _ {W : Type 0} (d : Ports W) where
  -- The world after every order of a list was written as failed, whether or not a write succeeded.
  abbrev pub all_failed : ℕ → List Order → W → W
  all_failed now [] w = w
  all_failed now (o ∷ orders) w =
      all_failed now orders (d.update (record o { status = failed; updated_at = now }) w).1

  abbrev IsPending : Order → Type 0
  IsPending o = o.status ≡ pending

  each_failed :
      (now : ℕ) (orders : List Order) (w : W)
      → All IsPending orders
      → expire_each d now orders w ≡ (returns tt, all_failed now orders w)
  unfolding expire_each can_transition_to
  each_failed now [] w h = refl
  each_failed now (o ∷ orders) w h = rw h.0 (each_failed now orders _ h.1)

  -- When the database lists expired orders, all pending, `ExpirePendingOrders` succeeds and has
  -- written each of them as failed, in order: a write that fails stops neither the others nor the call.
  pub expire_pending_orders-all_failed :
      (now : ℕ) (orders : List Order) (w w' : W)
      → d.list_pending_expired w ≡ (ok orders, w')
      → All IsPending orders
      → expire_pending_orders d now w ≡ (returns tt, all_failed now orders w')
  unfolding expire_pending_orders
  expire_pending_orders-all_failed now orders w w' e h = rw e (each_failed now orders w' h)
