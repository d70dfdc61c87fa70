-- ===== src/Order/Lifecycle.antt =====
-- What the histories of an order can do to its status and its timestamps.
use uniedit_server.Common.{
  ℕ, ◌+◌, ◌≤◌, ◌≡◌, refl, ◌≢◌, ◌⊎◌, Bool, true, false, ◌==◌, ==_refl, String, String_Eq, List, [],
  ◌∷◌, none, some, ok, if◌then◌else◌, arith,
}
use uniedit_server.Order.Status.{
  OrderStatus_Eq, OrderStatus, OrderType, pending, paid, canceled, refunded, failed,
  can_transition_to, other,
}
use uniedit_server.Order.Aggregate.{Order, new_order}
use uniedit_server.Order.Calls.{Call, pays, step, run}

-- A call that returns an error leaves the order as it was; one that succeeds leaves the status or
-- moves it along an entry of the transition table.
pub step_lawful :
    (o : Order) (c : Call) (now : ℕ)
    → ((step o c now).1 ≢ none → (step o c now).0 ≡ o)
      × (((step o c now).0.status ≡ o.status)
          ⊎ (can_transition_to o.status (step o c now).0.status ≡ true))
unfolding step
step_lawful o c now = ground arith

-- The timestamps that each status has.
abbrev pub Stamps : OrderStatus → Order → Type 0
Stamps pending o = (o.paid_at ≡ none) × (o.canceled_at ≡ none) × (o.refunded_at ≡ none)
Stamps paid o = (o.paid_at ≢ none) × (o.canceled_at ≡ none) × (o.refunded_at ≡ none)
Stamps canceled o = (o.paid_at ≡ none) × (o.canceled_at ≢ none) × (o.refunded_at ≡ none)
Stamps refunded o = (o.paid_at ≢ none) × (o.canceled_at ≡ none) × (o.refunded_at ≢ none)
Stamps failed o = (o.paid_at ≡ none) × (o.canceled_at ≡ none) × (o.refunded_at ≡ none)
Stamps (other s) o = ⊥

step-Stamps :
    (o : Order) (c : Call) (now : ℕ)
    → Stamps o.status o
    → Stamps (step o c now).0.status (step o c now).0
unfolding step can_transition_to
step-Stamps o c now h = ground arith

run-Stamps :
    (o : Order) (cs : List (Call × ℕ)) → Stamps o.status o → Stamps (run o cs).status (run o cs)
unfolding run
run-Stamps o [] h = h
run-Stamps o ((c, now) ∷ cs) h = run-Stamps (step o c now).0 cs (step-Stamps o c now h)

new_order-Stamps :
    (new_id now user_id : ℕ) (order_no : String) (t : OrderType) (currency : String) (o : Order)
    → new_order new_id now user_id order_no t currency ≡ ok o
    → Stamps o.status o
unfolding new_order
new_order-Stamps new_id now user_id order_no t currency o h = ground arith

-- After any history of a new order its status is one of the five, and exactly these timestamps are set:
-- none where it is pending or failed, that of the payment where it is paid, that of the cancellation where
-- it is canceled, and those of the payment and of the refund where it is refunded.
pub new_order-run-Stamps :
    (new_id now user_id : ℕ) (order_no : String) (t : OrderType) (currency : String)
    (cs : List (Call × ℕ)) (o : Order)
    → new_order new_id now user_id order_no t currency ≡ ok o
    → Stamps (run o cs).status (run o cs)
new_order-run-Stamps new_id now user_id order_no t currency cs o h =
    run-Stamps o cs (new_order-Stamps new_id now user_id order_no t currency o h)

-- The states that no method leaves.
abbrev pub is_final : OrderStatus → Bool
is_final pending = false
is_final paid = false
is_final _ = true

step_final :
    (o : Order) (c : Call) (now : ℕ) → is_final o.status ≡ true → (step o c now).0.status ≡ o.status
unfolding step can_transition_to
step_final o c now h = ground arith

-- A canceled, refunded or failed order keeps its status for ever, whatever is called.
pub run_final :
    (o : Order) (cs : List (Call × ℕ)) → is_final o.status ≡ true → (run o cs).status ≡ o.status
unfolding run
run_final o [] h = refl
run_final o ((c, now) ∷ cs) h =
    let e = step_final o c now h in rw (run_final (step o c now).0 cs (rw e h)) e

-- How many calls of a history change the status.
pub changes : Order → List (Call × ℕ) → ℕ
changes o [] = 0
changes o ((c, now) ∷ cs) =
    let next = (step o c now).0 in (if next.status == o.status then 0 else 1) + changes next cs

abbrev pub changes_left : OrderStatus → ℕ
changes_left pending = 2
changes_left paid = 1
changes_left _ = 0

step-changes_left :
    (o : Order) (c : Call) (now : ℕ)
    → (if (step o c now).0.status == o.status then 0 else 1) + changes_left (step o c now).0.status
      ≤ changes_left o.status
unfolding step can_transition_to
step-changes_left o c now = ground (arith, ==_refl o.status)

-- A history changes the status of an order at most twice: twice from `pending`, once from `paid`,
-- and never from any other status.
pub changes-le : (o : Order) (cs : List (Call × ℕ)) → changes o cs ≤ changes_left o.status
unfolding changes
changes-le o [] = omega arith
changes-le o ((c, now) ∷ cs) =
    omega (arith, step-changes_left o c now, changes-le (step o c now).0 cs)

-- How many calls of `MarkAsPaid` a history accepts.
pub payments : Order → List (Call × ℕ) → ℕ
payments o [] = 0
payments o ((pays, now) ∷ cs) =
    elim (step o pays now).1 [ none ↦ 1 | some e ↦ 0 ] + payments (step o pays now).0 cs
payments o ((c, now) ∷ cs) = payments (step o c now).0 cs

abbrev pub payable : OrderStatus → ℕ
payable pending = 1
payable _ = 0

step-payable : (o : Order) (c : Call) (now : ℕ) → payable (step o c now).0.status ≤ payable o.status
unfolding step can_transition_to
step-payable o c now = ground arith

pays-payable :
    (o : Order) (now : ℕ)
    → elim (step o pays now).1 [ none ↦ 1 | some e ↦ 0 ] + payable (step o pays now).0.status
      ≤ payable o.status
unfolding step can_transition_to
pays-payable o now = ground arith

-- A history accepts `MarkAsPaid` at most once, and never unless the order is pending at its start.
pub payments-le : (o : Order) (cs : List (Call × ℕ)) → payments o cs ≤ payable o.status
unfolding payments
payments-le o [] = omega arith
payments-le o ((pays, now) ∷ cs) =
    omega (arith, pays-payable o now, payments-le (step o pays now).0 cs)
payments-le o ((c, now) ∷ cs) = omega (arith, step-payable o c now, payments-le (step o c now).0 cs)
