-- ===== src/Billing/Credits.antt =====
-- The credits of a subscription: never overdrawn, and the sum of what was booked.
use uniedit_server.Common.{
  ap, refl, ◌∙◌, ◌≡◌, ◌≤◌, ◌<◌, ◌+◌, ℕ, ℤ, pos, pos_part, ◌+ℤ◌, ◌-ℤ◌, ◌≤ℤ◌, ◌<ℤ◌, two63, add64,
  sub64, add64_lem, sub64_lem, int_laws, +ℤ_assoc, List, [], ◌∷◌, some, none, arith,
}
use uniedit_server.Billing.Errors.{short_of_credits, not_positive}
use uniedit_server.Billing.Subscription.{Subscription, add_credits, deduct_credits}
use uniedit_server.Billing.Calls.{Call, adds, deducts, step, run, adds_at_most, all_adds}

-- `b` is a balance to which `room` can be added without overflow.
abbrev pub HasRoom : ℤ → ℕ → Type 0
HasRoom b room = (pos 0 ≤ℤ b) × (pos_part b + room < two63)

-- `DeductCredits` from a balance that is a 64-bit number and not negative succeeds when the amount
-- is positive and the balance covers it: it then lowers the balance by exactly the amount, which
-- leaves it not negative. Any other amount is refused, with the error that tells why, and nothing
-- changes.
pub deduct_credits_lem :
    (s : Subscription) (amount : ℤ) (now : ℕ)
    → HasRoom s.credits_balance 0
    → let (t, e) = deduct_credits s amount now in
      (pos 0 <ℤ amount
        → amount ≤ℤ s.credits_balance
        → (e ≡ none)
          × (t.credits_balance ≡ s.credits_balance -ℤ amount)
          × (pos 0 ≤ℤ t.credits_balance))
      × (amount ≤ℤ pos 0 → deduct_credits s amount now ≡ (s, some not_positive))
      × (pos 0 <ℤ amount
          → s.credits_balance <ℤ amount
          → deduct_credits s amount now ≡ (s, some (short_of_credits s.credits_balance amount)))
unfolding deduct_credits
deduct_credits_lem s amount now h = (
  (λ a b.
      let e = sub64_lem s.credits_balance amount (omega int_laws) in
      ground (arith, e, sub_nonneg s.credits_balance amount)),
  (λ a. ground arith),
  (λ a b. ground arith),
)
  where
    sub_nonneg : (a b : ℤ) → b ≤ℤ a → pos 0 ≤ℤ (a -ℤ b)
    sub_nonneg a b k = omega int_laws

-- The balance moves by what was booked, stays not negative, and grows by what may be added at most.
abbrev Books : ℤ → ℕ → ℤ → ℤ → Type 0
Books b room b' n = (b' ≡ b +ℤ n) × (pos 0 ≤ℤ b') × (pos_part b' ≤ pos_part b + room)

unmoved : (b : ℤ) (room : ℕ) → HasRoom b room → Books b room b (pos 0)
unmoved b room h = (omega int_laws, h.0, omega arith)

added : (b n : ℤ) → HasRoom b (pos_part n) → pos 0 <ℤ n → Books b (pos_part n) (add64 b n) n
added b n h low =
    let e = add64_lem b n (omega int_laws) in rw e (refl, omega int_laws, omega int_laws)

deducted : (b n : ℤ) → HasRoom b 0 → pos 0 <ℤ n → n ≤ℤ b → Books b 0 (sub64 b n) (pos 0 -ℤ n)
deducted b n h low high =
    let e = sub64_lem b n (omega int_laws) in rw e (omega int_laws, omega int_laws, omega int_laws)

step_books :
    (s : Subscription) (c : Call) (now : ℕ)
    → HasRoom s.credits_balance (adds_at_most c)
    → Books s.credits_balance (adds_at_most c) (step s c now).0.credits_balance (step s c now).1
unfolding step add_credits deduct_credits
step_books s (adds n) now h =
    ground (arith, unmoved s.credits_balance (pos_part n), added s.credits_balance n)
step_books s (deducts n) now h =
    ground (arith, unmoved s.credits_balance 0, deducted s.credits_balance n)
step_books s c now h = ground (arith, unmoved s.credits_balance 0)

-- Over any history of a subscription whose balance is not negative, if the balance and all that the
-- history tries to add stay below 2^63 together, the balance is never negative: it ends as the old
-- balance plus the credits added less the credits deducted by the calls that were accepted.
pub run_books :
    (s : Subscription) (cs : List (Call × ℕ))
    → HasRoom s.credits_balance (all_adds cs)
    → ((run s cs).0.credits_balance ≡ s.credits_balance +ℤ (run s cs).1)
      × (pos 0 ≤ℤ (run s cs).0.credits_balance)
unfolding run
run_books s [] h = (omega int_laws, h.0)
run_books s ((c, now) ∷ cs) h =
    let b = step_books s c now (h.0, omega arith) in
    let r = run_books (step s c now).0 cs (b.1, omega arith) in
    (r.0 ∙ ap (λ a. a +ℤ (run (step s c now).0 cs).1) b.0 ∙ +ℤ_assoc _ _ _, r.1)
