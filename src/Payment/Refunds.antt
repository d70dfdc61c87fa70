-- ===== src/Payment/Refunds.antt =====
-- What the refunds of a payment add up to.
use uniedit_server.Common.{
  ap, refl, sym, ◌∙◌, subst, ◌≡◌, ◌⊎◌, ℕ, ℤ, pos, ◌+ℤ◌, ◌-ℤ◌, ◌≤ℤ◌, ◌<ℤ◌, pos_part, neg_part,
  IsInt64, add64, sub64, add64_lem, sub64_lem, int_laws, ok, err, arith, Bool-cases, inl, inr,
  if◌then◌else◌, le_ℤ, eq_of_parts,
}
use uniedit_server.Payment.Errors.{PaymentError}
use uniedit_server.Payment.Status.{
  PaymentStatus, pending, processing, succeeded, failed, canceled, refunded, other, is_succeeded,
}
use uniedit_server.Payment.Aggregate.{Payment, refund, asked, refunded_by}

-- What has been refunded, for each status: nothing before success, part of it while `succeeded`,
-- and all of it when `refunded`.
abbrev pub RefundedFor : PaymentStatus → ℤ → ℤ → Type 0
RefundedFor succeeded amount total =
    (pos 0 ≤ℤ total) × (total ≤ℤ amount) × ((total <ℤ amount) ⊎ (amount ≡ pos 0))
RefundedFor refunded amount total = total ≡ amount
RefundedFor (other s) amount total = ⊥
RefundedFor _ amount total = total ≡ pos 0

pub record IsValid (p : Payment) : Type 0 where
  pub ranged : IsInt64 p.amount
  pub nonneg : pos 0 ≤ℤ p.amount
  pub matches : RefundedFor p.status p.amount p.refunded_amount

-- The refunded amount of a valid payment lies between zero and the amount.
pub bounded :
    (s : PaymentStatus) (amount total : ℤ)
    → pos 0 ≤ℤ amount
    → RefundedFor s amount total
    → (pos 0 ≤ℤ total) × (total ≤ℤ amount)
bounded pending amount total h m = rw m (omega arith)
bounded processing amount total h m = rw m (omega arith)
bounded succeeded amount total h m = (m.0, m.1)
bounded failed amount total h m = rw m (omega arith)
bounded canceled amount total h m = rw m (omega arith)
bounded refunded amount total h m = rw m (omega arith)
bounded (other s) amount total h m = absurd m

remaining :
    (p : Payment) → IsValid p → sub64 p.amount p.refunded_amount ≡ p.amount -ℤ p.refunded_amount
remaining p v =
    let b = bounded p.status p.amount p.refunded_amount v.nonneg v.matches in
    sub64_lem p.amount p.refunded_amount (omega int_laws)

-- What a successful `Refund` has tested, and what it leaves.
refund_ok :
    (p : Payment) (amount n : ℤ) (now : ℕ)
    → (refund p amount now).1 ≡ ok n
    → ((p.status ≡ succeeded) ⊎ (p.status ≡ refunded))
      × (n ≡ asked p amount)
      × (pos 0 <ℤ n)
      × (n ≤ℤ sub64 p.amount p.refunded_amount)
      × ((refund p amount now).0 ≡ refunded_by p n now)
unfolding refund is_succeeded
refund_ok p amount n now h = ground arith

refunded_matches :
    (s : PaymentStatus) (amount total : ℤ)
    → s ≡ succeeded
    → pos 0 ≤ℤ total
    → total ≤ℤ amount
    → RefundedFor (if le_ℤ amount total then refunded else s) amount total
refunded_matches s amount total e low high = elim (Bool-cases (le_ℤ amount total)) [
  | inl full ↦ rw full (eq_of_parts total amount (ground arith))
  | inr part ↦ rw (part, e) (low, high, inl (ground arith))
]

still_succeeded :
    (s : PaymentStatus) (amount total n : ℤ)
    → (s ≡ succeeded) ⊎ (s ≡ refunded)
    → RefundedFor s amount total
    → pos 0 <ℤ n
    → n ≤ℤ amount -ℤ total
    → s ≡ succeeded
still_succeeded s amount total n (inl e) m low high = e
still_succeeded s amount total n (inr e) m low high =
    let full : total ≡ amount = subst (λ t. RefundedFor t amount total) e m in
    absurd (omega (int_laws, ap pos_part full, ap neg_part full))

refund_of :
    (p : Payment) (n : ℤ) (now : ℕ)
    → IsValid p
    → (p.status ≡ succeeded) ⊎ (p.status ≡ refunded)
    → pos 0 <ℤ n
    → n ≤ℤ p.amount -ℤ p.refunded_amount
    → ((refunded_by p n now).refunded_amount ≡ p.refunded_amount +ℤ n)
      × IsValid (refunded_by p n now)
refund_of p n now v st low high =
    let b = bounded p.status p.amount p.refunded_amount v.nonneg v.matches in
    let e = add64_lem p.refunded_amount n (omega int_laws) in
    (
      e,
      record {
        ranged = v.ranged;
        nonneg = v.nonneg;
        matches =
            refunded_matches p.status p.amount _
              (still_succeeded p.status p.amount p.refunded_amount n st v.matches low high)
              (rw e (omega int_laws)) (rw e (omega int_laws));
      },
    )

refund_err :
    (p : Payment) (amount : ℤ) (now : ℕ) (e : PaymentError)
    → (refund p amount now).1 ≡ err e
    → (refund p amount now).0 ≡ p
unfolding refund is_succeeded
refund_err p amount now e h = ground arith

-- A `Refund` that succeeds on a valid payment pays back a positive amount, adds exactly that to the
-- refunded amount, and leaves the payment valid; one that fails leaves the payment as it was.
pub refund_lem :
    (p : Payment) (amount : ℤ) (now : ℕ)
    → IsValid p
    → let (q, r) = refund p amount now in
      ((n : ℤ) → r ≡ ok n → (pos 0 <ℤ n) × (q.refunded_amount ≡ p.refunded_amount +ℤ n) × IsValid q)
      × ((e : PaymentError) → r ≡ err e → q ≡ p)
refund_lem p amount now v = (
  λ n h.
      let t = refund_ok p amount n now h in
      let g = refund_of p n now v t.0 t.2 (rw (← remaining p v) t.3) in
      (t.2, ap (λ q. q.refunded_amount) t.4 ∙ g.0, subst IsValid (sym t.4) g.1),
  refund_err p amount now,
)

refund_accepts :
    (p : Payment) (amount : ℤ) (now : ℕ)
    → p.status ≡ succeeded
    → pos 0 <ℤ asked p amount
    → asked p amount ≤ℤ sub64 p.amount p.refunded_amount
    → refund p amount now ≡ (refunded_by p (asked p amount) now, ok (asked p amount))
unfolding refund is_succeeded
refund_accepts p amount now s low high = ground arith

add_remaining :
    (p : Payment) → IsValid p → add64 p.refunded_amount (p.amount -ℤ p.refunded_amount) ≡ p.amount
add_remaining p v =
    let e : p.refunded_amount +ℤ (p.amount -ℤ p.refunded_amount) ≡ p.amount = omega int_laws in
    add64_lem p.refunded_amount (p.amount -ℤ p.refunded_amount) (rw e v.ranged) ∙ e

-- Asked for `0`, `Refund` of a valid payment that succeeded and has something left pays back all
-- that is left, and the payment is then `refunded`.
pub refund_all :
    (p : Payment) (now : ℕ)
    → IsValid p
    → p.status ≡ succeeded
    → p.refunded_amount <ℤ p.amount
    → let (q, r) = refund p (pos 0) now in
      (r ≡ ok (p.amount -ℤ p.refunded_amount))
      × (q.status ≡ refunded)
      × (q.refunded_amount ≡ p.amount)
refund_all p now v s left =
    let rest = remaining p v in
    let whole = add_remaining p v in
    rw
      (
        refund_accepts p (pos 0) now s (rw rest (omega int_laws)) (rw rest (omega int_laws)),
        rest,
        whole,
      )
      (refl, ground arith, refl)
