-- ===== src/Order/Status.antt =====
-- internal/domain/order/status.go: the states of an order and the table of its transitions.
use uniedit_server.Common.{
  ◌≡◌, Bool, true, false, ◌||◌, String, List, [], ◌∷◌, Option, none, some, Eq, ◌==◌, any, ◌↔◌,
  arith, eq_iff, str_eq,
}

-- `other s` is a string that is none of the constants.
pub data OrderStatus : Type 0 where
  pending paid canceled refunded failed : OrderStatus
  other : String → OrderStatus

abbrev status_eq : OrderStatus → OrderStatus → Bool
status_eq pending pending = true
status_eq paid paid = true
status_eq canceled canceled = true
status_eq refunded refunded = true
status_eq failed failed = true
status_eq (other s) (other t) = str_eq s t
status_eq _ _ = false

pub status_eq_iff : (s t : OrderStatus) → (status_eq s t ≡ true) ↔ (s ≡ t)
status_eq_iff (other s) (other t) = ground (arith, eq_iff s t)
status_eq_iff s t = ground arith

instance abbrev pub OrderStatus_Eq : Eq OrderStatus
OrderStatus_Eq = record { is_eq = status_eq; is_eq_iff = status_eq_iff }

-- `OrderStatus.IsValid`.
unfoldable pub status_is_valid : OrderStatus → Bool
status_is_valid (other s) = false
status_is_valid _ = true

unfoldable pub is_terminal : OrderStatus → Bool
is_terminal s = s == canceled || s == refunded

pub data OrderType : Type 0 where
  subscription topup upgrade : OrderType
  other_type : String → OrderType

-- `OrderType.IsValid`.
unfoldable pub type_is_valid : OrderType → Bool
type_is_valid (other_type s) = false
type_is_valid _ = true

-- The map `transitions`; `none` is a missing key.
unfoldable pub transitions : OrderStatus → Option (List OrderStatus)
transitions pending = some (paid ∷ canceled ∷ failed ∷ [])
transitions paid = some (refunded ∷ [])
transitions canceled = some []
transitions refunded = some []
transitions failed = some (pending ∷ [])
transitions (other s) = none

unfoldable pub can_transition_to : OrderStatus → OrderStatus → Bool
unfolding transitions
can_transition_to s target = elim (transitions s) [
  | none ↦ false
  | some allowed ↦ any (λ a. a == target) allowed
]

-- A copy of the entry, and the empty list for a missing key.
unfoldable pub allowed_transitions : OrderStatus → List OrderStatus
unfolding transitions
allowed_transitions s = elim (transitions s) [ none ↦ [] | some allowed ↦ allowed ]
