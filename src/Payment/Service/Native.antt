-- ===== src/Payment/Service/Native.antt =====
-- internal/domain/payment/domain.go: the notifications of Alipay and WeChat.
use Prim.Native.String.{◌++◌ as append_text}
use uniedit_server.Common.{
  ℕ, String, String_Eq, false, ◌==◌, ℕ_Eq, if◌then◌else◌, Option, none, some, List, ok, err,
  Service, Reply, returns, fails_with, panics, found, ◌>>=◌, ◌>>◌, give, require, try, call, deref,
}
use uniedit_server.Payment.Errors.{
  PaymentError, invalid_status_transition, provider_not_available, invalid_payment_id, from_port,
}
use uniedit_server.Payment.Status.{
  succeeded, canceled, PaymentStatus_Eq, is_succeeded, can_transition_to,
}
use uniedit_server.Payment.Aggregate.{Payment}
use uniedit_server.Payment.Ports.{Ports, WebhookEvent, ProviderNotifyResult}
use uniedit_server.Payment.Service.Stripe.{settle}

module _ {W : Type 0} (d : Ports W) where
  unfoldable pub handle_native_payment_success :
      Payment → ProviderNotifyResult → ℕ → Service W PaymentError (Unit {0})
  handle_native_payment_success p result now = if is_succeeded p.status then give tt else do
    require (can_transition_to p.status succeeded) invalid_status_transition
    let q = record p {
      status = succeeded;
      trade_no = result.trade_no;
      payer_id = result.payer_id;
      succeeded_at = some now;
      updated_at = now;
    }
    call from_port (d.update q)
    ord ← try (d.get_order q.order_id)
    elim ord [ err e ↦ give tt | ok o ↦ settle d q o q.order_id ]

  unfoldable pub handle_native_payment_closed : Payment → ℕ → Service W PaymentError (Unit {0})
  handle_native_payment_closed p now = do
    require (can_transition_to p.status canceled) invalid_status_transition
    call from_port
        (d.update (record p { status = canceled; failed_at = some now; updated_at = now }))

  -- The `switch` on the status of the notification.
  unfoldable pub process : Payment → ProviderNotifyResult → ℕ → Service W PaymentError (Unit {0})
  process p result now =
      if result.status == "success"
      then handle_native_payment_success p result now
      else if result.status == "closed"
      then handle_native_payment_closed p now
      else give tt

  abbrev process_error : Reply PaymentError (Unit {0}) → Option PaymentError
  process_error (fails_with e) = some e
  process_error _ = none

  -- Mark the event as processed, whatever the processing returned, and answer.
  unfoldable pub finish :
      ℕ → String → Reply PaymentError (Unit {0}) × W → Reply PaymentError String × W
  finish event_id resp (returns a, w) = (returns resp, (d.mark_processed event_id none w).1)
  finish event_id resp (fails_with e, w) = (fails_with e, (d.mark_processed event_id (some e) w).1)
  finish event_id resp (panics, w) = (panics, w)

  unfoldable pub webhook_event : ℕ → ℕ → String → ProviderNotifyResult → WebhookEvent
  webhook_event new_id now provider_name result = record {
    id = new_id;
    provider = provider_name;
    event_id = append_text (append_text provider_name ":") result.trade_no;
    event_type = "payment";
    trade_no = "";
    out_trade_no = "";
    payload = result.raw_data;
    processed = false;
    processed_at = none;
    error = none;
    created_at = now;
  }

  -- Store the event; a refusal is taken for a duplicate, and the notification is skipped.
  unfoldable pub record_and_process :
      ℕ → ℕ → String → Payment → ProviderNotifyResult → Service W PaymentError String
  record_and_process new_id now provider_name p result = do
    stored ← try (d.create_event (webhook_event new_id now provider_name result))
    elim stored [
      | err e ↦ give result.success_resp
      | ok u ↦ λ w. finish new_id result.success_resp (process p result now w)
    ]

  unfoldable pub handle_native_payment_notify :
      ℕ → ℕ → String → String → List (String × String) → Service W PaymentError String
  handle_native_payment_notify new_id now provider_name body headers = do
    reg ← deref d.provider_reg
    native ← call (λ _. provider_not_available) (reg.get_native provider_name)
    result ← call from_port (native.parse_notify body headers)
    payment_id ← found (d.parse_uuid result.out_trade_no) invalid_payment_id
    p ← deref (← call from_port (d.find_by_id payment_id))
    if p.status == succeeded
        then give result.success_resp
        else record_and_process new_id now provider_name p result
