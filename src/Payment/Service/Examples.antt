-- ===== src/Payment/Service/Examples.antt =====
-- The service's theorems over the ports in memory.
use uniedit_server.Common.{
  true, ◌≡◌, refl, pos, ◌+ℤ◌, ◌-ℤ◌, String, String_Eq, none, some, List, [], ◌∷◌, eq_iff, arith,
  returns, add64, sub64, wrap64,
}
use uniedit_server.Payment.Status.{pending, succeeded, card, is_succeeded}
use uniedit_server.Payment.Aggregate.{Payment, refund, mark_as_succeeded}
use uniedit_server.Payment.Ports.{Ports, PaymentOrderInfo, ProviderNotifyResult, WebhookEvent}
use uniedit_server.Payment.Service.Refund.{create_refund, refund_by_provider, close_order}
use uniedit_server.Payment.Service.Stripe.{handle_payment_succeeded}
use uniedit_server.Payment.Service.Native.{
  record_and_process, webhook_event, handle_native_payment_notify,
}
use uniedit_server.Payment.Service.Refinement.{
  carried_out, create_refund-refund, charged, handle_payment_succeeded-mark_as_succeeded,
}
use uniedit_server.Payment.Service.Settlement.{no_op_publish}
use uniedit_server.Payment.Service.Redelivery.{later_notification_dropped}
use uniedit_server.Payment.Service.Memory.{World, memory, find, has_event, memory-UniqueEvents}

abbrev bill : Payment
bill = record {
  id = 31;
  order_id = 11;
  user_id = 5;
  amount = pos 1500;
  currency = "usd";
  method = card;
  status = pending;
  provider = "stripe";
  stripe_payment_intent_id = "pi_1";
  stripe_charge_id = "";
  trade_no = "";
  payer_id = "";
  failure_code = none;
  failure_message = none;
  refunded_amount = pos 0;
  succeeded_at = none;
  failed_at = none;
  created_at = 100;
  updated_at = 100;
}

abbrev charged_bill : Payment
charged_bill = record bill {
  status = succeeded;
  stripe_charge_id = "ch_1";
  succeeded_at = some 101;
  updated_at = 101;
}

abbrev top_up : PaymentOrderInfo
top_up = record {
  id = 11;
  user_id = 5;
  order_type = "topup";
  status = "pending";
  total = pos 1500;
  currency = "usd";
  credits_amount = pos 1500;
  plan_id = "";
}

abbrev world : List Payment → World
world ps = record { payments = ps; events = []; order = top_up; credits = pos 0; paid_back = pos 0 }

abbrev notice : String → ProviderNotifyResult
notice status = record {
  trade_no = "T1";
  out_trade_no = "31";
  amount = pos 1500;
  status = status;
  payer_id = "buyer";
  pay_time = pos 0;
  raw_data = "";
  success_resp = "success";
}

abbrev ports : Ports World
ports = memory none (notice "success")

abbrev silent : Ports World
silent = memory (some no_op_publish) (notice "success")

refunded_world :
    (create_refund ports 77 110 31 (pos 0) "" (world (charged_bill ∷ []))).1.paid_back ≡ pos 1500
unfolding create_refund refund_by_provider close_order memory add64 sub64 wrap64 ◌+ℤ◌ ◌-ℤ◌
    is_succeeded
refunded_world = refl

create_refund-refund_example :
    create_refund ports 77 110 31 (pos 400) "" (world (charged_bill ∷ []))
    ≡ carried_out ports charged_bill 77 ""
        (refund charged_bill (pos 400) 110)
        (world (charged_bill ∷ []))
unfolding memory
create_refund-refund_example =
    create_refund-refund ports 77 110 31 (pos 400) "" charged_bill _ _ refl

handle_payment_succeeded-mark_as_succeeded_example :
    handle_payment_succeeded ports 77 101 "pi_1" "ch_1" (world (bill ∷ []))
    ≡ charged ports top_up (mark_as_succeeded bill "ch_1" 101) (world (bill ∷ []))
unfolding memory
handle_payment_succeeded-mark_as_succeeded_example =
    handle_payment_succeeded-mark_as_succeeded ports 77 101 "pi_1" "ch_1" top_up bill _ _ _ refl
      refl

abbrev paid_world : World
paid_world = record (world (charged_bill ∷ [])) { order = record top_up { status = "paid" } }

abbrev event : WebhookEvent
event = webhook_event ports 41 101 "alipay" (notice "pending")

-- The world after the first notification.
abbrev noted : World
noted = record (world (bill ∷ [])) { events = event ∷ [] }

later_notification_dropped_example :
    let first =
      record_and_process ports 41 101 "alipay" bill (notice "pending") (world (bill ∷ [])) in
    (first.0 ≡ returns "success")
    × (has_event event.provider event.event_id first.1 ≡ true)
    × (handle_native_payment_notify ports 42 102 "alipay" "" [] noted ≡ (returns "success", noted))
unfolding memory memory-UniqueEvents webhook_event find
later_notification_dropped_example =
    later_notification_dropped ports (memory-UniqueEvents none (notice "success")) 41 42 101 102
      "alipay" "" [] bill bill (notice "pending") (notice "success") _ _ 31 (world (bill ∷ [])) _
      noted _ _ _ (λ e. ground (arith, eq_iff "pending" "success"))
      (λ e. ground (arith, eq_iff "pending" "closed")) refl refl refl refl refl refl refl refl
