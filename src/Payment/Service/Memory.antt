-- ===== src/Payment/Service/Memory.antt =====
-- The ports in memory: a table of payments, a table of events with its unique index, one order with
-- its buyer's credits, and the sum that providers were asked to pay back.
use uniedit_server.Common.{
  ◌≡◌, refl, ℤ, pos, ◌+ℤ◌, String, String_Eq, ℕ_Eq, ◌==◌, ==_refl, Bool, true, false, ◌&&◌, Option,
  none, some, if◌then◌else◌, List, [], ◌∷◌, any, ok, err, Port, arith,
}
use uniedit_server.Payment.Aggregate.{Payment}
use uniedit_server.Payment.Ports.{
  Ports, PaymentOrderInfo, PaymentProvider, NativePaymentProvider, PaymentEvent,
  ProviderNotifyResult, WebhookEvent,
}
use uniedit_server.Payment.Service.Redelivery.{UniqueEvents}

pub record World : Type 0 where
  pub payments : List Payment
  pub events : List WebhookEvent
  pub order : PaymentOrderInfo
  pub credits : ℤ
  pub paid_back : ℤ

unfoldable pub find : (Payment → Bool) → List Payment → Option Payment
find test [] = none
find test (p ∷ ps) = elim (test p) [ true ↦ some p | false ↦ find test ps ]

unfoldable pub save : Payment → List Payment → List Payment
save p [] = p ∷ []
save p (q ∷ qs) = if q.id == p.id then p ∷ qs else q ∷ save p qs

abbrev pub same_key : String → String → WebhookEvent → Bool
same_key provider event_id e = e.provider == provider && e.event_id == event_id

abbrev pub has_event : String → String → World → Bool
has_event provider event_id w = any (same_key provider event_id) w.events

abbrev create_event : WebhookEvent → Port World (Unit {0})
create_event e w =
    if has_event e.provider e.event_id w
    then (err "duplicate key", w)
    else (ok tt, record w { events = e ∷ w.events })

abbrev stripe : PaymentProvider World
stripe = record {
  name = "stripe";
  create_payment_intent = λ amount currency customer metadata w. (
    ok (record {
      id = "pi_1";
      client_secret = "cs_1";
      amount = amount;
      currency = currency;
      status = "";
      metadata = metadata;
    }),
    w,
  );
  create_refund = λ charge n reason w. (ok tt, record w { paid_back = w.paid_back +ℤ n });
}

abbrev native : ProviderNotifyResult → NativePaymentProvider World
native result = record {
  name = "alipay";
  create_native_payment = λ scene id amount subject description notify_url return_url metadata w. (
    ok (record {
      order_id = id;
      trade_no = "T1";
      pay_url = "pay";
      qr_code = "";
      app_pay_data = "";
      mini_pay_data = metadata;
      amount = amount;
      currency = "CNY";
      expire_time = pos 0;
    }),
    w,
  );
  refund_payment =
      λ id trade_no refund_id n total reason w. (ok tt, record w { paid_back = w.paid_back +ℤ n });
  parse_notify = λ body headers w. (ok result, w);
}

unfoldable pub memory :
    Option (PaymentEvent → Port World (Unit {0})) → ProviderNotifyResult → Ports World
unfolding find save
memory publisher result = record {
  find_by_id = λ id w. (ok (find (λ p. p.id == id) w.payments), w);
  find_by_payment_intent_id =
      λ id w. (ok (find (λ p. p.stripe_payment_intent_id == id) w.payments), w);
  create = λ p w. (ok tt, record w { payments = save p w.payments });
  update = λ p w. (ok tt, record w { payments = save p w.payments });
  create_event = create_event;
  mark_processed = λ id x w. (ok tt, w);
  provider_reg = some (record {
    get = λ name w. (ok stripe, w);
    get_native = λ name w. (ok (native result), w);
    get_native_by_method = λ name w. (ok (native result), w);
  });
  get_order = λ id w. (ok w.order, w);
  get_order_by_payment_intent_id = λ id w. (ok w.order, w);
  update_order_status =
      λ id status w. (ok tt, record w { order = record (w.order) { status = status } });
  set_stripe_payment_intent_id = λ id intent w. (ok tt, w);
  get_subscription = λ user w. (ok none, w);
  add_credits = λ user n source w. (ok tt, record w { credits = w.credits +ℤ n });
  event_publisher = publisher;
  parse_uuid = λ s. some 31;
  uuid_string = λ id. "31";
  uuid_prefix = λ id. "31";
  notify_base_url = "host";
}

abbrev create_event_records :
    (e : WebhookEvent) (w w' : World)
    → create_event e w ≡ (ok tt, w')
    → has_event e.provider e.event_id w' ≡ true
create_event_records e w w' h = ground (arith, ==_refl e.provider, ==_refl e.event_id)

unfoldable pub memory-UniqueEvents :
    (publisher : Option (PaymentEvent → Port World (Unit {0}))) (result : ProviderNotifyResult)
    → UniqueEvents (memory publisher result)
unfolding memory
memory-UniqueEvents publisher result = record {
  Recorded = λ provider event_id w. has_event provider event_id w ≡ true;
  create_records = create_event_records;
  mark_keeps = λ provider event_id id x w h. h;
  create_refused = λ e w h. ("duplicate key", rw h refl);
}
