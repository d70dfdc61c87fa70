-- ===== src/Payment/Service/Redelivery.antt =====
-- Notifications of Alipay and WeChat that arrive more than once.
use uniedit_server.Common.{
  ◌≡◌, ◌≢◌, refl, ap, by_if, ◌==◌, ℕ, String, String_Eq, List, Service, Option, none, some, ok, err,
  returns, ==_ne, deref,
}
use uniedit_server.Payment.Errors.{PaymentError}
use uniedit_server.Payment.Aggregate.{Payment}
use uniedit_server.Payment.Ports.{
  Ports, ProviderNotifyResult, WebhookEvent, ProviderRegistry, NativePaymentProvider,
}
use uniedit_server.Payment.Status.{succeeded, PaymentStatus_Eq}
use uniedit_server.Payment.Service.Native.{
  handle_native_payment_notify, record_and_process, process, finish, webhook_event,
}

-- The unique index on provider and event id of the table of webhook events (model.WebhookEvent): a
-- row that was created is there, it is not lost by marking it, and a second one is refused.
pub record UniqueEvents {W : Type 0} (d : Ports W) : Type 1 where
  pub Recorded : String → String → W → Type 0
  pub create_records :
      (e : WebhookEvent) (w w' : W)
      → d.create_event e w ≡ (ok tt, w')
      → Recorded e.provider e.event_id w'
  pub mark_keeps :
      (provider event_id : String) (id : ℕ) (x : Option PaymentError) (w : W)
      → Recorded provider event_id w
      → Recorded provider event_id (d.mark_processed id x w).1
  pub create_refused :
      (e : WebhookEvent) (w : W)
      → Recorded e.provider e.event_id w
      → (msg : String) × (d.create_event e w ≡ (err msg, w))

module _ {W : Type 0} (d : Ports W) (u : UniqueEvents d) where
  refused_skips :
      (new_id now : ℕ) (name : String) (p : Payment) (r : ProviderNotifyResult) (w : W)
      → let e = webhook_event d new_id now name r in
        u.Recorded e.provider e.event_id w
        → record_and_process d new_id now name p r w ≡ (returns r.success_resp, w)
  unfolding record_and_process
  refused_skips new_id now name p r w h =
      let (msg, e) = u.create_refused (webhook_event d new_id now name r) w h in rw e refl

  ignored_recorded :
      (id now : ℕ) (name : String) (p : Payment) (r : ProviderNotifyResult) (w w' : W)
      → r.status ≢ "success"
      → r.status ≢ "closed"
      → d.create_event (webhook_event d id now name r) w ≡ (ok tt, w')
      → record_and_process d id now name p r w
        ≡ (returns r.success_resp, (d.mark_processed id none w').1)
  unfolding record_and_process process finish
  ignored_recorded id now name p r w w' a b c =
      rw (c, ==_ne r.status "success" a, ==_ne r.status "closed" b) refl

  same_key :
      (id id' now now' : ℕ) (name : String) (r r' : ProviderNotifyResult) (w : W)
      → r'.trade_no ≡ r.trade_no
      → (let e = webhook_event d id now name r in u.Recorded e.provider e.event_id w)
      → (let e = webhook_event d id' now' name r' in u.Recorded e.provider e.event_id w)
  unfolding webhook_event
  same_key id id' now now' name r r' w t h = rw t h

  -- Where events have a unique key: a notification whose status is neither "success" nor "closed" and
  -- whose event is stored is acknowledged, and its event is then recorded. In any world in which that event
  -- is recorded still, another notification under the same trade number, whatever it reports, "success"
  -- included, is acknowledged and changes nothing after the lookup of its payment, where the provider is
  -- registered, the notification can be parsed and its payment is found.
  pub later_notification_dropped :
      (id id' now now' : ℕ) (name body : String) (headers : List (String × String)) (p p' : Payment)
      (r r' : ProviderNotifyResult) (reg : ProviderRegistry W) (n : NativePaymentProvider W)
      (payment_id : ℕ) (w w' v v1 v2 v3 : W)
      → r.status ≢ "success"
      → r.status ≢ "closed"
      → r'.trade_no ≡ r.trade_no
      → d.create_event (webhook_event d id now name r) w ≡ (ok tt, w')
      → d.provider_reg ≡ some reg
      → reg.get_native name v ≡ (ok n, v1)
      → n.parse_notify body headers v1 ≡ (ok r', v2)
      → d.parse_uuid r'.out_trade_no ≡ some payment_id
      → d.find_by_id payment_id v2 ≡ (ok (some p'), v3)
      → (let e = webhook_event d id now name r in u.Recorded e.provider e.event_id v3)
      → let e = webhook_event d id now name r in
        let first = record_and_process d id now name p r w in
        (first.0 ≡ returns r.success_resp)
        × u.Recorded e.provider e.event_id first.1
        × (handle_native_payment_notify d id' now' name body headers v
            ≡ (returns r'.success_resp, v3))
  unfolding handle_native_payment_notify
  later_notification_dropped id id' now now' name body headers p p' r r' reg n payment_id w w' v v1
        v2 v3 a b t c f g h i j k =
      let first = ignored_recorded id now name p r w w' a b c in
      let skipped =
        refused_skips id' now' name p' r' v3 (same_key id id' now now' name r r' v3 t k) in
      (
        ap (λ x. x.0) first,
        rw first (u.mark_keeps _ _ id none w' (u.create_records _ w w' c)),
        rw (ap (λ o. deref {E = PaymentError} o v) f, g, h, i, j)
            (by_if (λ (s : Service W PaymentError String). s v3 ≡ (returns r'.success_resp, v3))
              (p'.status == succeeded) (λ e. refl) (λ e. skipped)),
      )
