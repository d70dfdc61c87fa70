-- ===== src/Billing/Service/Limits.antt =====
-- `CheckQuota` against what `GetQuotaStatus` shows, and when the counters cannot be read.
use uniedit_server.Common.{
  ◌≡◌, ◌⊎◌, ◌↔◌, ap, ℕ, ℤ, pos, negsuc, ◌≤ℤ◌, ◌<ℤ◌, ◌-ℤ◌, IsInt64, sub64, sub64_lem, int_laws,
  -ℤ_parts, parts_disjoint, pos_part, neg_part, -ℤ_parts, parts_disjoint, -ℤ_parts, eq_of_parts,
  eq_ℤ, lt_ℤ, String, true, false, not, if◌then◌else◌, some, ok, err, Reply, returns, fails_with,
  ◌>>◌, arith,
}
use uniedit_server.Billing.Plan.{Plan, is_unlimited_tokens, is_unlimited_requests}
use uniedit_server.Billing.Subscription.{Subscription, is_active}
use uniedit_server.Billing.Errors.{BillingError, token_limit_reached, request_limit_reached}
use uniedit_server.Billing.Ports.{Ports, QuotaStatus}
use uniedit_server.Billing.Service.Quota.{
  tokens_used, requests_today, get_quota_status, check_tokens, check_requests, check_quota,
}

-- What a caller who sees the quotas expects of a check: no tokens left is refused, then a request
-- counter at its limit, where a limit of -1 is none.
abbrev pub expected : QuotaStatus → Reply BillingError (Unit {0})
expected q =
    if eq_ℤ q.tokens_remaining (pos 0)
    then fails_with token_limit_reached
    else if eq_ℤ q.requests_limit (negsuc 0)
    then returns tt
    else if lt_ℤ q.requests_today q.requests_limit
    then returns tt
    else fails_with request_limit_reached

-- The rest of a limit, as it is shown.
abbrev left : ℤ → ℤ → ℤ
left limit used =
    if eq_ℤ limit (negsuc 0)
    then negsuc 0
    else if lt_ℤ (sub64 limit used) (pos 0)
    then pos 0
    else sub64 limit used

abbrev shown : Subscription → Plan → ℤ → ℤ → QuotaStatus
shown s p used requests = record {
  plan = p.name;
  tokens_used = used;
  tokens_limit = p.monthly_tokens;
  tokens_remaining = left p.monthly_tokens used;
  requests_today = requests;
  requests_limit = p.daily_requests;
  reset_at = s.current_period_end;
}

left_zero :
    (limit used : ℤ)
    → IsInt64 limit
    → IsInt64 used
    → negsuc 0 ≤ℤ limit
    → pos 0 ≤ℤ used
    → eq_ℤ (left limit used) (pos 0)
      ≡ (if eq_ℤ limit (negsuc 0) then false else not (lt_ℤ used limit))
left_zero limit used r k m n =
    let e = sub64_lem limit used (omega int_laws) in
    ground (
      arith,
      ap (λ x. pos_part x) e,
      ap (λ x. neg_part x) e,
      -ℤ_parts limit used,
      parts_disjoint (limit -ℤ used),
      eq_of_parts limit (negsuc 0),
    )

module _ {W F : Type 0} (d : Ports W F) where
  -- The counters as the two operations read them in a world `w`, from the cache or the database,
  -- and with no change to the world.
  pub record Reads (now user_id : ℕ) (s : Subscription) (w : W) (used requests : ℤ) : Type 0 where
    pub sub_found : d.get_by_user_id_with_plan user_id w ≡ (ok (some s), w)
    pub tokens_lem : tokens_used d user_id s w ≡ (returns used, w)
    pub requests_lem : requests_today d user_id now w ≡ (returns requests, w)

  check_tokens_lem :
      (user_id : ℕ) (s : Subscription) (p : Plan) (w : W) (used : ℤ)
      → tokens_used d user_id s w ≡ (returns used, w)
      → check_tokens d user_id s p w ≡ (
        if is_unlimited_tokens p
            then returns tt
            else if lt_ℤ used p.monthly_tokens
            then returns tt
            else fails_with token_limit_reached,
        w,
      )
  unfolding check_tokens
  check_tokens_lem user_id s p w used e = ground arith

  check_requests_lem :
      (now user_id : ℕ) (p : Plan) (w : W) (requests : ℤ)
      → requests_today d user_id now w ≡ (returns requests, w)
      → check_requests d now user_id p w ≡ (
        if is_unlimited_requests p
            then returns tt
            else if lt_ℤ requests p.daily_requests
            then returns tt
            else fails_with request_limit_reached,
        w,
      )
  unfolding check_requests
  check_requests_lem now user_id p w requests e = ground arith

  checks_expected :
      (now user_id : ℕ) (s : Subscription) (p : Plan) (w : W) (used requests : ℤ)
      → Reads now user_id s w used requests
      → IsInt64 p.monthly_tokens
      → IsInt64 used
      → negsuc 0 ≤ℤ p.monthly_tokens
      → pos 0 ≤ℤ used
      → (check_tokens d user_id s p >> check_requests d now user_id p) w
        ≡ (expected (shown s p used requests), w)
  unfolding is_unlimited_tokens is_unlimited_requests
  checks_expected now user_id s p w used requests h r k m n =
      rw (check_tokens_lem user_id s p w used h.tokens_lem, left_zero p.monthly_tokens used r k m n)
        (ground (arith, check_requests_lem now user_id p w requests h.requests_lem))

  -- On an active subscription whose plan is loaded and has a limit of tokens of -1 or more, with
  -- counters that reading does not change and a 64-bit count of tokens that is not negative,
  -- `GetQuotaStatus` answers, and `CheckQuota` decides by what it shows: it refuses when no tokens
  -- remain, else when the requests of the day have reached their limit, where a limit of -1 is
  -- none.
  pub check_quota-expected :
      (now user_id : ℕ) (s : Subscription) (p : Plan) (w : W) (used requests : ℤ)
      → Reads now user_id s w used requests
      → is_active s ≡ true
      → s.plan ≡ some p
      → IsInt64 p.monthly_tokens
      → IsInt64 used
      → negsuc 0 ≤ℤ p.monthly_tokens
      → pos 0 ≤ℤ used
      → (q : QuotaStatus) × (get_quota_status d now user_id w ≡ (returns q, w))
        × (check_quota d now user_id w ≡ (expected q, w))
  unfolding check_quota get_quota_status
  check_quota-expected now user_id s p w used requests h a e r k m n =
      let c = checks_expected now user_id s p w used requests h r k m n in
      (shown s p used requests, ground arith, ground (arith, c))

  -- A world in which neither the cache nor the database answers for the counters.
  pub record Unreadable (now user_id : ℕ) (s : Subscription) (w : W) : Type 0 where
    pub tokens_cached :
        (e : String) × (d.get_tokens_used user_id s.current_period_start w ≡ (err e, w))
    pub tokens_stored :
        (e : String) × (d.get_monthly_tokens user_id s.current_period_start w ≡ (err e, w))
    pub requests_cached : (e : String) × (d.get_requests_today user_id w ≡ (err e, w))
    pub requests_stored : (e : String) × (d.get_daily_requests user_id now w ≡ (err e, w))

  -- When the subscription is found, active and with its plan loaded, but neither the cache nor the
  -- database answers for its counters, they count as 0: the check
  -- refuses exactly the plans with a limit of 0 (or below -1), and lets all other requests pass.
  pub check_quota-Unreadable :
      (now user_id : ℕ) (s : Subscription) (p : Plan) (w : W)
      → Unreadable now user_id s w
      → d.get_by_user_id_with_plan user_id w ≡ (ok (some s), w)
      → is_active s ≡ true
      → s.plan ≡ some p
      → (check_quota d now user_id w ≡ (returns tt, w))
        ↔ ((p.monthly_tokens ≡ negsuc 0) ⊎ (pos 0 <ℤ p.monthly_tokens))
          × ((p.daily_requests ≡ negsuc 0) ⊎ (pos 0 <ℤ p.daily_requests))
  unfolding check_quota tokens_used requests_today is_unlimited_tokens is_unlimited_requests
  check_quota-Unreadable now user_id s p w u f a e =
      let t =
        check_tokens_lem user_id s p w (pos 0)
          (ground (arith, u.tokens_cached.1, u.tokens_stored.1)) in
      let r =
        check_requests_lem now user_id p w (pos 0)
          (ground (arith, u.requests_cached.1, u.requests_stored.1)) in
      ground (
        arith,
        t,
        r,
        eq_of_parts p.monthly_tokens (negsuc 0),
        eq_of_parts p.daily_requests (negsuc 0),
      )
