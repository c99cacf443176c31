-- ===== src/PickupRequests/Evolution/Payment.antt =====
-- Taking or deferring the payment takes the steps of `RowStep`.
use nation_wide.Common.{ℕ, ◌≡◌, refl, Bool, true, false, not, Option, some, arith, if◌then◌else◌}
use nation_wide.Store.{
  Table, M, bad_request, not_verified, already_settled, ◌>>◌, log, emit, Action, notified, Template,
  PickupRequest, Assertion, Triple, Keeps, bind, keep, guard,
}
use nation_wide.PickupRequests.Access.{is_none, find_one, find_one_for_partner, claim_request}
use nation_wide.PickupRequests.Collection.{
  CollectPayment, is_settled, collect_row, defer_row, require_due_approver, check_amount,
  payable_for, collect, defer_payment, settle, collect_payment,
}
use nation_wide.PickupRequests.Steps.{Evolves, collects, defers}
use nation_wide.PickupRequests.Rules.{
  Read, Evolving, row_fact, Keeps-Evolving, find_one_for_partner-Triple, claim_request-Triple,
  Changed,
}

-- The row was verified when it was read.
abbrev Verified : Table PickupRequest → ℕ → PickupRequest → Assertion
Verified t id r u = Read t id r u × (is_none r.verified_at ≡ false)

verified_row :
    (t u : Table PickupRequest) (id : ℕ) (r a : PickupRequest)
    → Verified t id r u
    → u id ≡ some a
    → is_none a.verified_at ≡ false
verified_row t u id r a h e = row_fact (λ q. is_none q.verified_at ≡ false) u id r a h.0.1 e h.1

unsettled : (a : PickupRequest) → not (is_settled a) ≡ true → is_settled a ≡ false
unsettled a h = ground arith

module _ (t : Table PickupRequest) (now id : ℕ) where
  require_due_approver-Keeps : (admin : Option ℕ) → Keeps (require_due_approver admin)
  unfolding require_due_approver
  require_due_approver-Keeps admin w = ground arith

  check_amount-Keeps : (dto : CollectPayment) (expected : ℕ) → Keeps (check_amount dto expected)
  unfolding check_amount require_due_approver
  check_amount-Keeps dto expected w = ground arith

  abbrev finish_deferral : ℕ → M PickupRequest
  finish_deferral partner = log partner Action.payment_deferred id >> find_one id

  finish_deferral-Keeps : (partner : ℕ) → Keeps (finish_deferral partner)
  unfolding find_one
  finish_deferral-Keeps partner w = ground arith

  defer_payment-Evolving :
      (r : PickupRequest) (dto : CollectPayment) (partner : ℕ)
      → Triple (Verified t id r) (Evolves t) (defer_payment now id r dto partner) (λ _. Evolves t)
  unfolding defer_payment
  defer_payment-Evolving r dto partner =
      keep (Evolves t) (Verified t id r) (λ _. Evolves t) (require_due_approver dto.due_approved_by)
        _ (λ _ h. h.0.0) (require_due_approver-Keeps dto.due_approved_by)
        (λ admin.
          bind (Evolves t) (Verified t id r)
            (λ _. Changed t id (defer_row now admin.id dto.due_note)) (λ _. Evolves t)
            (claim_request id (λ a. not (is_settled a)) (defer_row now admin.id dto.due_note)
              (bad_request already_settled))
            (λ _. finish_deferral partner)
            (claim_request-Triple t id (Verified t id r) (λ a. not (is_settled a))
              (defer_row now admin.id dto.due_note) (bad_request already_settled) (λ _ h. h.0.0)
              (λ u a h e y.
                defers now admin.id dto.due_note (verified_row t u id r a h e) (unsettled a y)
                  refl))
            (λ _ w p.
              Keeps-Evolving t id (finish_deferral partner) (finish_deferral-Keeps partner) w p.0))

  abbrev finish_collection : PickupRequest → ℕ → M PickupRequest
  finish_collection r partner =
      log partner Action.payment_collected id
      >> (emit (notified r.customer_id Template.payment_collected) >> find_one id)

  finish_collection-Keeps : (r : PickupRequest) (partner : ℕ) → Keeps (finish_collection r partner)
  unfolding find_one
  finish_collection-Keeps r partner w = ground arith

  collect-Evolving :
      (r : PickupRequest) (dto : CollectPayment) (partner : ℕ)
      → Triple (Verified t id r) (Evolves t) (collect now id r dto partner) (λ _. Evolves t)
  unfolding collect
  collect-Evolving r dto partner =
      keep (Evolves t) (Verified t id r) (λ _. Evolves t) (check_amount dto (payable_for r)) _
        (λ _ h. h.0.0) (check_amount-Keeps dto (payable_for r))
        (λ approver.
          bind (Evolves t) (Verified t id r) (λ _. Changed t id (collect_row now dto approver))
            (λ _. Evolves t)
            (claim_request id (λ a. not (is_settled a)) (collect_row now dto approver)
              (bad_request already_settled))
            (λ _. finish_collection r partner)
            (claim_request-Triple t id (Verified t id r) (λ a. not (is_settled a))
              (collect_row now dto approver) (bad_request already_settled) (λ _ h. h.0.0)
              (λ u a h e y.
                collects now dto approver (verified_row t u id r a h e) (unsettled a y) refl))
            (λ _ w p.
              Keeps-Evolving t id (finish_collection r partner) (finish_collection-Keeps r partner)
                w p.0))

  either-Evolving :
      (b : Bool) (r : PickupRequest) (dto : CollectPayment) (partner : ℕ)
      → is_none r.verified_at ≡ false
      → Triple
          (Read t id r)
          (Evolves t)
          (if b then defer_payment now id r dto partner else collect now id r dto partner)
          (λ _. Evolves t)
  either-Evolving true r dto partner v w p = defer_payment-Evolving r dto partner w (p, v)
  either-Evolving false r dto partner v w p = collect-Evolving r dto partner w (p, v)

  settle-Evolving :
      (dto : CollectPayment) (partner : ℕ) (r : PickupRequest)
      → Triple (Read t id r) (Evolves t) (settle now id dto partner r) (λ _. Evolves t)
  unfolding settle
  settle-Evolving dto partner r =
      guard (Evolves t) (Read t id r) (λ _. Evolves t) (is_none r.verified_at)
        (bad_request not_verified) _ (λ _ h. h.0)
        (λ v.
          guard (Evolves t) (Read t id r) (λ _. Evolves t) (is_settled r)
            (bad_request already_settled) _ (λ _ h. h.0)
            (λ _. either-Evolving dto.deferred r dto partner v))

  pub collect_payment-Evolving :
      (dto : CollectPayment) (partner : ℕ) (as_admin : Bool)
      → Evolving t (collect_payment now id dto partner as_admin)
  unfolding collect_payment
  collect_payment-Evolving dto partner as_admin =
      bind (Evolves t) (Evolves t) (Read t id) (λ _. Evolves t)
        (find_one_for_partner id partner as_admin) (settle now id dto partner)
        (find_one_for_partner-Triple t id partner as_admin) (settle-Evolving dto partner)
