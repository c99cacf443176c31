-- ===== src/Quotes/Decide.antt =====
-- The decisions on a quote: `acceptQuote`, `selectOption`, `declineQuote`, `setManualQuote`, `reject`.
use nation_wide.Common.{
  ℕ, ◌+◌, Bool, true, not, ◌&&◌, ◌||◌, Option, none, some, ◌∷◌, ltb, ◌==◌, if◌then◌else◌, find,
  String, or_default,
}
use nation_wide.Store.{
  World, Table, put, claim_row, M, ok, err, Error, not_found, forbidden, bad_request, wrong_status,
  not_an_option, quote_expired, not_available, pure, or_raise, ◌>>=◌, ◌>>◌, raise_if, modify, log,
  emit, Action, notified, Template, Quote, QuoteStatus, is_quote_status, QuoteOption,
  FulfillmentMethod, Order, PickupRequest, PickupRequestStatus,
}
use nation_wide.Orders.{create_order_with_shipment}
use nation_wide.PickupRequests.Access.{is_open}

unfoldable pub find_one_or_throw : ℕ → M Quote
find_one_or_throw id w = or_raise (w.quotes id) not_found w

abbrev pub put_quote : ℕ → Quote → World → World
put_quote id q w = record w { quotes = put w.quotes id q }

-- An `updateMany` on the quote whose count is zero makes the call fail.
unfoldable pub claim_quote : ℕ → (Quote → Bool) → (Quote → Quote) → Error → M (Unit {0})
claim_quote id test change e w = elim (claim_row test change w.quotes id (w.quotes id)) [
  | none ↦ (err e, w)
  | some t ↦ (ok tt, record w { quotes = t })
]

-- The option that was chosen, its price and its currency.
abbrev pub with_option : Option QuoteOption → Quote → Quote
with_option none q = q
with_option (some o) q = record q {
  selected_option_id = some o.id;
  quoted_amount = some o.option.final_price;
  quoted_currency = some o.option.currency;
}

abbrev pub pending_row : Option QuoteOption → Quote → Quote
pending_row o q = record (with_option o q) { status = QuoteStatus.pending_pickup_request }

unfoldable pub transition_to_pending_pickup_request :
    ℕ → QuoteStatus → ℕ → Option QuoteOption → M (Unit {0})
unfolding claim_quote
transition_to_pending_pickup_request id from customer o = do
  claim_quote id (λ q. is_quote_status q.status from) (pending_row o) (bad_request not_available)
  emit (notified customer Template.pickup_request_needed)

abbrev pub accepted_row : ℕ → Option QuoteOption → Quote → Quote
accepted_row order_id o q = record (with_option o q) {
  order_id = some order_id;
  status = QuoteStatus.accepted;
}

abbrev pub update_row : ℕ → (Quote → Quote) → M (Unit {0})
update_row id change w = elim (w.quotes id) [
  | none ↦ (err not_found, w)
  | some q ↦ (ok tt, record w { quotes = put w.quotes id (change q) })
]

-- The pickup of an order that is made at once.
unfoldable pub finalize_accepted_quote :
    ℕ → FulfillmentMethod → Order → Option QuoteOption → M (Unit {0})
finalize_accepted_quote id how order o = do
  modify λ w. record w {
    pickups =
        record { id = w.next_id; quote_id = id; order_id = order.id; method = how } ∷ w.pickups;
    next_id = w.next_id + 1;
  }
  update_row id (accepted_row order.id o)

unfoldable pub accept_by : ℕ → ℕ → Option FulfillmentMethod → M (Unit {0})
unfolding finalize_accepted_quote transition_to_pending_pickup_request
accept_by id customer (some how) = do
  made ← create_order_with_shipment customer none
  finalize_accepted_quote id how made.0 none
accept_by id customer none =
    transition_to_pending_pickup_request id QuoteStatus.quoted customer none

unfoldable pub accept_quote : ℕ → ℕ → M Quote
unfolding find_one_or_throw accept_by
accept_quote id customer = do
  q ← find_one_or_throw id
  raise_if (not (q.customer_id == customer)) forbidden
  raise_if (not (is_quote_status q.status QuoteStatus.quoted)) (bad_request wrong_status)
  accept_by id customer q.fulfillment_method
  find_one_or_throw id

-- `!quote.optionsExpireAt || quote.optionsExpireAt < new Date()`.
abbrev pub options_expired : ℕ → Option ℕ → Bool
options_expired now none = true
options_expired now (some t) = ltb t now

abbrev pub take_row : Quote → Quote
take_row q = record q { status = QuoteStatus.accepted }

unfoldable pub select_by : ℕ → ℕ → QuoteOption → Option FulfillmentMethod → M (Unit {0})
unfolding finalize_accepted_quote transition_to_pending_pickup_request claim_quote
select_by id customer o (some how) = do
  claim_quote id (λ q. is_quote_status q.status QuoteStatus.rated) take_row
      (bad_request not_available)
  made ← create_order_with_shipment customer none
  finalize_accepted_quote id how made.0 (some o)
select_by id customer o none =
    transition_to_pending_pickup_request id QuoteStatus.rated customer (some o)

-- The checks of `selectOption`: the quote and the option that was chosen.
unfoldable pub check_selectable : ℕ → ℕ → ℕ → ℕ → M (Quote × QuoteOption)
unfolding find_one_or_throw
check_selectable now id option_id customer = do
  q ← find_one_or_throw id
  raise_if (not (q.customer_id == customer)) forbidden
  o ← λ w. or_raise (find (λ o. o.id == option_id) q.options) (bad_request not_an_option) w
  raise_if (not (is_quote_status q.status QuoteStatus.rated)) (bad_request wrong_status)
  raise_if (options_expired now q.options_expire_at) (bad_request quote_expired)
  pure (q, o)

unfoldable pub select_option : ℕ → ℕ → ℕ → ℕ → M Quote
unfolding find_one_or_throw select_by check_selectable
select_option now id option_id customer = do
  p ← check_selectable now id option_id customer
  select_by id customer p.1 p.0.fulfillment_method
  find_one_or_throw id

abbrev pub declined_row : Quote → Quote
declined_row q = record q {
  status = QuoteStatus.rejected;
  rejection_reason = some "Declined by customer";
}

unfoldable pub decline_quote : ℕ → ℕ → M Quote
unfolding find_one_or_throw claim_quote
decline_quote id customer = do
  q ← find_one_or_throw id
  raise_if (not (q.customer_id == customer)) forbidden
  claim_quote id (λ a. is_quote_status a.status QuoteStatus.quoted) declined_row
      (bad_request wrong_status)
  find_one_or_throw id

-- `quote.status === 'ACCEPTED' || quote.status === 'REJECTED'`.
abbrev pub is_decided : Quote → Bool
is_decided q =
    is_quote_status q.status QuoteStatus.accepted || is_quote_status q.status QuoteStatus.rejected

pub record ManualQuote : Type 0 where
  pub amount : ℕ
  pub currency : Option String
  pub internal_notes : Option String

abbrev pub quoted_row : ℕ → ManualQuote → ℕ → Quote → Quote
quoted_row now dto actor q = record q {
  quoted_amount = some dto.amount;
  quoted_currency = some (or_default dto.currency "INR");
  quoted_by = some actor;
  quoted_at = some now;
  internal_notes = elim dto.internal_notes [ none ↦ q.internal_notes | some n ↦ some n ];
  status = QuoteStatus.quoted;
}

unfoldable pub set_manual_quote : ℕ → ℕ → ManualQuote → ℕ → M Quote
unfolding find_one_or_throw
set_manual_quote now id dto actor = do
  q ← find_one_or_throw id
  raise_if (is_decided q) (bad_request wrong_status)
  modify (put_quote id (quoted_row now dto actor q))
  log actor Action.manual_quote_created id
  emit (notified q.customer_id Template.quote_ready)
  find_one_or_throw id

abbrev pub rejected_row : String → Quote → Quote
rejected_row reason q = record q { status = QuoteStatus.rejected; rejection_reason = some reason }

abbrev pub orphan_row : ℕ → PickupRequest → PickupRequest
orphan_row id r =
    if (r.quote_id == id) && is_open r.status
    then record r { status = PickupRequestStatus.cancelled }
    else r

-- The request of the quote, found by its unique `quoteId`, is cancelled with it if it is open.
unfoldable pub cancel_orphan : ℕ → Table PickupRequest → Table PickupRequest
cancel_orphan id t j = elim (t j) [ none ↦ none | some r ↦ some (orphan_row id r) ]

unfoldable pub reject : ℕ → String → ℕ → M Quote
unfolding find_one_or_throw cancel_orphan
reject id reason actor = do
  q ← find_one_or_throw id
  raise_if (is_decided q) (bad_request wrong_status)
  modify (put_quote id (rejected_row reason q))
  log actor Action.quote_rejected id
  modify λ w. record w { requests = cancel_orphan id w.requests }
  emit (notified q.customer_id Template.quote_rejected)
  find_one_or_throw id
