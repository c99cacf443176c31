-- ===== src/Quotes/Decided.antt =====
-- A decision on a quote is taken once, on a quote that it fits.
use nation_wide.Common.{
  ℕ, ◌≡◌, inl, inr, true, false, Option, none, some, arith, ◌==◌, String, find, Option-cases,
}
use nation_wide.Store.{
  World, Result, ok, err, Refused, Quote, QuoteStatus, is_quote_status, QuoteOption, PickupRequest,
  FulfillmentMethod, Order, Shipment, bound, ◌>>◌, ◌>>=◌,
}
use nation_wide.Orders.{create_order_with_shipment}
use nation_wide.PickupRequests.Access.{is_open}
use nation_wide.Quotes.Decide.{
  find_one_or_throw, accept_quote, select_option, check_selectable, select_by, decline_quote,
  set_manual_quote, ManualQuote, reject, is_decided, options_expired, claim_quote,
  transition_to_pending_pickup_request, finalize_accepted_quote, cancel_orphan,
}

-- Whoever asks: an accepted or rejected quote is not accepted, selected from, declined, quoted or
-- rejected again; each call is refused and changes nothing.
pub decided-Refused :
    (now id actor : ℕ) (option_id : ℕ) (dto : ManualQuote) (reason : String) (w : World) (q : Quote)
    → w.quotes id ≡ some q
    → is_decided q ≡ true
    → Refused w (accept_quote id actor w)
      × Refused w (select_option now id option_id actor w)
      × Refused w (decline_quote id actor w)
      × Refused w (set_manual_quote now id dto actor w)
      × Refused w (reject id reason actor w)
unfolding accept_quote select_option check_selectable decline_quote set_manual_quote reject
    find_one_or_throw claim_quote
decided-Refused now id actor option_id dto reason w q e d =
    (ground arith, ground arith, ground arith, ground arith, ground arith)

-- The quote carries the option, its price and its currency.
abbrev pub Carries : QuoteOption → Quote → Type 0
Carries o s =
    (s.selected_option_id ≡ some o.id)
    × (s.quoted_amount ≡ some o.option.final_price)
    × (s.quoted_currency ≡ some o.option.currency)

-- A call that succeeds leaves the quote carrying the option.
abbrev Leaves : ℕ → QuoteOption → {A : Type 0} → Result A × World → Type 0
Leaves id o (ok a, w) = (s : Quote) → w.quotes id ≡ some s → Carries o s
Leaves id o (err e, w) = Unit

module _ (id : ℕ) (o : QuoteOption) where
  transition-Leaves :
      (customer : ℕ) (w : World)
      → Leaves id o (transition_to_pending_pickup_request id QuoteStatus.rated customer (some o) w)
  unfolding transition_to_pending_pickup_request claim_quote
  transition-Leaves customer w = ground arith

  finalize-Leaves :
      (how : FulfillmentMethod) (order : Order) (w : World)
      → Leaves id o (finalize_accepted_quote id how order (some o) w)
  unfolding finalize_accepted_quote
  finalize-Leaves how order w = ground arith

  after_order :
      (how : FulfillmentMethod) (res : Result (Order × Shipment) × World)
      → Leaves id o (bound (λ made. finalize_accepted_quote id how made.0 (some o)) res)
  after_order how (ok made, w) = finalize-Leaves how made.0 w
  after_order how (err e, w) = tt

  after_claim :
      (how : FulfillmentMethod) (customer : ℕ) (res : Result (Unit {0}) × World)
      → Leaves id o (
          bound
            (λ _. create_order_with_shipment customer none >>= λ made.
              finalize_accepted_quote id how made.0 (some o))
            res)
  after_claim how customer (ok _, w) = after_order how (create_order_with_shipment customer none w)
  after_claim how customer (err e, w) = tt

  select_by-Leaves :
      (customer : ℕ) (how : Option FulfillmentMethod) (w : World)
      → Leaves id o (select_by id customer o how w)
  unfolding select_by
  select_by-Leaves customer none w = transition-Leaves customer w
  select_by-Leaves customer (some how) w = after_claim how customer (claim_quote id _ _ _ w)

  after_select :
      (res : Result (Unit {0}) × World) (s : Quote)
      → Leaves id o res
      → (bound (λ _. find_one_or_throw id) res).0 ≡ ok s
      → Carries o s
  unfolding find_one_or_throw
  after_select (ok _, w) s h e = h s (ground arith)
  after_select (err x, w) s h e = absurd (ground arith)

-- The quote `s` carries the chosen option of `q`, which is rated and not expired.
abbrev pub Selected : ℕ → ℕ → Quote → Quote → Type 0
Selected now option_id q s =
    (o : QuoteOption) × (find (λ o. o.id == option_id) q.options ≡ some o)
    × (is_quote_status q.status QuoteStatus.rated ≡ true)
    × (options_expired now q.options_expire_at ≡ false)
    × Carries o s

abbrev Chosen : ℕ → ℕ → Quote → Result (Quote × QuoteOption) × World → Type 0
Chosen now option_id q (ok (a, o), w) =
    (find (λ o. o.id == option_id) q.options ≡ some o)
    × (is_quote_status q.status QuoteStatus.rated ≡ true)
    × (options_expired now q.options_expire_at ≡ false)
Chosen now option_id q (err e, w) = Unit

check_selectable-Chosen :
    (now id option_id customer : ℕ) (w : World) (q : Quote)
    → w.quotes id ≡ some q
    → Chosen now option_id q (check_selectable now id option_id customer w)
unfolding check_selectable find_one_or_throw
check_selectable-Chosen now id option_id customer w q e = ground arith

Selected-Chosen :
    (now id option_id customer : ℕ) (q s : Quote) (res : Result (Quote × QuoteOption) × World)
    → Chosen now option_id q res
    → (bound (λ p. select_by id customer p.1 p.0.fulfillment_method >> find_one_or_throw id) res).0
      ≡ ok s
    → Selected now option_id q s
Selected-Chosen now id option_id customer q s (ok (a, o), w) (f, r, x) e =
    let carried =
      after_select id o (select_by id customer o a.fulfillment_method w) s
        (select_by-Leaves id o customer a.fulfillment_method w) e in
    (o, f, r, x, carried)
Selected-Chosen now id option_id customer q s (err x, w) c e = absurd (ground arith)

-- A selection that succeeds is of an option of a rated quote that has not expired, and the quote
-- then names that option, its price and its currency.
pub select_option-Selected :
    (now id option_id customer : ℕ) (w : World) (q s : Quote)
    → w.quotes id ≡ some q
    → (select_option now id option_id customer w).0 ≡ ok s
    → Selected now option_id q s
unfolding select_option
select_option-Selected now id option_id customer w q s e h =
    Selected-Chosen now id option_id customer q s (check_selectable now id option_id customer w)
      (check_selectable-Chosen now id option_id customer w q e) h

-- Once staff have rejected a quote, no request of it is open.
pub reject_closes :
    (id : ℕ) (reason : String) (actor : ℕ) (w : World) (q : Quote) (j : ℕ) (r : PickupRequest)
    → w.quotes id ≡ some q
    → is_decided q ≡ false
    → (reject id reason actor w).1.requests j ≡ some r
    → r.quote_id ≡ id
    → is_open r.status ≡ false
unfolding reject find_one_or_throw cancel_orphan
reject_closes id reason actor w q j r e d h k = elim (Option-cases (w.requests j)) [
  | inl n ↦ absurd (ground arith)
  | inr (a, f) ↦ ground arith
]
