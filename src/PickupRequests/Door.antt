-- ===== src/PickupRequests/Door.antt =====
-- At the customer's door: `repriceAgainstOriginalProvider`, `recalculate`, `markArrived`, `verify`.
use text.Mathlib.Text.{◌==◌ as str_eq}
use nation_wide.Common.{
  ℕ, Bool, not, Option, none, some, List, map, ◌==◌, if◌then◌else◌, find, String, or_default,
}
use nation_wide.Parcel.{ShipmentType, Package, chargeable_weight, clean_packages}
use nation_wide.Pricing.Engine.{ComputedRateOption, Tables, compute_quotes_for_request}
use nation_wide.Store.{
  Texts, Table, claim_row, M, not_found, bad_request, wrong_status, not_arrived, no_aadhaar,
  no_photo, no_rate, price_is_rated, pure, raise, gets, or_raise, ◌>>=◌, ◌>>◌, raise_if, log, emit,
  Action, notified, Template, PickupRequest, PickupRequestStatus, VerifiedParcel, Quote, Recipient,
  ShipmentItem,
}
use nation_wide.PickupRequests.Access.{
  is_open, is_none, find_one, find_one_for_partner, update_request, update_quote,
}

abbrev pub is_from : ℕ → ComputedRateOption → Bool
is_from provider o = o.rate_provider_id == provider

-- Today's option of the provider that was chosen when the parcel was quoted.
unfoldable pub reprice : Tables → Option ℕ → String → ℕ → ShipmentType → Option ComputedRateOption
reprice t none country weight kind = none
reprice t (some provider) country weight kind = find (is_from provider) (
    compute_quotes_for_request t
      (record { destination_country_name = country; weight = weight; shipment_type = kind }))

unfoldable pub reprice_against_original_provider :
    PickupRequest → ℕ → ShipmentType → M (Option ComputedRateOption)
unfolding reprice
reprice_against_original_provider r weight kind = do
  q ← λ w. or_raise (w.quotes r.quote_id) not_found w
  gets λ w. reprice w.tables r.rate_provider_id q.dest_country weight kind

abbrev pub arrive_row : ℕ → PickupRequest → PickupRequest
arrive_row now r = record r { arrived_at = some now; status = PickupRequestStatus.out_for_pickup }

-- After the write, whose count is one or zero.
unfoldable pub after_arrival :
    ℕ → ℕ → Bool → PickupRequest → Option (Table PickupRequest) → M PickupRequest
unfolding find_one find_one_for_partner
after_arrival id partner as_admin r none w = find_one_for_partner id partner as_admin w
after_arrival id partner as_admin r (some t) w =
    (log partner Action.arrived id
        >> emit (notified r.customer_id Template.pickup_partner_arrived)
        >> find_one id)
      (record w { requests = t })

-- The write and what follows it, for a row that was read before.
unfoldable pub record_arrival : ℕ → ℕ → ℕ → Bool → PickupRequest → M PickupRequest
unfolding after_arrival
record_arrival now id partner as_admin r w =
    after_arrival id partner as_admin r
      (claim_row (λ a. is_none a.arrived_at) (arrive_row now) w.requests id (w.requests id)) w

unfoldable pub mark_arrived : ℕ → ℕ → ℕ → Bool → M PickupRequest
unfolding find_one_for_partner record_arrival
mark_arrived now id partner as_admin = do
  r ← find_one_for_partner id partner as_admin
  raise_if (not (is_open r.status)) (bad_request wrong_status)
  if is_none r.arrived_at then record_arrival now id partner as_admin r else pure r

pub record VerifyPickupRequest : Type 0 where
  pub packages : List Package
  pub items : List ShipmentItem
  pub shipment_type : ShipmentType
  pub verified_price : Option ℕ
  pub notes : Option String
  pub recipient : Option Recipient

-- The price at the door, and its breakdown where the rate card has one.
unfoldable pub price_at_door :
    Option ℕ → ℕ → Option ℕ → Option ComputedRateOption → M (ℕ × Option ComputedRateOption)
price_at_door none estimate typed fresh = pure (or_default typed estimate, none)
price_at_door (some provider) estimate none none = raise (bad_request no_rate)
price_at_door (some provider) estimate (some p) none = pure (p, none)
price_at_door (some provider) estimate none (some o) = pure (o.final_price, some o)
price_at_door (some provider) estimate (some p) (some o) = raise (bad_request price_is_rated)

-- `text?.trim() || null`.
abbrev trim_or_null : Texts → Option String → Option String
trim_or_null t none = none
trim_or_null t (some s) = if str_eq (t.trim s) "" then none else some (t.trim s)

unfoldable pub clean_items : Texts → List ShipmentItem → List ShipmentItem
clean_items t = map λ i. record {
  category = trim_or_null t i.category;
  description = t.trim i.description;
  quantity = i.quantity;
  unit_value = i.unit_value;
  hs_code = trim_or_null t i.hs_code;
}

unfoldable pub verified_parcel : VerifyPickupRequest → Option ComputedRateOption → VerifiedParcel
verified_parcel dto fresh = record {
  weight = chargeable_weight dto.packages;
  packages = clean_packages dto.packages;
  shipment_type = dto.shipment_type;
  taxable_subtotal = elim fresh [ none ↦ none | some o ↦ some o.taxable_subtotal ];
  gst_percent = elim fresh [ none ↦ none | some o ↦ some o.gst_percent ];
  gst_amount = elim fresh [ none ↦ none | some o ↦ some o.gst_amount ];
  nationwide_cut = elim fresh [ none ↦ none | some o ↦ some o.nationwide_cut ];
  notes = dto.notes;
}

abbrev pub verify_row : ℕ → Bool → ℕ → VerifiedParcel → PickupRequest → PickupRequest
verify_row now with_recipient price parcel r = record r {
  recipient_verified_at = if with_recipient then some now else r.recipient_verified_at;
  verified = some parcel;
  verified_price = some price;
  verified_at = some now;
  status = PickupRequestStatus.verification_pending;
}

-- `a || null` on a text.
abbrev pub not_empty : Option String → Option String
not_empty none = none
not_empty (some String.[]) = none
not_empty (some (String.◌∷◌ c s)) = some (String.◌∷◌ c s)

-- An empty second address line is stored as none.
abbrev pub recipient_to_quote_data : Recipient → Recipient
recipient_to_quote_data r = record r { address_line2 = not_empty r.address_line2 }

abbrev confirmed_recipient : Option Recipient → Recipient → Recipient
confirmed_recipient none old = old
confirmed_recipient (some r) old = recipient_to_quote_data r

abbrev pub confirm_contents : Texts → Option Recipient → List ShipmentItem → Quote → Quote
confirm_contents t recipient items q = record q {
  recipient = confirmed_recipient recipient q.recipient;
  items = some (clean_items t items);
}

-- The checks of `verify`, on the request and its customer.
unfoldable pub check_verifiable : ℕ → ℕ → Bool → M PickupRequest
unfolding find_one_for_partner
check_verifiable id partner as_admin = do
  r ← find_one_for_partner id partner as_admin
  raise_if (not (is_open r.status)) (bad_request wrong_status)
  raise_if (is_none r.arrived_at) (bad_request not_arrived)
  c ← λ w. or_raise (w.customers r.customer_id) not_found w
  raise_if (is_none c.aadhaar_key) (bad_request no_aadhaar)
  raise_if (is_none r.parcel_photo_key) (bad_request no_photo)
  pure r

unfoldable pub price_parcel :
    VerifyPickupRequest → PickupRequest → M (ℕ × Option ComputedRateOption)
unfolding reprice_against_original_provider price_at_door
price_parcel dto r =
    reprice_against_original_provider r (chargeable_weight dto.packages) dto.shipment_type
    >>= price_at_door r.rate_provider_id r.estimated_price dto.verified_price

abbrev pub write_contents : VerifyPickupRequest → ℕ → M (Unit {0})
write_contents dto quote_id w =
    update_quote quote_id (confirm_contents w.texts dto.recipient dto.items) w

unfoldable pub announce_verified : ℕ → ℕ → PickupRequest → M PickupRequest
unfolding find_one
announce_verified id partner r = do
  log partner Action.verified id
  emit (notified r.customer_id Template.pickup_verification_complete)
  find_one id

unfoldable pub verify : ℕ → ℕ → VerifyPickupRequest → ℕ → Bool → M PickupRequest
unfolding check_verifiable price_parcel announce_verified
verify now id dto partner as_admin = do
  r ← check_verifiable id partner as_admin
  priced ← price_parcel dto r
  write_contents dto r.quote_id
  update_request id
      (verify_row now (not (is_none dto.recipient)) priced.0 (verified_parcel dto priced.1))
  announce_verified id partner r
