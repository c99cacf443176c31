-- ===== src/Pricing/Engine/Options.antt =====
-- Which options `computeQuotesForRequest` returns.
use nation_wide.Common.{
  ℕ, ◌≡◌, refl, inl, inr, ◌↔◌, true, false, some, List, [], ◌∷◌, arith, In, filter_by, any, any_iff,
  any-map-filter_by, find, find-In, ◌==◌, ◌≤◌, ◌<◌, ◌⊎◌, sym, ◌∙◌, subst, Bool, Bool-cases, ◌&&◌,
  String, All-sort_by, All-self, All-In, filter_by-In,
}
use mathlib.Core.Option.{some-injective}
use nation_wide.Parcel.{ShipmentType, document, parcel, packaged, other, same_kind}
use nation_wide.Pricing.Price.{calculate_final_price}
use nation_wide.Pricing.Bands.{margin_from_bands}
use nation_wide.Pricing.Slabs.{covers_weight, WeightSlab, active_slabs, find_matching_slab}
use nation_wide.Pricing.Engine.Defs.{
  Tables, RateCard, ZoneCountry, rate_card_shipment_type, ComputeQuotesInput, ComputedRateOption,
  zones_of, is_eligible, compute_option, compute_quotes_for_request,
}
use nation_wide.Pricing.Engine.Computed.{Computed, quotes_in_iff}

-- A parcel is priced from the cards for packages, any other type from its own.
abbrev pub IsFor : ShipmentType → ShipmentType → Type 0
IsFor document kind = kind ≡ document
IsFor parcel kind = kind ≡ packaged
IsFor packaged kind = kind ≡ packaged
IsFor other kind = kind ≡ other

-- An active provider lists the destination, an active country, in the zone.
abbrev pub IsServed : Tables → String → ℕ → Type 0
IsServed t name zone =
    (z : ZoneCountry) × In z t.zone_countries
    × (z.zone_id ≡ zone)
    × (z.country.is_active ≡ true)
    × (t.same_name z.country.name name ≡ true)
    × (z.rate_provider.is_active ≡ true)

-- The slab that matches the weight, which is active and covers it.
abbrev pub IsMatched : List WeightSlab → ℕ → WeightSlab → Type 0
IsMatched slabs weight s =
    (find_matching_slab (active_slabs slabs) weight ≡ some s)
    × In s slabs
    × (s.is_active ≡ true)
    × (s.weight_from ≤ weight)
    × (weight ≤ s.weight_to)

-- The cut is the slab's own, or that of the provider's margin bands where the slab has none.
abbrev pub IsCut : RateCard → WeightSlab → ℕ → ℕ → Type 0
IsCut card slab weight cut =
    ((0 < slab.nationwide_cut) × (cut ≡ slab.nationwide_cut))
    ⊎ ((slab.nationwide_cut ≡ 0) × (cut ≡ margin_from_bands card.rate_provider.margin_bands weight))

-- The option names the card, its provider and the slab, and its price is that of their rates.
abbrev pub IsPriced : RateCard → WeightSlab → ℕ → ComputedRateOption → Type 0
IsPriced card slab weight o =
    (cut : ℕ) × IsCut card slab weight cut
    × (o ≡ record {
      rate_provider_id = card.rate_provider.id;
      rate_provider_name = card.rate_provider.name;
      rate_card_id = card.id;
      weight_slab_id = slab.id;
      currency = card.currency;
      breakdown = calculate_final_price (record {
        base_rate = slab.base_rate;
        rate_type = slab.rate_type;
        tax_inclusive = card.tax_inclusive;
        fuel_charge_percent = card.rate_provider.fuel_charge_percent;
        pss_per_kg = card.rate_provider.pss_per_kg;
        weight = weight;
        gst_percent = slab.gst_percent;
        nationwide_cut = cut;
      });
    })

abbrev pub Offered : Tables → ComputeQuotesInput → ComputedRateOption → Type 0
Offered t i o =
    (card : RateCard) × (slab : WeightSlab) × In card t.rate_cards
    × IsFor i.shipment_type card.shipment_type
    × IsServed t i.destination_country_name card.zone_id
    × IsMatched card.weight_slabs i.weight slab
    × IsPriced card slab i.weight o

type_iff :
    (kind card : ShipmentType)
    → IsFor kind card ↔ (same_kind card (rate_card_shipment_type kind) ≡ true)
unfolding rate_card_shipment_type
type_iff document card = (λ h. ground arith, λ h. ground arith)
type_iff parcel card = (λ h. ground arith, λ h. ground arith)
type_iff packaged card = (λ h. ground arith, λ h. ground arith)
type_iff other card = (λ h. ground arith, λ h. ground arith)

zones_of-IsServed :
    (t : Tables) (name : String) (zone : ℕ)
    → IsServed t name zone ↔ (any (λ z. z == zone) (zones_of t name) ≡ true)
unfolding zones_of
zones_of-IsServed t name zone =
    let listed : ZoneCountry → Bool =
      λ z. z.country.is_active && t.same_name z.country.name name && z.rate_provider.is_active in
    let same = any-map-filter_by listed (λ z. z.zone_id) (λ z. z == zone) t.zone_countries in
    let found = any_iff (λ z. listed z && (z.zone_id == zone)) t.zone_countries in
    (
      λ h. same ∙ found.1 (h.0, h.1, ground arith),
      λ h.
          let k = found.0 (sym same ∙ h) in
          (k.0, k.1, ground arith, ground arith, ground arith, ground arith),
    )

find-passes : {A : Type 0} (p : A → Bool) (xs : List A) (x : A) → find p xs ≡ some x → p x ≡ true
find-passes p [] x e = cc
find-passes p (y ∷ ys) x e = elim (Bool-cases (p y)) [
  | inl t ↦ subst (λ z. p z ≡ true) (some-injective _ _ (rw t at e)) t
  | inr f ↦ find-passes p ys x (rw f at e)
]

find_matching_slab-IsMatched :
    (slabs : List WeightSlab) (weight : ℕ) (s : WeightSlab)
    → find_matching_slab (active_slabs slabs) weight ≡ some s
    → IsMatched slabs weight s
unfolding find_matching_slab active_slabs
find_matching_slab-IsMatched slabs weight s h =
    let active = filter_by (λ (s : WeightSlab). s.is_active) slabs in
    let sorted = find-In (covers_weight weight) (active_slabs slabs) h in
    let listed =
      All-In (λ x. In x active) s (active_slabs slabs)
        ((All-sort_by (λ (s : WeightSlab). s.weight_from) (λ x. In x active) active).1
          (All-self active))
        sorted in
    let (known, on) = filter_by-In (λ (s : WeightSlab). s.is_active) s slabs listed in
    let covers = find-passes (covers_weight weight) (active_slabs slabs) s h in
    (h, known, on, ground arith, ground arith)

compute_option-IsPriced :
    (card : RateCard) (slab : WeightSlab) (weight : ℕ) (o : ComputedRateOption)
    → IsPriced card slab weight o ↔ (o ≡ compute_option card slab weight)
unfolding compute_option
compute_option-IsPriced card slab weight o = (
  λ (cut, is_cut, e). elim is_cut [
    | inl h ↦ let no : (slab.nationwide_cut == 0) ≡ false = ground arith in rw no (rw (← h.1) e)
    | inr h ↦ rw h.0 (rw (← h.1) e)
  ],
  λ e. elim (Bool-cases (slab.nationwide_cut == 0)) [
    | inl h ↦ (
      margin_from_bands card.rate_provider.margin_bands weight,
      inr (ground arith, refl),
      rw h at e,
    )
    | inr h ↦ (slab.nationwide_cut, inl (ground arith, refl), rw h at e)
  ],
)

is_eligible_iff :
    (t : Tables) (i : ComputeQuotesInput) (card : RateCard)
    → (is_eligible i.shipment_type (zones_of t i.destination_country_name) card ≡ true) ↔ (
        IsFor i.shipment_type card.shipment_type
        × IsServed t i.destination_country_name card.zone_id
        × (any (λ s. s.is_active) card.weight_slabs ≡ true))
unfolding is_eligible
is_eligible_iff t i card =
    let kind = type_iff i.shipment_type card.shipment_type in
    let zone = zones_of-IsServed t i.destination_country_name card.zone_id in
    (
      λ h. (kind.1 (ground arith), zone.1 (ground arith), ground arith),
      λ h. let k = kind.0 h.0 in let z = zone.0 h.1 in ground arith,
    )

quotes_in-Computed :
    (t : Tables) (i : ComputeQuotesInput) (o : ComputedRateOption)
    → Computed t i o (zones_of t i.destination_country_name) ↔ Offered t i o
quotes_in-Computed t i o = (
  λ (card, slab, known, eligible, matching, e).
      let k = (is_eligible_iff t i card).0 eligible in
      let s = find_matching_slab-IsMatched card.weight_slabs i.weight slab matching in
      (card, slab, known, k.0, k.1, s, (compute_option-IsPriced card slab i.weight o).1 e),
  λ (card, slab, known, kind, served, s, priced).
      let on = (any_iff (λ (s : WeightSlab). s.is_active) card.weight_slabs).1 (slab, s.1, s.2) in
      (
        card,
        slab,
        known,
        (is_eligible_iff t i card).1 (kind, served, on),
        s.0,
        (compute_option-IsPriced card slab i.weight o).0 priced,
      ),
)

-- An option is offered exactly when a rate card of the shipment's type (a package's for a parcel),
-- in a zone in which an active provider lists the active destination, has an active slab that
-- covers the weight and is the one matched: the option names the card, its provider and the slab,
-- and its price is that of their rates, with the provider's margin where the slab has no cut.
pub compute_quotes_for_request_iff :
    (t : Tables) (i : ComputeQuotesInput) (o : ComputedRateOption)
    → In o (compute_quotes_for_request t i) ↔ Offered t i o
unfolding compute_quotes_for_request
compute_quotes_for_request_iff t i o =
    let made = quotes_in_iff t i o (zones_of t i.destination_country_name) in
    let offered = quotes_in-Computed t i o in (λ m. offered.0 (made.0 m), λ h. made.1 (offered.1 h))
