-- ===== src/Pricing/Engine/Computed.antt =====
-- The options that `computeQuotesForRequest` computes, by its own tests.
use nation_wide.Common.{
  ℕ, ◌≡◌, refl, inl, inr, ◌↔◌, true, some, List, [], ◌∷◌, arith, In, here, there, filter_by,
  filter_by-In, In-filter_by, Option-cases,
}
use nation_wide.Pricing.Slabs.{WeightSlab, active_slabs, find_matching_slab}
use nation_wide.Pricing.Engine.Defs.{
  Tables, RateCard, ComputeQuotesInput, ComputedRateOption, is_eligible, price_cards,
  compute_option, quotes_in,
}

-- The option is computed from a card of the list, by the slab that matches the weight.
abbrev pub PricedFrom : ℕ → List RateCard → ComputedRateOption → Type 0
PricedFrom weight cards o =
    (card : RateCard) × (slab : WeightSlab) × In card cards
    × (find_matching_slab (active_slabs card.weight_slabs) weight ≡ some slab)
    × (o ≡ compute_option card slab weight)

price_cards-PricedFrom :
    (weight : ℕ) (cards : List RateCard) (o : ComputedRateOption)
    → In o (price_cards weight cards)
    → PricedFrom weight cards o
unfolding price_cards
price_cards-PricedFrom weight [] o m = elim m [ ]
price_cards-PricedFrom weight (card ∷ cards) o m =
    elim (Option-cases (find_matching_slab (active_slabs card.weight_slabs) weight)) [
      | inl e ↦
          let later = price_cards-PricedFrom weight cards o (rw e at m) in
          (later.0, later.1, there later.2, later.3, later.4)
      | inr (slab, e) ↦ pick slab e (rw e at m) (price_cards-PricedFrom weight cards o)
    ]
  where
    pick :
        (slab : WeightSlab)
        → find_matching_slab (active_slabs card.weight_slabs) weight ≡ some slab
        → In o (compute_option card slab weight ∷ price_cards weight cards)
        → (In o (price_cards weight cards) → PricedFrom weight cards o)
        → PricedFrom weight (card ∷ cards) o
    pick slab e (here h) ih = (card, slab, here refl, e, h)
    pick slab e (there h) ih =
        let later = ih h in (later.0, later.1, there later.2, later.3, later.4)

price_cards-In :
    (weight : ℕ) (cards : List RateCard) (card : RateCard) (slab : WeightSlab)
    → In card cards
    → find_matching_slab (active_slabs card.weight_slabs) weight ≡ some slab
    → In (compute_option card slab weight) (price_cards weight cards)
unfolding price_cards
price_cards-In weight [] card slab m h = elim m [ ]
price_cards-In weight (c ∷ cards) card slab (here e) h = rw (← e) (rw h (here refl))
price_cards-In weight (c ∷ cards) card slab (there m) h =
    let ih = price_cards-In weight cards card slab m h in
    elim (Option-cases (find_matching_slab (active_slabs c.weight_slabs) weight)) [
      | inl e ↦ rw e ih
      | inr (s, e) ↦ rw e (there ih)
    ]

price_cards_iff :
    (weight : ℕ) (cards : List RateCard) (o : ComputedRateOption)
    → In o (price_cards weight cards) ↔ PricedFrom weight cards o
price_cards_iff weight cards o = (
  price_cards-PricedFrom weight cards o,
  λ h. rw h.4 (price_cards-In weight cards h.0 h.1 h.2 h.3),
)

-- The option as the code computes it, over the zones that were found.
abbrev pub Computed : Tables → ComputeQuotesInput → ComputedRateOption → List ℕ → Type 0
Computed t i o zones =
    (card : RateCard) × (slab : WeightSlab) × In card t.rate_cards
    × (is_eligible i.shipment_type zones card ≡ true)
    × (find_matching_slab (active_slabs card.weight_slabs) i.weight ≡ some slab)
    × (o ≡ compute_option card slab i.weight)

-- Without a zone no card is eligible.
not-is_eligible :
    (t : ComputeQuotesInput) (card : RateCard) → is_eligible t.shipment_type [] card ≡ true → ⊥
unfolding is_eligible
not-is_eligible t card h = ground arith

pub quotes_in_iff :
    (t : Tables) (i : ComputeQuotesInput) (o : ComputedRateOption) (zones : List ℕ)
    → In o (quotes_in t i zones) ↔ Computed t i o zones
unfolding quotes_in
quotes_in_iff t i o [] = (λ m. elim m [ ], λ h. absurd (not-is_eligible i h.0 h.3))
quotes_in_iff t i o (z ∷ zs) =
    let test = is_eligible i.shipment_type (z ∷ zs) in
    let priced = price_cards_iff i.weight (filter_by test t.rate_cards) o in
    (
      λ m.
          let h = priced.0 m in
          let (known, eligible) = filter_by-In test h.0 t.rate_cards h.2 in
          (h.0, h.1, known, eligible, h.3, h.4),
      λ h. priced.1 (h.0, h.1, In-filter_by test h.0 t.rate_cards h.2 h.3, h.4, h.5),
    )
