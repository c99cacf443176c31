-- ===== src/Pricing/Bands/Edit.antt =====
-- `setMarginBands` of pricing/rate-providers.service.ts: replacing the bands of a carrier.
use nation_wide.Common.{
  ℕ, Bool, true, false, Option, none, some, List, [], ◌∷◌, leb, ltb, ◌==◌, if◌then◌else◌, sort_by,
}
use nation_wide.Pricing.Bands.{MarginBand}

pub data BandError : Type 0 where
  unknown_provider ends_before_start overlapping : BandError

pub record BandEntry : Type 0 where
  pub actor : ℕ
  pub provider : ℕ
  pub before : List MarginBand
  pub after : List MarginBand

pub record BandsDb : Type 0 where
  pub bands : ℕ → Option (List MarginBand)
  pub audit : List BandEntry

pub data Saved : Type 0 where
  saved : BandsDb → Saved
  refused : BandError → BandsDb → Saved

-- `band.toKg != null && band.toKg <= band.fromKg`.
abbrev ends_early : MarginBand → Bool
ends_early b = elim b.to [ none ↦ false | some to ↦ leb to b.from ]

abbrev goes_past : Option ℕ → ℕ → Bool
goes_past none from = true
goes_past (some to) from = ltb from to

abbrev meets_next : MarginBand → List MarginBand → Bool
meets_next b [] = false
meets_next b (c ∷ rest) = goes_past b.to c.from

unfoldable pub check_bands : List MarginBand → Option BandError
check_bands [] = none
check_bands (b ∷ rest) =
    let later = check_bands rest in
    if ends_early b
    then some ends_before_start
    else if meets_next b rest
    then some overlapping
    else later

abbrev logged : Option ℕ → (ℕ → BandEntry) → List BandEntry → List BandEntry
logged none e l = l
logged (some actor) e l = e actor ∷ l

abbrev pub save_bands :
    ℕ → List MarginBand → List MarginBand → Option ℕ → BandsDb → Option BandError → Saved
save_bands id old new actor d (some e) = refused e d
save_bands id old new actor d none = saved (record {
  bands = λ j. if j == id then some new else d.bands j;
  audit =
      logged actor (λ a. record { actor = a; provider = id; before = old; after = new }) d.audit;
})

abbrev pub sorted : List MarginBand → List MarginBand
sorted bands = sort_by (λ b. b.from) bands

abbrev pub save_found : ℕ → List MarginBand → Option ℕ → BandsDb → Option (List MarginBand) → Saved
save_found id bands actor d none = refused unknown_provider d
save_found id bands actor d (some old) =
    save_bands id old (sorted bands) actor d (check_bands (sorted bands))

unfoldable pub set_margin_bands : ℕ → List MarginBand → Option ℕ → BandsDb → Saved
unfolding check_bands
set_margin_bands id bands actor d = save_found id bands actor d (d.bands id)

pub record BandsCall : Type 0 where
  pub id : ℕ
  pub bands : List MarginBand
  pub actor : Option ℕ

abbrev pub db_of : Saved → BandsDb
db_of (saved d) = d
db_of (refused e d) = d

unfoldable pub run : List BandsCall → BandsDb → BandsDb
unfolding set_margin_bands
run [] d = d
run (c ∷ cs) d = run cs (db_of (set_margin_bands c.id c.bands c.actor d))
