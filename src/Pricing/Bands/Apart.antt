-- ===== src/Pricing/Bands/Apart.antt =====
-- The bands that a carrier may have lie apart.
use nation_wide.Common.{
  ℕ, ◌≤◌, ◌≡◌, refl, subst, ◌∙◌, ◌==◌, true, false, Bool-cases, inl, inr, Option, none, some, List,
  [], ◌∷◌, arith, All, All-In, In, here, there,
}
use nation_wide.Pricing.Bands.{MarginBand, covers, band_margin, margin_from_bands}
use nation_wide.Pricing.Bands.Edit.{
  check_bands, BandsDb, BandsCall, set_margin_bands, run, save_bands, save_found, sorted, db_of,
  BandError,
}

later_ok :
    (b : MarginBand) (rest : List MarginBand)
    → check_bands (b ∷ rest) ≡ none
    → check_bands rest ≡ none
unfolding check_bands
later_ok b rest h = ground arith

-- What is above the first band is above all.
all_above :
    (top : ℕ) (b : MarginBand) (rest : List MarginBand)
    → check_bands (b ∷ rest) ≡ none
    → top ≤ b.from
    → All (λ c. top ≤ c.from) (b ∷ rest)
unfolding check_bands
all_above top b [] h k = (k, tt)
all_above top b (c ∷ rest) h k = (k, all_above top c rest (later_ok b (c ∷ rest) h) (ground arith))

not_first :
    (b c : MarginBand) (rest : List MarginBand) (w : ℕ)
    → check_bands (b ∷ rest) ≡ none
    → In c rest
    → covers w c ≡ true
    → covers w b ≡ false
unfolding check_bands covers
not_first b c [] w h m k = elim m [ ]
not_first b c (d ∷ rest) w h m k = by_top b.to refl
  where
    by_top : (top : Option ℕ) → b.to ≡ top → covers w b ≡ false
    by_top none e = ground arith
    by_top (some top) e =
        let above : top ≤ c.from =
          All-In (λ x. top ≤ x.from) c (d ∷ rest)
            (all_above top d rest (later_ok b (d ∷ rest) h) (ground arith)) m in
        ground arith

first_covers :
    (a : MarginBand) (rest : List MarginBand) (w : ℕ)
    → covers w a ≡ true
    → margin_from_bands (a ∷ rest) w ≡ band_margin w a
unfolding margin_from_bands
first_covers a rest w k = rw k refl

later_covers :
    (a : MarginBand) (rest : List MarginBand) (w : ℕ)
    → covers w a ≡ false
    → margin_from_bands (a ∷ rest) w ≡ margin_from_bands rest w
unfolding margin_from_bands
later_covers a rest w k = rw k refl

covered :
    (bands : List MarginBand) (b : MarginBand) (w : ℕ)
    → check_bands bands ≡ none
    → In b bands
    → covers w b ≡ true
    → margin_from_bands bands w ≡ band_margin w b
covered [] b w h m k = elim m [ ]
covered (a ∷ rest) b w h (here e) k =
    rw e (first_covers a rest w (subst (λ x. covers w x ≡ true) e k))
covered (a ∷ rest) b w h (there m) k =
    later_covers a rest w (not_first a b rest w h m k) ∙ covered rest b w (later_ok a rest h) m k

abbrev OptionChecked : Option (List MarginBand) → Type 0
OptionChecked none = Unit
OptionChecked (some bands) = check_bands bands ≡ none

-- The bands of every carrier pass the checks.
abbrev pub IsChecked : BandsDb → Type 0
IsChecked d = (j : ℕ) → OptionChecked (d.bands j)

save_bands-IsChecked :
    (id : ℕ) (old new : List MarginBand) (actor : Option ℕ) (d : BandsDb) (o : Option BandError)
    → check_bands new ≡ o
    → IsChecked d
    → IsChecked (db_of (save_bands id old new actor d o))
save_bands-IsChecked id old new actor d (some e) h k j = k j
save_bands-IsChecked id old new actor d none h k j = elim (Bool-cases (j == id)) [
  | inl y ↦ rw y h
  | inr n ↦ rw n (k j)
]

save_found-IsChecked :
    (id : ℕ) (bands : List MarginBand) (actor : Option ℕ) (d : BandsDb)
    (o : Option (List MarginBand))
    → IsChecked d
    → IsChecked (db_of (save_found id bands actor d o))
save_found-IsChecked id bands actor d none k = k
save_found-IsChecked id bands actor d (some old) k =
    save_bands-IsChecked id old (sorted bands) actor d (check_bands (sorted bands)) refl k

run-IsChecked : (cs : List BandsCall) (d : BandsDb) → IsChecked d → IsChecked (run cs d)
unfolding run set_margin_bands
run-IsChecked [] d k = k
run-IsChecked (c ∷ cs) d k =
    run-IsChecked cs (db_of (set_margin_bands c.id c.bands c.actor d))
      (save_found-IsChecked c.id c.bands c.actor d (d.bands c.id) k)

-- After any edits of bands that pass the checks, accepted or refused, a weight is charged by
-- whichever band of the carrier covers it: no two cover it with different margins, in whatever order
-- they are read.
pub run-margin :
    (cs : List BandsCall) (d : BandsDb) (id : ℕ) (bands : List MarginBand) (b : MarginBand) (w : ℕ)
    → IsChecked d
    → (run cs d).bands id ≡ some bands
    → In b bands
    → covers w b ≡ true
    → margin_from_bands bands w ≡ band_margin w b
run-margin cs d id bands b w k e m c =
    covered bands b w (subst OptionChecked e (run-IsChecked cs d k id)) m c
