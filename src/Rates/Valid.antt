-- ===== src/Rates/Valid.antt =====
-- What the rates service keeps: the active rates of a card lie apart, and each covers a range.
use nation_wide.Common.{
  ℕ, ◌≤◌, ◌<◌, ◌≡◌, ◌≢◌, refl, sym, inl, inr, true, Option, none, some, arith, ltb, All, AllPairs,
  All-imp, All-find, filter_by, Bool-cases, or_default, find, ◌∙◌,
}
use nation_wide.Pricing.Slabs.{WeightSlab, WeightSlabRange, range_of, Apart-sym, IsRange}
use nation_wide.Rates.Types.{
  RatesDb, RateAction, CreateRateDto, UpdateRateDto, CardKey, max_gst_percent, rate_updated,
}
use nation_wide.Rates.Create.{
  is_sibling, is_other, overlap_among, upsert_with, upsert_card, create_unless, insert_rate,
  create_on, create,
}
use nation_wide.Rates.Edit.{
  write_slab, write_unless, write_checked, changed, update_found, update, has_id,
}
use nation_wide.Rates.Pairs.{
  Compatible, DistinctIds, overlap_among-none, All-put_slab, put_slab-DistinctIds,
  put_slab-Compatible,
}

pub record IsValid (db : RatesDb) : Type 0 where
  pub compatible : AllPairs Compatible db.slabs
  pub distinct : AllPairs DistinctIds db.slabs
  pub ranges : All (λ s. IsRange (range_of s)) db.slabs
  pub fresh : All (λ s. s.id < db.next_id) db.slabs

upsert_with-IsValid :
    (dto : CreateRateDto) (db : RatesDb) (k : Option CardKey)
    → IsValid db
    → IsValid (upsert_with dto db k).1
unfolding upsert_with
upsert_with-IsValid dto db (some k) v = v
upsert_with-IsValid dto db none v = record {
  compatible = v.compatible;
  distinct = v.distinct;
  ranges = v.ranges;
  fresh = All-imp db.slabs (λ s h. omega arith) v.fresh;
}

upsert_card-IsValid :
    (dto : CreateRateDto) (db : RatesDb) → IsValid db → IsValid (upsert_card dto db).1
unfolding upsert_card
upsert_card-IsValid dto db v = upsert_with-IsValid dto db _ v

is_sibling_of :
    (card : ℕ) (s : WeightSlab)
    → s.is_active ≡ true
    → card ≡ s.rate_card_id
    → is_sibling card s ≡ true
is_sibling_of card s a c = ground arith

insert_rate-IsValid :
    (dto : CreateRateDto) (card actor : ℕ) (db : RatesDb)
    → IsValid db
    → dto.weight_from ≤ dto.weight_to
    → overlap_among
        (filter_by (is_sibling card) db.slabs)
        (record { weight_from = dto.weight_from; weight_to = dto.weight_to })
      ≡ none
    → IsValid (insert_rate dto card actor db).1
unfolding insert_rate
insert_rate-IsValid dto card actor db v h e =
    let free = overlap_among-none (is_sibling card) _ db.slabs v.ranges h e in
    record {
      compatible = (
        All-imp db.slabs (λ s k a b c. Apart-sym _ _ (k (is_sibling_of card s b c))) free,
        v.compatible,
      );
      distinct = (All-imp db.slabs (λ s k q. omega arith) v.fresh, v.distinct);
      ranges = (h, v.ranges);
      fresh = (omega arith, All-imp db.slabs (λ s k. omega arith) v.fresh);
    }

create_unless-IsValid :
    (o : Option WeightSlab) (p : Option (WeightSlabRange × WeightSlabRange)) (dto : CreateRateDto)
    (card actor : ℕ) (db : RatesDb)
    → IsValid db
    → (p ≡ none → IsValid (insert_rate dto card actor db).1)
    → IsValid (create_unless o p dto card actor db).1
unfolding create_unless
create_unless-IsValid (some s) p dto card actor db v k = v
create_unless-IsValid none (some pair) dto card actor db v k = v
create_unless-IsValid none none dto card actor db v k = k refl

-- Whatever is asked of it, creating a rate leaves the rates valid.
pub create-IsValid :
    (dto : CreateRateDto) (actor : ℕ) (db : RatesDb) → IsValid db → IsValid (create dto actor db).1
unfolding create create_on
create-IsValid dto actor db v = elim (Bool-cases (ltb dto.weight_to dto.weight_from)) [
  | inl e ↦ rw e v
  | inr e ↦ rw e (elim (Bool-cases (ltb max_gst_percent (or_default dto.gst_percent 0))) [
    | inl g ↦ rw g v
    | inr g ↦
        let (card, db') = upsert_card dto db in
        let v' = upsert_card-IsValid dto db v in
        rw g (
          create_unless-IsValid _ _ dto card actor db' v'
            (λ free. insert_rate-IsValid dto card actor db' v' (ground arith) free))
  ])
]

pub write_slab-IsValid :
    (action : RateAction) (actor : ℕ) (old new : WeightSlab) (db : RatesDb)
    → IsValid db
    → IsRange (range_of new)
    → new.id < db.next_id
    → All (λ s. s.id ≢ new.id → Compatible s new) db.slabs
    → IsValid (write_slab action actor old new db).1
unfolding write_slab
write_slab-IsValid action actor old new db v r n c = record {
  compatible = put_slab-Compatible new db.slabs v.distinct v.compatible c;
  distinct = put_slab-DistinctIds new db.slabs v.distinct;
  ranges = All-put_slab new (λ s. IsRange (range_of s)) db.slabs v.ranges r;
  fresh = All-put_slab new (λ s. s.id < db.next_id) db.slabs v.fresh n;
}

is_other_of :
    (card id : ℕ) (s : WeightSlab)
    → s.is_active ≡ true
    → s.rate_card_id ≡ card
    → s.id ≢ id
    → is_other card id s ≡ true
is_other_of card id s a c n = ground arith

write_unless-IsValid :
    (o : Option (WeightSlabRange × WeightSlabRange)) (action : RateAction) (actor : ℕ)
    (old new : WeightSlab) (db : RatesDb)
    → IsValid db
    → (o ≡ none → IsValid (write_slab action actor old new db).1)
    → IsValid (write_unless o action actor old new db).1
unfolding write_unless
write_unless-IsValid (some pair) action actor old new db v k = v
write_unless-IsValid none action actor old new db v k = k refl

pub write_checked-IsValid :
    (action : RateAction) (actor : ℕ) (old new : WeightSlab) (db : RatesDb)
    → IsValid db
    → IsRange (range_of new)
    → new.id ≡ old.id
    → new.rate_card_id ≡ old.rate_card_id
    → old.id < db.next_id
    → IsValid (write_checked action actor old new db).1
unfolding write_checked
write_checked-IsValid action actor old new db v r i c n =
    write_unless-IsValid _ action actor old new db v λ free.
      write_slab-IsValid action actor old new db v r (omega arith) (
        All-imp db.slabs
          (λ s k other a b same.
            k (is_other_of old.rate_card_id old.id s a (same ∙ c) (λ e. other (e ∙ sym i))))
          (overlap_among-none (is_other old.rate_card_id old.id) (range_of new) db.slabs v.ranges r
            free))

update_found-IsValid :
    (dto : UpdateRateDto) (id actor : ℕ) (o : Option WeightSlab) (db : RatesDb)
    → IsValid db
    → ((s : WeightSlab) → o ≡ some s → s.id < db.next_id)
    → IsValid (update_found dto id actor o db).1
unfolding update_found changed
update_found-IsValid dto id actor none db v n = v
update_found-IsValid dto id actor (some old) db v n =
    let new = changed dto old in
    elim (Bool-cases (ltb new.weight_to new.weight_from)) [
      | inl e ↦ rw e v
      | inr e ↦ rw e (elim (Bool-cases (ltb max_gst_percent (or_default dto.gst_percent 0))) [
        | inl g ↦ rw g v
        | inr g ↦ rw g (
            write_checked-IsValid rate_updated actor old new db v (ground arith) refl refl
              (n old refl))
      ])
    ]

-- So does updating one.
pub update-IsValid :
    (id : ℕ) (dto : UpdateRateDto) (actor : ℕ) (db : RatesDb)
    → IsValid db
    → IsValid (update id dto actor db).1
unfolding update
update-IsValid id dto actor db v =
    update_found-IsValid dto id actor (find (has_id id) db.slabs) db v
      (λ s e. (All-find (λ x. x.id < db.next_id) (has_id id) db.slabs v.fresh e).0)
