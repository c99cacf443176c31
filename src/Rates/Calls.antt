-- ===== src/Rates/Calls.antt =====
-- Sequences of calls of the rates service, and what the engine may rely on after them.
use nation_wide.Common.{
  ℕ, ◌<◌, ◌≡◌, ◌≢◌, refl, sym, ap, subst, inl, inr, Bool, true, false, Option, none, some, List, [],
  ◌∷◌, arith, ◌==◌, All-In, All, AllPairs, All-imp, All-find, In, here, there, find-In, filter_by,
  In-filter_by, AllPairs-filter_by, Bool-cases, Option-cases, if◌then◌else◌, find, any,
}
use mathlib.Core.Option.{some-injective}
use nation_wide.Pricing.Slabs.{
  WeightSlab, range_of, IsRange, SlabsApart, covers_weight, find_matching_slab, active_slabs,
  find_matching_slab-active,
}
use nation_wide.Rates.Types.{
  RatesDb, Result, CreateRateDto, UpdateRateDto, rate_updated, rate_activated, rate_deactivated,
}
use nation_wide.Rates.Create.{create}
use nation_wide.Rates.Edit.{
  changed, update, has_id, set_active_found, set_active, BulkUpdateRow, row_dto, write_row,
  write_rows, commit_rows, gst_too_high, bulk_update,
}
use nation_wide.Rates.Pairs.{Compatible, Compatible-sym}
use nation_wide.Rates.Valid.{
  IsValid, create-IsValid, update-IsValid, write_slab-IsValid, write_checked-IsValid,
}

branches-IsValid :
    (b : Bool) (x y : Result WeightSlab × RatesDb)
    → (b ≡ true → IsValid x.1)
    → (b ≡ false → IsValid y.1)
    → IsValid (if b then x else y).1
branches-IsValid true x y h k = h refl
branches-IsValid false x y h k = k refl

set_active_found-IsValid :
    (id : ℕ) (active : Bool) (actor : ℕ) (o : Option WeightSlab) (db : RatesDb)
    → IsValid db
    → ((s : WeightSlab) → o ≡ some s → IsRange (range_of s) × (s.id < db.next_id))
    → IsValid (set_active_found id active actor o db).1
unfolding set_active_found
set_active_found-IsValid id true actor none db v n = v
set_active_found-IsValid id false actor none db v n = v
set_active_found-IsValid id true actor (some old) db v n =
    branches-IsValid old.is_active _ _ (λ _. v)
      (λ _.
        write_checked-IsValid rate_activated actor old (record old { is_active = true }) db v
          (n old refl).0 refl refl (n old refl).1)
set_active_found-IsValid id false actor (some old) db v n =
    branches-IsValid old.is_active _ _
      (λ _.
        write_slab-IsValid rate_deactivated actor old (record old { is_active = false }) db v
          (n old refl).0 (n old refl).1 (All-imp db.slabs (λ s k other a b same. cc) v.ranges))
      (λ _. v)

set_active-IsValid :
    (id : ℕ) (active : Bool) (actor : ℕ) (db : RatesDb)
    → IsValid db
    → IsValid (set_active id active actor db).1
unfolding set_active
set_active-IsValid id active actor db v =
    set_active_found-IsValid id active actor (find (has_id id) db.slabs) db v (λ s e. (
      (All-find (λ x. IsRange (range_of x)) (has_id id) db.slabs v.ranges e).0,
      (All-find (λ x. x.id < db.next_id) (has_id id) db.slabs v.fresh e).0,
    ))

-- A row of the list is compatible with all rows of another id.
Compatible-In :
    (a : WeightSlab) (ss : List WeightSlab)
    → In a ss
    → AllPairs Compatible ss
    → All (λ s. s.id ≢ a.id → Compatible s a) ss
Compatible-In a [] m c = tt
Compatible-In a (s ∷ ss) (here e) c = (
  λ other. absurd (other (ap (λ x. x.id) (sym e))),
  All-imp ss (λ t k other. Compatible-sym a t (subst (λ x. Compatible x t) (sym e) k)) c.0,
)
Compatible-In a (s ∷ ss) (there m) c =
    (λ other. All-In (Compatible s) a ss c.0 m, Compatible-In a ss m c.1)

write_row-IsValid :
    (r : BulkUpdateRow) (actor : ℕ) (db : RatesDb) {db' : RatesDb}
    → IsValid db
    → write_row r actor (find (has_id r.id) db.slabs) db ≡ some db'
    → IsValid db'
unfolding write_row changed
write_row-IsValid r actor db v e = elim (Option-cases (find (has_id r.id) db.slabs)) [
  | inl absent ↦ let bad = rw absent at e in cc
  | inr (old, found) ↦
      let new = changed (row_dto r) old in
      let written = rw found at e in
      subst IsValid (some-injective _ _ written) (
        write_slab-IsValid rate_updated actor old new db v
          (All-find (λ x. IsRange (range_of x)) (has_id r.id) db.slabs v.ranges found).0
          (All-find (λ x. x.id < db.next_id) (has_id r.id) db.slabs v.fresh found).0
          (Compatible-In old db.slabs (find-In (has_id r.id) db.slabs found) v.compatible))
]

write_rows-IsValid :
    (rs : List BulkUpdateRow) (actor : ℕ) (db : RatesDb)
    → IsValid db
    → IsValid (write_rows rs actor db).1
unfolding write_rows
write_rows-IsValid [] actor db v = v
write_rows-IsValid (r ∷ rs) actor db v =
    elim (Option-cases (write_row r actor (find (has_id r.id) db.slabs) db)) [
      | inl e ↦ rw (e, write_rows) v
      | inr (db', e) ↦
          rw (e, write_rows) (write_rows-IsValid rs actor db' (write_row-IsValid r actor db v e))
    ]

commit_rows-IsValid :
    (before : RatesDb) (r : Option ℕ × RatesDb)
    → IsValid before
    → IsValid r.1
    → IsValid (commit_rows before r).1
unfolding commit_rows
commit_rows-IsValid before (none, db) v w = w
commit_rows-IsValid before (some id, db) v w = v

bulk_update-IsValid :
    (rs : List BulkUpdateRow) (actor : ℕ) (db : RatesDb)
    → IsValid db
    → IsValid (bulk_update rs actor db).1
unfolding bulk_update
bulk_update-IsValid rs actor db v = elim (Bool-cases (any gst_too_high rs)) [
  | inl e ↦ rw e v
  | inr e ↦
      rw e (commit_rows-IsValid db (write_rows rs actor db) v (write_rows-IsValid rs actor db v))
]

pub data Call : Type 0 where
  creates : CreateRateDto → Call
  updates : ℕ → UpdateRateDto → Call
  sets_active : ℕ → Bool → Call
  bulk_updates : List BulkUpdateRow → Call

-- One request of an admin, whether it is refused or not.
unfoldable pub run_call : ℕ → Call → RatesDb → RatesDb
run_call actor (creates dto) db = (create dto actor db).1
run_call actor (updates id dto) db = (update id dto actor db).1
run_call actor (sets_active id active) db = (set_active id active actor db).1
run_call actor (bulk_updates rows) db = (bulk_update rows actor db).1

unfoldable pub run : List (ℕ × Call) → RatesDb → RatesDb
unfolding run_call
run [] db = db
run ((actor, c) ∷ cs) db = run cs (run_call actor c db)

run_call-IsValid :
    (actor : ℕ) (c : Call) (db : RatesDb) → IsValid db → IsValid (run_call actor c db)
unfolding run_call
run_call-IsValid actor (creates dto) db v = create-IsValid dto actor db v
run_call-IsValid actor (updates id dto) db v = update-IsValid id dto actor db v
run_call-IsValid actor (sets_active id active) db v = set_active-IsValid id active actor db v
run_call-IsValid actor (bulk_updates rows) db v = bulk_update-IsValid rows actor db v

-- Every sequence of requests, accepted or refused, keeps the rates valid: the ids distinct, each
-- range from its lower to its upper end, and the active rates of each card apart.
pub run-IsValid : (cs : List (ℕ × Call)) (db : RatesDb) → IsValid db → IsValid (run cs db)
unfolding run
run-IsValid [] db v = v
run-IsValid ((actor, c) ∷ cs) db v =
    run-IsValid cs (run_call actor c db) (run_call-IsValid actor c db v)

abbrev pub on_card : ℕ → WeightSlab → Bool
on_card card s = s.rate_card_id == card

abbrev ApartIfActive : WeightSlab → WeightSlab → Type 0
ApartIfActive s t = s.is_active ≡ true → t.is_active ≡ true → SlabsApart s t

SlabsApart-on_card :
    (card : ℕ) (ss : List WeightSlab)
    → AllPairs Compatible ss
    → AllPairs SlabsApart (filter_by (λ x. x.is_active) (filter_by (on_card card) ss))
SlabsApart-on_card card ss c =
    AllPairs-filter_by {R = ApartIfActive} (λ x. x.is_active) _ (λ x y a b k. k a b)
      (AllPairs-filter_by {R = Compatible} (on_card card) ss (λ x y p q k a b. k a b (ground arith))
        c)

-- After any requests on valid rates the engine prices a weight by the one active rate of the card
-- that covers it, in whatever order the database returns the rows.
pub run-find_matching_slab :
    (cs : List (ℕ × Call)) (db : RatesDb) (s : WeightSlab) (w : ℕ)
    → IsValid db
    → In s (run cs db).slabs
    → s.is_active ≡ true
    → covers_weight w s ≡ true
    → find_matching_slab (active_slabs (filter_by (on_card s.rate_card_id) (run cs db).slabs)) w
      ≡ some s
run-find_matching_slab cs db s w v m a c =
    let ss = (run cs db).slabs in
    find_matching_slab-active w s (filter_by (on_card s.rate_card_id) ss)
      (SlabsApart-on_card s.rate_card_id ss (run-IsValid cs db v).compatible)
      (In-filter_by (on_card s.rate_card_id) s ss m (ground arith)) a c
