-- ===== src/Quotes/Previewed.antt =====
-- A quote is created as its preview says.
use nation_wide.Common.{
  ℕ, ◌+◌, ◌≡◌, refl, sym, ap, subst, Bool-cases, Option-cases, ◌∙◌, inl, inr, Option, none, List,
  [], ◌∷◌, map,
}
use nation_wide.Store.{World, Result, ok, err, bound, Quote}
use nation_wide.Pricing.Engine.{compute_quotes_for_request, ComputedRateOption, ComputeQuotesInput}
use nation_wide.Quotes.Rating.{classify_manual_review, rated_by, rate_request}
use nation_wide.Quotes.Window.{CreateQuote, check_window}
use nation_wide.Quotes.Create.{
  create, write_quote, insert_quote, new_quote, input_of, option_rows, quote_by_key, is_row,
  PreviewResult, preview_option, preview_of_options, preview,
}
use nation_wide.Quotes.Created.{check_window_reads}

abbrev pub shown : Quote → PreviewResult
shown q = record {
  status = q.status;
  review_reason = q.review_reason;
  options = map (λ o. preview_option o.option) q.options;
}

shown_rows :
    (id : ℕ) (os : List ComputedRateOption)
    → map (λ o. preview_option o.option) (option_rows id os) ≡ map preview_option os
unfolding option_rows
shown_rows id [] = refl
shown_rows id (o ∷ os) = ap (λ l. preview_option o ∷ l) (shown_rows (id + 1) os)

-- A quote that was made shows what `p` says.
Shows : PreviewResult → Result Quote × World → Type 0
Shows p (ok q, w) = p ≡ shown q
Shows p (err e, w) = Unit {0}

preview_of : ComputeQuotesInput → World → PreviewResult
preview_of i w =
    let rating = rate_request w.tables i in
    record {
      status = rating.status;
      review_reason = rating.review_reason;
      options = map preview_option rating.options;
    }

write_quote-Shows :
    (now : ℕ) (hours : Option ℕ) (dto : CreateQuote) (customer : ℕ) (w : World)
    → quote_by_key dto.submission_key w.quotes w.next_id ≡ none
    → Shows (preview_of (input_of dto) w) (write_quote now hours dto customer w)
unfolding write_quote insert_quote new_quote preview_of Shows
write_quote-Shows now hours dto customer w n =
    rw n (elim (Bool-cases (is_row (w.quotes w.next_id))) [
      | inl y ↦ rw y tt
      | inr free ↦ rw free (
          ap
            (λ l. record {
              status = (rate_request w.tables (input_of dto)).status;
              review_reason = (rate_request w.tables (input_of dto)).review_reason;
              options = l;
            })
            (sym (shown_rows (w.next_id + 1) (rate_request w.tables (input_of dto)).options)))
    ])

create-Shows :
    (now : ℕ) (hours : Option ℕ) (dto : CreateQuote) (customer : ℕ) (w : World)
    → quote_by_key dto.submission_key w.quotes w.next_id ≡ none
    → Shows (preview_of (input_of dto) w) (create now hours dto customer w)
unfolding create Shows
create-Shows now hours dto customer w n =
    after (check_window now dto w) (check_window_reads now dto w)
  where
    after :
        (res : Result Unit × World)
        → res.1 ≡ w
        → Shows (preview_of (input_of dto) w) (bound (λ _. write_quote now hours dto customer) res)
    after (ok a, u) e =
        subst (λ v. Shows (preview_of (input_of dto) w) (write_quote now hours dto customer v))
          (sym e) (write_quote-Shows now hours dto customer w n)
    after (err x, u) e = tt

preview_rating : (i : ComputeQuotesInput) (w : World) → preview i w ≡ (ok (preview_of i w), w)
unfolding preview preview_of rate_request
preview_rating i w = elim (Option-cases (classify_manual_review i.shipment_type i.weight)) [
  | inl e ↦
      rw (preview, rate_request, e)
        (ap (λ (p : PreviewResult). (ok p, w)) (listed (compute_quotes_for_request w.tables i)))
  | inr (reason, e) ↦ rw (preview, rate_request, e) refl
]
  where
    listed :
        (os : List ComputedRateOption)
        → preview_of_options os ≡ record {
          status = (rated_by os).status;
          review_reason = (rated_by os).review_reason;
          options = map preview_option (rated_by os).options;
        }
    listed [] = refl
    listed (o ∷ os) = refl

-- A quote that is not a repeated submission has the status, the reason and the options that its
-- preview shows.
pub create-preview :
    (now : ℕ) (hours : Option ℕ) (dto : CreateQuote) (customer : ℕ) (w w' : World) (q : Quote)
    → create now hours dto customer w ≡ (ok q, w')
    → quote_by_key dto.submission_key w.quotes w.next_id ≡ none
    → preview (input_of dto) w ≡ (ok (shown q), w)
unfolding Shows
create-preview now hours dto customer w w' q e n =
    preview_rating (input_of dto) w
    ∙ ap (λ p. (ok p, w))
        (subst (Shows (preview_of (input_of dto) w)) e (create-Shows now hours dto customer w n))
