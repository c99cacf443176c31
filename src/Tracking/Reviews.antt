-- ===== src/Tracking/Reviews.antt =====
-- reviews/reviews.service.ts: the invitation, what is submitted, and its approval.
use text.Mathlib.Text.{◌==◌ as str_eq}
use nation_wide.Common.{
  ℕ, ◌+◌, ◌*◌, Bool, false, Option, none, some, [], ◌∷◌, ◌++◌, ltb, ◌==◌, if◌then◌else◌, find, any,
  map, String,
}
use nation_wide.Accounts.Rows.{Crypto, is_some}
use nation_wide.Tracking.Rows.{
  Shipment, Review, TrackingDb, not_found, already_submitted, Reply, ok, err, Texts, has_id,
}

abbrev invite_ttl : ℕ
invite_ttl = 30 * 86_400_000

abbrev pub reviews_shipment : ℕ → Review → Bool
reviews_shipment id r = r.shipment_id == id

abbrev pub has_token_hash : String → Review → Bool
has_token_hash h r = str_eq r.token_hash h

pub record SubmitReview : Type 0 where
  pub rating : ℕ
  pub comment : Option String

abbrev not_blank : String → Option String
not_blank s = if str_eq s "" then none else some s

-- An empty text counts as none.
abbrev pub given : Option String → Option String
given none = none
given (some s) = not_blank s

abbrev trimmed : Texts → Option String → Option String
trimmed t none = none
trimmed t (some s) = not_blank (t.trim s)

abbrev pub change_review : ℕ → (Review → Review) → Review → Review
change_review id f r = if r.id == id then f r else r

module _ (c : Crypto) where
  abbrev pub new_invitation : ℕ → Shipment → ℕ → Review
  new_invitation now s id = record {
    id = id;
    shipment_id = s.id;
    customer_id = s.customer_id;
    token_hash = c.sha256 (c.random_token id);
    expires_at = now + invite_ttl;
    rating = none;
    comment = none;
    submitted_at = none;
    approved = false;
    approved_by_admin_id = none;
    approved_at = none;
  }

  abbrev pub invite : ℕ → Option Shipment → TrackingDb → TrackingDb
  invite now none d = d
  invite now (some s) d = elim (given s.customer_email) [
    | none ↦ d
    | some email ↦ record d {
      reviews = d.reviews ++ (new_invitation now s d.next ∷ []);
      invited = (s.id, email, c.random_token d.next) ∷ d.invited;
      next = d.next + 1;
    }
  ]

  -- At most one invitation for a shipment.
  unfoldable pub request_feedback : ℕ → ℕ → TrackingDb → TrackingDb
  request_feedback now shipment_id d =
      if any (reviews_shipment shipment_id) d.reviews
      then d
      else invite now (find (has_id shipment_id) d.shipments) d

  abbrev pub with_answer : ℕ → Texts → SubmitReview → Review → Review
  with_answer now t dto r = record r {
    rating = some dto.rating;
    comment = trimmed t dto.comment;
    submitted_at = some now;
    approved = false;
  }

  abbrev pub submit_found :
      ℕ → Texts → SubmitReview → TrackingDb → Option Review → Reply (Unit {0}) × TrackingDb
  submit_found now t dto d none = (err not_found, d)
  submit_found now t dto d (some r) =
      if ltb r.expires_at now
      then (err not_found, d)
      else if is_some r.submitted_at
      then (err already_submitted, d)
      else (
        ok tt,
        record d { reviews = map (change_review r.id (with_answer now t dto)) d.reviews },
      )

  unfoldable pub submit :
      ℕ → Texts → String → SubmitReview → TrackingDb → Reply (Unit {0}) × TrackingDb
  submit now t token dto d =
      submit_found now t dto d (find (has_token_hash (c.sha256 token)) d.reviews)

abbrev pub with_approval : ℕ → Bool → ℕ → Review → Review
with_approval now approved admin r = record r {
  approved = approved;
  approved_by_admin_id = if approved then some admin else none;
  approved_at = if approved then some now else none;
}

abbrev pub approve_found : ℕ → Bool → ℕ → TrackingDb → Option Review → Reply (Unit {0}) × TrackingDb
approve_found now approved admin d none = (err not_found, d)
approve_found now approved admin d (some r) =
    if is_some r.submitted_at
    then (
      ok tt,
      record d { reviews = map (change_review r.id (with_approval now approved admin)) d.reviews },
    )
    else (err not_found, d)

unfoldable pub set_approved : ℕ → ℕ → Bool → ℕ → TrackingDb → Reply (Unit {0}) × TrackingDb
set_approved now id approved admin d =
    approve_found now approved admin d (find (λ r. r.id == id) d.reviews)
