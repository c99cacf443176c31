-- ===== src/PickupRequests/Uploads.antt =====
-- The photos taken at the door: `resolveForUpload`, `saveAadhaar`, `saveParcelPhoto`. A key of the
-- file store is a number; the file itself goes to the store.
use nation_wide.Common.{ℕ, ◌+◌, Bool, true, false, not, Option, none, some, if◌then◌else◌}
use nation_wide.Store.{
  put, M, ok, not_found, bad_request, wrong_status, not_arrived, pure, or_raise, ◌>>=◌, ◌>>◌,
  raise_if, modify, log, emit, Action, file_put, file_deleted, PickupRequest, Customer,
}
use nation_wide.PickupRequests.Access.{
  is_open, is_none, find_one, find_one_for_partner, update_request,
}

unfoldable pub find_one_workable : ℕ → ℕ → Bool → M PickupRequest
unfolding find_one_for_partner
find_one_workable id actor as_admin = do
  r ← find_one_for_partner id actor as_admin
  raise_if (not (is_open r.status)) (bad_request wrong_status)
  raise_if (is_none r.arrived_at) (bad_request not_arrived)
  pure r

-- The back office may add a photo at any time.
unfoldable pub resolve_for_upload : ℕ → ℕ → Bool → Bool → M PickupRequest
unfolding find_one find_one_workable
resolve_for_upload id actor as_admin true = find_one id
resolve_for_upload id actor as_admin false = find_one_workable id actor as_admin

abbrev pub delete_file : Option ℕ → M (Unit {0})
delete_file none = pure tt
delete_file (some key) = emit (file_deleted key)

-- `randomUUID`, for the key of a new file.
abbrev pub fresh_key : M ℕ
fresh_key w = (ok w.next_id, record w { next_id = w.next_id + 1 })

abbrev pub with_aadhaar : ℕ → Customer → Customer
with_aadhaar key c = record c { aadhaar_key = some key }

unfoldable pub save_aadhaar : ℕ → ℕ → Bool → Bool → M PickupRequest
unfolding find_one resolve_for_upload
save_aadhaar id actor as_admin back_office = do
  r ← resolve_for_upload id actor as_admin back_office
  c ← λ w. or_raise (w.customers r.customer_id) not_found w
  key ← fresh_key
  emit (file_put key)
  modify λ w. record w { customers = put w.customers r.customer_id (with_aadhaar key c) }
  delete_file c.aadhaar_key
  log actor (if is_none c.aadhaar_key then Action.aadhaar_added else Action.aadhaar_replaced)
      r.customer_id
  find_one id

abbrev pub photo_row : ℕ → PickupRequest → PickupRequest
photo_row key r = record r { parcel_photo_key = some key }

unfoldable pub save_parcel_photo : ℕ → ℕ → Bool → Bool → M PickupRequest
unfolding find_one resolve_for_upload
save_parcel_photo id actor as_admin back_office = do
  r ← resolve_for_upload id actor as_admin back_office
  key ← fresh_key
  emit (file_put key)
  update_request id (photo_row key)
  delete_file r.parcel_photo_key
  find_one id
