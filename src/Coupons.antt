-- ===== src/Coupons.antt =====
-- Discount codes: backend/src/modules/coupons/coupons.service.ts and `isCouponUsable` of
-- packages/shared-types/src/coupon.ts.
mod Defs
mod Limits
unfoldable pub use Defs.{
  normalize_code, create, set_active, validate, check, redeem, redeem_claim, is_coupon_usable, bump,
  has_expired, used_up,
}
pub use Defs.*
pub use Limits.*
