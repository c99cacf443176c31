-- ===== src/Lib.antt =====
-- NationWide, a courier aggregator: a backend (backend/src/modules), a web frontend and the types
-- that they share (packages/shared-types/src). This library models the parts of the backend that
-- set prices, move parcels and money through their states, and bill them.
--
-- A customer's parcel is priced from the rate cards of carriers, collected at the door by a pickup
-- partner who weighs it, prices it anew and takes the money, and becomes an order when the partner
-- accepts it. The parts:
--   Common          numbers, Boolean tests, lists, stable sorting
--   Money           `round2` of invoices/gst.ts, and signed differences
--   Parcel          packages/shared-types/src/parcel.ts and common/dto/parcel.dto.ts: the weight
--                   that is charged
--   Pricing         pricing/pricing-engine.service.ts, pricing/weight-slab-overlap.ts:
--                   Price (`calculateFinalPrice`), Bands (`marginFromBands`; Edit is
--                   `setMarginBands` of pricing/rate-providers.service.ts), Slabs
--                   (`findOverlappingSlabs`, `findMatchingSlab`), Engine
--                   (`computeQuotesForRequest`, `previewRate`)
--   Rates           pricing/rates.service.ts: `create`, `update`, `setActive`, `bulkUpdate` on the
--                   rows of the rate cards; Valid and Calls keep the rows as the engine needs them
--   Gst             invoices/gst.ts: Split (`splitGst`), Breakdown (`resolveChargedBreakdown`)
--   Invoices        invoices/invoices.service.ts and receipts/receipts.service.ts: Calendar and
--                   Numbering (`indianFinancialYear`, `formatInvoiceNumber`, file names), States
--                   (invoices/indian-states.ts), Books (the rows), Issue (what every invoice
--                   takes), Order (`generateForOrder`), Custom (`issueCustom`), Consolidated
--                   (`issueConsolidated`, `previewConsolidated`), Documents (`readPdf`,
--                   `sendToWhatsApp`, `sendMany`, `cancel`), Receipts. Rules, Keeps, Together and
--                   Calls carry a property of the books through every call; Series, Distinct,
--                   Totals, Unbilled, Fresh and Again use them
--   Store           the rows of backend/prisma/schema.prisma, the state of the database, service
--                   calls as state passing with exceptions, and rules for assertions on the table
--                   of pickup requests
--   Coupons         coupons/coupons.service.ts and packages/shared-types/src/coupon.ts
--   Orders          orders/orders.service.ts: Defs (`create`, `update`, `setReturned`), Payment
--                   (`updatePayment`), Cancel (`quoteCancellation`, `cancel`)
--   Quotes          quotes/quotes.service.ts: Rating (`classifyManualReview`, the rating in `create`),
--                   Window and Create (`create`, `preview`), Created (repeated
--                   submissions), Previewed (that they agree), Decide
--                   (`acceptQuote`, `selectOption`, `declineQuote`, `setManualQuote`, `reject`)
--   PickupRequests  pickup-requests/pickup-requests.service.ts: Slots (`isPickupSlotOpen`,
--                   `firstOpenPickupSlot`), Places (`pickupLogisticsData`), Terms and Booking
--                   (`create`, `commitBooking`), BatchTerms and Batch (`createBatchForCustomer`,
--                   `createForAdmin`), Booked (what a booking leaves), Linked,
--                   Accepted, Closed and Once (what an acceptance leaves), Access (who sees,
--                   claims and is assigned), Door (`markArrived`, `verify`), Collection
--                   (`collectPayment`), Outcome (`acceptParcel`, `rejectParcel`), Uploads, Explain
--                   (`recalculate`); Steps is the
--                   life of a request as a relation on its row, Evolution shows that each operation
--                   takes only such steps, Valid, Final and Calls draw the consequences
--   LegacyPickups   pickups/pickups.service.ts: Status (`updateStatus` and its transitions), Life
--   Accounts        auth/auth.service.ts: Rows (the tables, `findAccountByEmail`, `updateAccount`),
--                   Sessions (`authenticate`, `register`, `loginWithGoogle`, `issueTokenPair`,
--                   `refreshTokenPair`, `revokeRefreshToken`, `changePassword`), Reset
--                   (`requestPasswordReset`, `resetPassword`), Calls (the routes of
--                   auth/auth.controller.ts); Passwords says
--                   who can log in; Changed, Rotation, Ended, Links and Spent say when tokens and
--                   links end
--   Tracking        tracking/tracking.service.ts, shipments/shipments.service.ts and
--                   reviews/reviews.service.ts: Rows, Reviews (`requestFeedback`, `submit`,
--                   `setApproved`), Shipments (`mapExternalTrackingNumber`,
--                   `overrideTrackingStatus`), Events (`persistNewEvents`), Status (`getStatus`),
--                   Calls; Again, Shown, Numbers, History, Invitations and Invited are about
--                   them
--   Examples        a concrete state, and the theorems applied to it
-- An operation keeps the name of its method, in lower case with underscores.
--
-- Pricing reads the tables that Rates writes; PickupRequests calls Pricing, Coupons, Orders and the
-- creation of quotes;
-- Orders calls Coupons; Quotes calls Orders, and its rejection closes a pickup request. Invoices
-- have books of their own: an order reaches them as the row that one query joins, and the calls of
-- others change these rows at will.
--
-- Numbers. Amounts are whole paise, percentages hundredths of a percent, weights grams, dimensions
-- millimetres, times milliseconds, distances units of 100 m, ids numbers: the DTOs accept at most
-- these decimals, except that of a collected amount, which is taken to be whole paise too. The noise
-- of binary fractions is not modelled. A difference that the source lets become negative is a signed
-- number.
-- Loops are structural recursion, but for two: the digits of n take n + 1 steps at most, and the year
-- of a day d is reached in d / 365 + 1, since a year takes at least 365 days.
--
-- Calls. A service call is a function of the state; calls follow one another, and what two calls at
-- once can do is stated by theorems on a row that was read before, at any earlier moment, and a write
-- that tests the row again (`updateMany` in the source). What is handed to the message queue, the
-- invoices, the file store and the push service is a list of events. `update` of a row that was
-- just read is taken to find it. A transaction that fails leaves the state as it was.
-- The string functions of JavaScript, its dates of texts and the case-insensitive comparison of the
-- database are fields of the state; the answers of the routing service and of a map's short link are
-- arguments. New rows take the next id, and a row that is there already makes the write fail. The
-- unique indexes on a quote's submission key and on a request's quote are looked up among the ids
-- that were given out; they take as many steps as there are ids. So is an approver of a due where the
-- call names none, for which the query has no condition on the id.
--
-- bcrypt, SHA-256, the signing of tokens and random bytes are a record of functions (`Crypto`); what
-- must be new each time comes from a counter. No law is asked of them but, where a theorem says so,
-- that bcrypt compares what it reads of two texts.
--
-- The file store takes a document or refuses it, as a field of the books says.
--
-- What a carrier answers to a question of tracking, or that it does not, is an argument of the call.
--
-- Not modelled: the rendering of documents, imports of rate sheets, the history of fuel surcharges,
-- throttling, the records of customers and staff (their sessions are, with the accounts), the guards and
-- cookies of the routes, the pages of the frontend, and queries that only list.
pub mod Common
pub mod Money
pub mod Parcel
pub mod Gst
pub mod LegacyPickups
pub mod Accounts
pub mod Tracking
pub mod Invoices
pub mod Pricing
pub mod Rates
pub mod Store
pub mod PickupRequests
pub mod Coupons
pub mod Orders
pub mod Quotes
mod Examples
