-- ===== src/Examples.antt =====
-- Concrete states and inputs, and the theorems applied to them.
mod Bookings
mod NewQuotes
mod LegacyPickups
mod Tracking
mod Accounts
mod Rows
mod Pickups
mod Gst
mod Invoices
mod Orders
mod Prices
mod Quotes
