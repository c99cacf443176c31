-- ===== src/Store.antt =====
-- The database that the services share, and the effects of a service call.
-- Rows are those of backend/prisma/schema.prisma, less the columns that no modelled code reads.
-- An id (a UUID in the source) is a number, and a time the milliseconds since 1970.
mod Kinds
mod Rows
mod State
mod Monad
mod Hoare
pub use Kinds.*
pub use Rows.*
pub use State.*
pub use Monad.*
pub use Hoare.*
