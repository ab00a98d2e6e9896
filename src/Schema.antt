-- ===== src/Schema.antt =====
-- The data model (prisma/schema.prisma). Identifiers are uuids, which the code only compares:
-- they are numbers here. A time is the number of milliseconds since the epoch, a fare a number
-- of minor units, a coordinate a signed number of microdegrees.
mod Status
mod Account
mod Ride
pub use Status.*
pub use Account.*
pub use Ride.*
