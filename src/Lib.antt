-- ===== src/Lib.antt =====
-- The verification library of the Reedr ride-hailing backend, a NestJS application over Postgres
-- (Prisma), Redis and BullMQ.
--
-- The program. A rider creates a ride request; online drivers near its pickup are told; each may
-- make one offer, which expires by a delayed job; the rider accepts one, which makes a trip that the
-- driver starts and completes, and both may rate it. A user becomes a driver by an application of
-- three steps with documents, which an administrator reviews. Accounts hold refresh tokens and
-- password-reset codes. Services call one another directly, share the database, and emit domain
-- events that the WebSocket gateway turns into messages.
--
-- The files, with the code that each models:
--   Base, Table          names and lemmas that all share; a table as a list of rows with the
--                        queries of the Prisma client (find, update, delete, create)
--   Schema, Events       prisma/schema.prisma and src/common/events/domain-events.ts
--   World                the state that the services share, and the monad of their methods
--   Queue, Storage       what is called of BullMQ (src/queues/queue-names.ts) and of the file
--                        storage (src/common/storage/storage.service.ts), as interfaces with laws
--   Offers               src/offers/offers.service.ts and src/offers/offer-expiry.processor.ts
--   RideRequests         src/ride-requests/ride-requests.service.ts
--   Trips                src/trips/trips.service.ts
--   Matching             src/matching/matching.service.ts
--   Rides                what holds of the tables of ride requests, offers and trips together, and
--                        in Rides/Machine the life of one ride as an abstract machine
--   Documents            src/drivers/driver-documents.service.ts
--   Applications         src/driver-application/driver-application.service.ts
--   Cache, Drivers       src/common/cache/cache.service.ts and src/drivers/drivers.service.ts
--   Users, Ratings       src/users/users.service.ts and src/ratings/ratings.service.ts
--   Auth                 src/auth/auth.service.ts
--   Access               src/common/guards and src/auth/strategies/jwt.strategy.ts
--   Maintenance          src/maintenance/token-cleanup.service.ts
--   RateLimiter          src/realtime/ws-rate-limiter.ts
--   Gateway              src/realtime/realtime.gateway.ts
--   DiskStorage          src/common/storage/local-disk-storage.service.ts
--   Http                 the guards in front of the handlers; below it Envelope
--                        (src/common/interceptors and src/common/filters), Forms and Responses (the
--                        dto/ folders), Journeys, Onboarding and Accounts (the controllers), and Api,
--                        all routes in one place, with what happens to the program in
--                        Api/Happening, what holds of it, whatever happens, in Api/Whole, and
--                        what the client is told in Api/Told
--   Tests                a small state, runs on it, and the properties at concrete inputs
-- A method `fooBar` of a service is the function `foo_bar` of its file; where a method reads and
-- checks before it writes, the two halves have names of their own (`check_accept`,
-- `commit_accept`), so that what happens between them can be stated.
--
-- How it is modelled. A method is a function from the state to a result, or an exception, and the
-- state after it; what was written before an exception stays. An interactive transaction is one
-- write, all or none. A create checks the primary key and the unique constraints of the schema. A
-- uuid is a number that is only compared, and the next ones are a stream of the state; random bytes,
-- codes and salts come from the same stream. Times are milliseconds, fares minor units, coordinates
-- signed microdegrees. `new Date()` is one moment for a call. A rating is kept as the sum and the
-- number of its scores, so that no rounding is modelled. Every list recursion is structural, so
-- there is no fuel.
--
-- What is a parameter: the job queue, the file storage, the cryptography (bcrypt, SHA-256, JWT,
-- random rendering), the claims of a token that was verified, what a phone number is, the calendar,
-- what PostGIS measures (ST_Distance on the spheroid, and `<->` on the sphere, which are not the
-- same), the distance that the gateway computes, and the configuration (expiry of offers, radius,
-- times to live). Each call of the queue may throw, and it does not remove a job that a worker holds.
-- Tests has a concrete one for each.
--
-- What is not modelled: the limits of rate and of the size of uploads, the health check, the
-- messages of class-validator, module wiring, logging, the SMS gateway, Redis and Prisma
-- themselves, foreign keys (a read of a row that a foreign key guarantees fails as
-- `inconsistent`), the triggers of PostGIS, and parallelism inside one `Promise.all`. Calls run
-- one after the other, save where a theorem is about the two halves of a method. The queue may
-- run any job at any time.
pub mod Base
pub mod Table
pub mod Schema
pub mod Events
pub mod World
pub mod Queue
pub mod Offers
pub mod Matching
pub mod RideRequests
pub mod Trips
pub mod Storage
pub mod Documents
pub mod Applications
pub mod Cache
pub mod Drivers
pub mod Users
pub mod Ratings
pub mod Auth
pub mod RateLimiter
pub mod Maintenance
pub mod Access
pub mod Gateway
pub mod Http
pub mod DiskStorage
pub mod Rides
mod Tests
