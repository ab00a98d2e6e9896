-- ===== src/Tests.antt =====
-- Runs of the model on small data, and each property at an input that meets its conditions.
mod Data
mod RideTests
mod AccountTests
mod DriverTests
mod OfferTests
mod GatewayTests
mod MachineTests
mod HttpTests
mod StorageTests
