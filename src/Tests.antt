-- ===== src/Tests.antt =====
-- Concrete runs of the definitions, and the theorems at concrete inputs.
mod Samples
mod Strings
mod Paths
mod Signs
mod Clients
mod Devices
mod Generators
mod Parses
mod Trusts
mod Served
mod Cases
mod Sessions
mod Transactions
