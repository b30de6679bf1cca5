-- ===== src/Examples.antt =====
-- Examples: each theorem that has hypotheses, at a concrete contract where they hold.
pub mod Data
pub mod Calls
pub mod Money
pub mod Values
pub mod Catalogue
pub mod Journeys
pub mod Views
pub mod Accounts
