-- ===== src/Pep440.antt =====
-- integrations/_pep440.py: versions, their order and specifiers.
mod Tests
pub mod Order
pub mod Version
pub mod Compare
pub mod Clause
pub mod ClauseLaws
pub mod Prefix
pub mod Specifier
pub mod SetLaws
pub mod Policy
