-- ===== src/Tests.antt =====
-- Tests on a small run, and the theorems applied at concrete inputs.
pub mod Data
mod Settlements
mod Matching
mod Scores
mod Amounts
pub mod Cipher
mod Accounts
mod Books
mod Redaction
mod Listing
