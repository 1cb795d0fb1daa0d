-- ===== src/Tests.antt =====
-- Each theorem at a concrete input.
pub mod Books
pub mod Ledgers
pub mod Payout
pub mod Gateway
pub mod Texts
pub mod Tokens
pub mod Codes
pub mod Pages
pub mod Market
pub mod Shop
