-- ===== src/Wallet.antt =====
-- crates/node/src/wallet
pub mod Coins
pub mod Spend
pub mod Selection
pub mod Balance
pub mod Intake
pub mod Change
mod Tests
