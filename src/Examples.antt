-- ===== src/Examples.antt =====
-- Concrete inputs: runs of the definitions, and the theorems applied to them.
pub mod Maps
pub mod Texts
pub mod Transactions
pub mod Logs
pub mod Sets
pub mod Lists
pub mod Channels
pub mod Sentinels
pub mod Keys
