-- ===== src/Tests.antt =====
-- Concrete runs of the theorems.
mod Data
mod Chains
mod Rounds
mod Variables
mod Maps
mod Encodings
mod Transactions
mod Blocks
mod Storages
mod Appended
mod Abi
mod Network
mod Wrapped
