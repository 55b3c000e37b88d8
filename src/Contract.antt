-- ===== src/Contract.antt =====
-- Contracts and their variables (src/contract): values that a call changes in a scratch copy, which
-- the end of the call commits or drops.
pub mod SafeBase
pub mod SafeUint
pub mod SafeAddress
pub mod SafeBool
pub mod SafeUnorderedMap
pub mod Abi
pub mod Interface
pub mod Dynamic
pub mod Erc20
pub mod NativeWrapper
