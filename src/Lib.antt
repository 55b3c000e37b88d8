-- ===== src/Lib.antt =====
-- The OrbiterSDK (an Avalanche subnet with its own consensus, native accounts and contracts in C++):
-- a model of its core and of the variables of contracts.
--
-- The program's parts. `State` (src/core/state.cpp) holds the native accounts and the mempool. It
-- validates a block with the consensus `rdPoS` (src/core/rdpos.cpp), runs its transactions, hands it to
-- `rdPoS` for the next round and moves it to the storage. A transaction to a contract goes through
-- `ContractManager` (src/contract/contractmanager.cpp) to a `DynamicContract`, whose variables
-- (src/contract/variables) keep a scratch copy until the call commits or reverts.
--
-- Which file models which part:
--   Prelude      lists, maps, tests and exceptions. `Exec` is a method: an exception or a result, and the
--                object as the method left it. Maps are association lists, a missing key is made by `[]`
--                as in C++.
--   Utils/Bytes  `fromBigEndian`, `bytesRequired`, `uintToBytes` of src/utils/utils.h, and of src/utils/utils.cpp
--                the encodings of 32 and 64 bits (Fixed) and of 8, 16, 160 and 256 bits (Wide), and padding
--                (Pad); Windows is about what stands at a place in a text
--   Utils/Strings the fixed strings of src/utils/strings.h and src/utils/strings.cpp
--   Utils/Rlp    the parts of the RLP encoding that src/utils/tx.cpp repeats for each field, and Reading, what
--                the readers make of what the writers wrote
--   Utils/Tx     Block and Validator: the two kinds of transaction of src/utils/tx.cpp as bytes
--   Utils/Merkle src/utils/merkle.cpp
--   Utils/Block  src/utils/block.cpp over a record of what a block needs of its transactions: Parse (the
--                constructor), Entries, Layout, Fields and RoundTrip (its proof), Threads, Counting, Finalize, and
--                Concrete, which fills the record with the transactions of Utils/Tx
--   Utils/Hex    src/utils/hex.cpp
--   Core/Chain   the values of transactions and blocks (src/utils/tx.h, src/utils/block.h)
--   Core/State   `State`: State (validation, balances), Calls (contractmanager.cpp), Transactions
--                (processTransaction), Blocks (validateNextBlock, processNextBlock, the mempool),
--                Database (how accounts are written and read)
--   Core/Storage `Storage` (src/core/storage.cpp): the chain in memory and its mappings, Transactions (how
--                they are found), Index (in a serialized block), Linked, Blocks and Cache (proofs)
--   Core/Rdpos   `rdPoS`: Shuffle (src/utils/randomgen.h), Blocks (validateBlock, processBlock), Pool
--                (addValidatorTx), Interface (what `State` sees of it)
--   Contract     SafeBase, SafeUint (src/contract/variables/safeuint8_t.h at any width; the classes for 16,
--                32 and 64 bits have the same text), SafeBool, SafeAddress, SafeUnorderedMap,
--                Dynamic (src/contract/dynamiccontract.h), Erc20 (src/contract/erc20.cpp),
--                Interface (the native balances of src/contract/contractmanager.cpp), NativeWrapper
--                (src/contract/nativewrapper.cpp; Covered, Backed and Withdrawals are proofs)
--   Contract/Abi src/contract/abi.cpp: Encoder, Header (the constructor of the encoder), Decoder; Words, Items,
--                Texts, Values, Arguments, RoundTrip and Unchecked (proofs)
--   Net/P2p      src/net/p2p/p2pencoding.cpp: Message, Requests, Answers, Broadcasts; Composed, RoundTrip,
--                Canonical, Lists, Addresses, NodeFields, Nodes, Signed and Ends (proofs)
--   Tests        concrete runs
--
-- Correspondence. A method `processNextBlock` is `process_next_block`. The locks make a method one step.
-- Integers are natural numbers with the wrap-around of the C++ type written out; the checked 256-bit
-- integers throw. Reading past the end, which C++ leaves undefined, is the error `undefined`.
-- Addresses, hashes and other fixed byte strings that are only compared are numbers. The hash
-- function (`sha3`), the random numbers (`next_seed`), and what a contract does with a call
-- (`Contracts`) are parameters. `Consensus` is what State uses of rdPoS, and
-- Core/Rdpos/Interface fills it.
--
-- A `-=` of checked integers that throws may leave anything in the balance of an account, since boost does
-- not document it: `after_underflow` of `Contracts` says what. In Erc20, NativeWrapper and Interface it is taken to leave the balance
-- as it was: there the scratch copies and the native balances of the call are thrown away with the
-- exception. Dynamic is about contracts all of whose variables are of the SafeUint classes, of any widths.
--
-- Bounds and fuel. The loops that divide an integer by 256 (Utils/Bytes) run on the integer and one more
-- as fuel, which is enough since each round makes it smaller; the round trips rest on that. The loops that
-- count the entries of a block run on the number of its bytes, and those that make the layers of a Merkle tree
-- on the number of leaves; Utils/Block/Counting and Utils/Merkle/Layers are about that. The padding of a
-- text in Contract/Abi runs on its length and one more, the check of a header on the number of its characters and
-- one more, and the loops of Net/P2p/Answers on the size of the message: each round goes on by a character at
-- least (Net/P2p/Ends). All other loops go along a list or count to a fixed number. The counters of type `int` in the ABI
-- encoder are numbers, for texts of less than 2 ^ 31 bytes.
--
-- Two views. The core sees transactions and blocks by what their getters return (Core/Chain); Utils/Tx and
-- Utils/Block have them as they are written and read. A `std::string_view` past the end of a string is the
-- error `undefined`. What secp256k1 does with signatures is a parameter, and so is what boost does with
-- integers (`Boost`, with what it documents in `IsBoost`) and with the text of an address (`IsFromString`).
--
-- Not modelled: the constructors that sign a transaction, the database itself and what is loaded
-- and saved at the start and the end, the sockets and sessions of the network, the worker threads, the creation
-- of contracts and the calls between them. They are input and output, code of other projects, or parts that are not reached yet.
mod Prelude
mod Tests
pub mod Utils
pub mod Core
pub mod Contract
pub mod Net
