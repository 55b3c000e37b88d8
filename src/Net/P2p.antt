-- ===== src/Net/P2p.antt =====
-- Messages between nodes, net/p2p/p2pencoding.h and net/p2p/p2pencoding.cpp. A `Message` is its raw
-- bytes: a type, the 8 bytes of an id, two bytes of a command, and what the command says. The values of
-- the enumerations are numbers, since a cast may make others than those that have a name.
pub mod Requests
pub mod Answers
pub mod Broadcasts
pub mod Composed
pub mod RoundTrip
pub mod Canonical
pub mod Lists
pub mod Addresses
pub mod NodeFields
pub mod Nodes
pub mod Signed
pub mod Ends
use orbitersdk_cpp.Prelude.{
  ℕ, ◌*◌, ◌%◌, ◌^◌, Bool, true, false, not, List, [], ◌∷◌, ◌++◌, length, drop, Result, ok, err,
  runtime_error, bit_xor, ◌==◌, ltb, if◌then◌else◌,
}
use orbitersdk_cpp.Prelude.Throw.{◌>>=◌, ◌>>◌, throw_if}
use orbitersdk_cpp.Utils.Bytes.{substr}
use orbitersdk_cpp.Utils.Bytes.Fixed.{uint64_to_bytes, bytes_to_uint64}
use orbitersdk_cpp.Utils.Bytes.Wide.{bytes_to_uint8, bytes_to_uint16}
use orbitersdk_cpp.Utils.Strings.{resize, hash_of_view}

-- `RequestType`
abbrev pub requesting : ℕ
requesting = 0

abbrev pub answering : ℕ
answering = 1

abbrev pub broadcasting : ℕ
broadcasting = 2

-- `CommandType`
abbrev pub ping : ℕ
ping = 0

abbrev pub info : ℕ
info = 1

abbrev pub request_nodes : ℕ
request_nodes = 2

abbrev pub request_validator_txs : ℕ
request_validator_txs = 3

abbrev pub broadcast_validator_tx : ℕ
broadcast_validator_tx = 4

abbrev pub broadcast_tx : ℕ
broadcast_tx = 5

abbrev pub broadcast_block : ℕ
broadcast_block = 6

-- `typePrefixes[type]` and `commandPrefixes[commType]` for the values that have a name
unfoldable pub get_request_type_prefix : ℕ → List ℕ
get_request_type_prefix type = type ∷ []

unfoldable pub get_command_prefix : ℕ → List ℕ
get_command_prefix command = 0 ∷ (command ∷ [])

unfoldable pub get_request_type : List ℕ → Result ℕ
get_request_type message = do
  throw_if (not (length message == 1)) runtime_error
  type ← bytes_to_uint8 message
  throw_if (ltb 3 type) runtime_error
  ok type

unfoldable pub get_command_type : List ℕ → Result ℕ
get_command_type message = do
  throw_if (not (length message == 2)) runtime_error
  command ← bytes_to_uint16 message
  throw_if (ltb 7 command) runtime_error
  ok command

-- `RequestID::toUint64`
unfoldable pub to_uint64 : List ℕ → Result ℕ
to_uint64 id = bytes_to_uint64 id

-- The constructor of `Message`
unfoldable pub make_message : List ℕ → Result (List ℕ)
make_message raw = if ltb (length raw) 11 then err runtime_error else ok raw

unfoldable pub type : List ℕ → Result ℕ
unfolding get_request_type
type raw = do prefix ← substr raw 0 1; get_request_type prefix

unfoldable pub id : List ℕ → Result (List ℕ)
unfolding resize
id raw = do field ← substr raw 1 8; ok (resize 8 field)

unfoldable pub command : List ℕ → Result ℕ
unfolding get_command_type
command raw = do prefix ← substr raw 9 2; get_command_type prefix

unfoldable pub message : List ℕ → List ℕ
message raw = drop 11 raw

-- The loop of `FNVHash`
unfoldable pub fnv_loop : ℕ → List ℕ → ℕ
fnv_loop result [] = result
fnv_loop result (byte ∷ s) = fnv_loop (bit_xor (16777619 * result % 2 ^ 64) byte % 2 ^ 64) s

unfoldable pub fnv_hash : List ℕ → ℕ
unfolding fnv_loop
fnv_hash s = fnv_loop 2166136261 s

-- A message of this type, id and command that says this: the way all encoders end
unfoldable pub compose : ℕ → List ℕ → ℕ → List ℕ → Result (List ℕ)
unfolding get_request_type_prefix get_command_prefix make_message
compose type id command said =
    make_message (get_request_type_prefix type ++ (id ++ (get_command_prefix command ++ said)))

pub record NodeInfo : Type 0 where
  pub node_version : ℕ
  pub current_timestamp : ℕ
  pub latest_block_height : ℕ
  pub latest_block_hash : List ℕ

-- What the encoders of `info` say, and what its decoders read of it
unfoldable pub info_bytes : NodeInfo → List ℕ
info_bytes node =
    uint64_to_bytes node.node_version
    ++ (uint64_to_bytes node.current_timestamp
        ++ (uint64_to_bytes node.latest_block_height ++ node.latest_block_hash))

unfoldable pub read_info : List ℕ → Result NodeInfo
unfolding hash_of_view
read_info said = do
  version_field ← substr said 0 8
  version ← bytes_to_uint64 version_field
  epoch_field ← substr said 8 8
  epoch ← bytes_to_uint64 epoch_field
  height_field ← substr said 16 8
  height ← bytes_to_uint64 height_field
  hash_field ← substr said 24 32
  hash ← hash_of_view hash_field
  ok (record {
    node_version = version;
    current_timestamp = epoch;
    latest_block_height = height;
    latest_block_hash = hash;
  })
