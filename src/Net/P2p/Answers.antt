-- ===== src/Net/P2p/Answers.antt =====
-- `AnswerEncoder` and `AnswerDecoder`. What boost reads of the text of an address is a parameter. Maps
-- are given as the list of their entries; the map that is read is the list of the assignments that make
-- it. Each round of a loop reads a byte at least, so that there are no more rounds than bytes.
use orbitersdk_cpp.Prelude.{
  ℕ, zero, suc, ◌+◌, ◌/◌, ◌%◌, Bool, true, false, not, List, [], ◌∷◌, ◌++◌, length, take, Result,
  ok, err, runtime_error, undefined, ◌==◌, ltb, if◌then◌else◌,
}
use orbitersdk_cpp.Prelude.Throw.{◌>>=◌, ◌>>◌, throw_if}
use orbitersdk_cpp.Utils.Bytes.{substr}
use orbitersdk_cpp.Utils.Bytes.Fixed.{uint32_to_bytes, bytes_to_uint32}
use orbitersdk_cpp.Utils.Bytes.Wide.{
  uint8_to_bytes, bytes_to_uint8, uint16_to_bytes, bytes_to_uint16,
}
use orbitersdk_cpp.Utils.Strings.{resize}
use orbitersdk_cpp.Net.P2p.{
  answering, ping, info, request_nodes, request_validator_txs, compose, NodeInfo, info_bytes,
  read_info, type, id, command, message,
}

unfoldable pub encode_ping : List ℕ → Result (List ℕ)
unfolding id compose
encode_ping request = do i ← id request; compose answering i ping []

unfoldable pub encode_info : List ℕ → NodeInfo → Result (List ℕ)
unfolding id compose info_bytes
encode_info request node = do i ← id request; compose answering i info (info_bytes node)

-- The checks of the decoders that throw
unfoldable pub is_answer : ℕ → List ℕ → Result (Unit {0})
unfolding type command
is_answer expected raw = do
  t ← type raw
  throw_if (not (t == answering)) runtime_error
  c ← command raw
  throw_if (not (c == expected)) runtime_error

unfoldable pub decode_ping : List ℕ → Result Bool
unfolding type command
decode_ping raw = elim (not (length raw == 11)) [
  | true ↦ ok false
  | false ↦ do
    t ← type raw
    elim (not (t == answering)) [ true ↦ ok false | false ↦ do c ← command raw; ok (c == ping) ]
]

unfoldable pub decode_info : List ℕ → Result NodeInfo
unfolding is_answer message read_info
decode_info raw = do is_answer info raw; read_info (message raw)

-- An address of `boost::asio::ip`, by its bytes
pub data IpAddress : Type 0 where
  v4 v6 : List ℕ → IpAddress

-- An entry of the map of nodes
pub record Node : Type 0 where
  pub node_id : List ℕ
  pub node_type : ℕ
  pub address : IpAddress
  pub port : ℕ

-- The bytes that say which kind of address it is, and the address
unfoldable pub address_bytes : IpAddress → List ℕ
unfolding uint8_to_bytes
address_bytes (v4 b) = uint8_to_bytes 0 ++ b
address_bytes (v6 b) = uint8_to_bytes 1 ++ b

unfoldable pub node_bytes : Node → List ℕ
unfolding uint8_to_bytes uint16_to_bytes address_bytes
node_bytes node =
    uint8_to_bytes node.node_type
    ++ (node.node_id ++ (address_bytes node.address ++ uint16_to_bytes node.port))

unfoldable pub nodes_bytes : List Node → List ℕ
unfolding node_bytes
nodes_bytes [] = []
nodes_bytes (node ∷ nodes) = node_bytes node ++ nodes_bytes nodes

unfoldable pub encode_nodes : List ℕ → List Node → Result (List ℕ)
unfolding id compose nodes_bytes
encode_nodes request nodes = do
  i ← id request
  compose answering i request_nodes (nodes_bytes nodes)

-- `std::to_string(uint8_t(byte))`
unfoldable pub to_string : ℕ → List ℕ
to_string n =
    if ltb n 10
    then (48 + n) ∷ []
    else if ltb n 100
    then (48 + n / 10) ∷ ((48 + n % 10) ∷ [])
    else (48 + n / 100) ∷ ((48 + n / 10 % 10) ∷ ((48 + n % 10) ∷ []))

-- The bytes in decimal with `sign` after each
unfoldable pub groups : ℕ → List ℕ → List ℕ
unfolding to_string
groups sign [] = []
groups sign (byte ∷ bytes) = to_string byte ++ (sign ∷ groups sign bytes)

-- `pop_back()`
unfoldable pub pop_back : List ℕ → Result (List ℕ)
pop_back [] = err undefined
pop_back (c ∷ s) = ok (take (length s) (c ∷ s))

module _ (from_string : List ℕ → Result IpAddress) where
  -- An address with `n` bytes, and the index after it
  unfoldable pub read_address : ℕ → ℕ → List ℕ → ℕ → Result (IpAddress × ℕ)
  unfolding groups pop_back
  read_address sign n said index = do
    ip_bytes ← substr said index n
    ip ← pop_back (groups sign ip_bytes)
    a ← from_string ip
    ok (a, index + n)

  -- One round of the loop: a node and the index after it
  unfoldable pub read_node : List ℕ → ℕ → Result (Node × ℕ)
  unfolding read_address resize
  read_node said index = do
    throw_if (ltb (length said) 40) runtime_error
    type_field ← substr said index 1
    node_type ← bytes_to_uint8 type_field
    id_field ← substr said (index + 1) 32
    version_field ← substr said (index + 33) 1
    ip_version ← bytes_to_uint8 version_field
    (a, after) ← elim (ip_version == 0) [
      | true ↦ read_address b'.' 4 said (index + 34)
      | false ↦ elim (ip_version == 1) [
        | true ↦ read_address b':' 16 said (index + 34)
        | false ↦ err runtime_error
      ]
    ]
    port_field ← substr said after 2
    port ← bytes_to_uint16 port_field
    ok (
      record { node_id = resize 32 id_field; node_type = node_type; address = a; port = port },
      after + 2,
    )

  unfoldable pub read_nodes : ℕ → List ℕ → ℕ → Result (List Node)
  unfolding read_node
  read_nodes zero said index = ok []
  read_nodes (suc fuel) said index = elim (ltb index (length said)) [
    | false ↦ ok []
    | true ↦ do
      (node, after) ← read_node said index
      nodes ← read_nodes fuel said after
      ok (node ∷ nodes)
  ]

  unfoldable pub decode_nodes : List ℕ → Result (List Node)
  unfolding is_answer message read_nodes
  decode_nodes raw = do is_answer request_nodes raw; read_nodes (length raw) (message raw) 0

module _ {Tx : Type 0} (write : Tx → List ℕ) where
  unfoldable pub txs_bytes : List Tx → List ℕ
  txs_bytes [] = []
  txs_bytes (tx ∷ txs) = uint32_to_bytes (length (write tx)) ++ (write tx ++ txs_bytes txs)

  unfoldable pub encode_validator_txs : List ℕ → List Tx → Result (List ℕ)
  unfolding id compose txs_bytes
  encode_validator_txs request txs = do
    i ← id request
    compose answering i request_validator_txs (txs_bytes txs)

module _ {Tx : Type 0} (read : List ℕ → Result Tx) where
  unfoldable pub read_txs : ℕ → List ℕ → ℕ → Result (List Tx)
  read_txs zero said index = ok []
  read_txs (suc fuel) said index = elim (ltb index (length said)) [
    | false ↦ ok []
    | true ↦ do
      throw_if (ltb (length said) 4) runtime_error
      size_field ← substr said index 4
      tx_size ← bytes_to_uint32 size_field
      throw_if (ltb (length said) tx_size) runtime_error
      tx_field ← substr said (index + 4) tx_size
      tx ← read tx_field
      txs ← read_txs fuel said (index + 4 + tx_size)
      ok (tx ∷ txs)
  ]

  unfoldable pub decode_validator_txs : List ℕ → Result (List Tx)
  unfolding is_answer message read_txs
  decode_validator_txs raw = do
    is_answer request_validator_txs raw
    read_txs (length raw) (message raw) 0
