-- ===== src/Tests/Network.antt =====
-- Messages that nodes exchange.
use orbitersdk_cpp.Prelude.{
  ℕ, ◌+◌, ◌-◌, ◌*◌, ◌^◌, ◌<◌, ◌≡◌, ◌↔◌, refl, inl, inr, Bool-cases, all, All, true, List, [], ◌∷◌,
  ◌++◌, Result, ok, err, runtime_error, ltb, ◌==◌, if◌then◌else◌, replicate, lt→ltb, arith,
}
use orbitersdk_cpp.Prelude.Throw.{◌>>=◌, ◌>>◌}
use orbitersdk_cpp.Utils.Bytes.Fixed.{uint64_to_bytes, length-uint64_to_bytes}
use orbitersdk_cpp.Utils.Block.Concrete.{content}
use orbitersdk_cpp.Utils.Block.Entries.{IsEntry}
use orbitersdk_cpp.Utils.Tx.Validator
use orbitersdk_cpp.Net.P2p.{
  requesting, answering, broadcasting, fnv_hash, info, request_nodes, broadcast_tx, NodeInfo,
  info_bytes, id, message, request_validator_txs,
}
use orbitersdk_cpp.Net.P2p.Requests
use orbitersdk_cpp.Net.P2p.Answers
use orbitersdk_cpp.Net.P2p.Answers.{
  IpAddress, v4, v6, Node, nodes_bytes, encode_nodes, decode_nodes, to_string, txs_bytes,
  encode_validator_txs, decode_validator_txs, is_answer, read_nodes, read_txs,
}
use orbitersdk_cpp.Net.P2p.Broadcasts.{encode, decode, encode_block, decode_block}
use orbitersdk_cpp.Net.P2p.Ends.{answers_end}
use orbitersdk_cpp.Net.P2p.Composed.{composed, length-composed, id-composed}
use orbitersdk_cpp.Net.P2p.Addresses.{joined, count, IsFromString, count-joined_dots}
use orbitersdk_cpp.Net.P2p.RoundTrip.{broadcast_bytes, IsNodeInfo, decode_info-encode_info}
use orbitersdk_cpp.Net.P2p.Canonical.{decode_iff_encode}
use orbitersdk_cpp.Net.P2p.NodeFields.{is_v4, IsAddress, IsNode}
use orbitersdk_cpp.Net.P2p.Nodes.{decode_nodes-encode_nodes}
use orbitersdk_cpp.Net.P2p.Signed.{decode_block-encode_block}
use orbitersdk_cpp.Tests.Transactions.{
  first_bytes, accepting, keys, a_block, a_block-IsSealed, a_tx-IsSigned, a_validator_tx,
  a_validator_tx_back, a_validator_tx-IsSignedAt, validator_tx_size,
}

-- Decimal numbers with dots between them
numbers : ℕ → List ℕ → List ℕ
numbers n [] = n ∷ []
numbers n (c ∷ text) = if c == b'.' then n ∷ numbers 0 text else numbers (n * 10 + (c - 48)) text

abbrev from_string : List ℕ → Result IpAddress
from_string text = if ltb 8 (count b':' text) then err runtime_error else ok (v4 (numbers 0 text))

numbers-digits :
    (n : ℕ) (text : List ℕ)
    → n < 256
    → numbers 0 (to_string n ++ (b'.' ∷ text)) ≡ n ∷ numbers 0 text
unfolding numbers to_string
numbers-digits n text h = ground arith

numbers-to_string : (n : ℕ) → n < 256 → numbers 0 (to_string n) ≡ n ∷ []
unfolding numbers to_string
numbers-to_string n h = ground arith

numbers-joined :
    (b : ℕ) (bytes : List ℕ)
    → All (λ x. x < 256) (b ∷ bytes)
    → numbers 0 (joined b'.' b bytes) ≡ b ∷ bytes
unfolding joined
numbers-joined b [] (h, hs) = numbers-to_string b h
numbers-joined b (c ∷ bytes) (h, hs) =
    rw (numbers-digits b (joined b'.' c bytes) h, numbers-joined c bytes hs) refl

from_string-IsFromString : IsFromString from_string
from_string-IsFromString = record {
  reads-v4 = λ a b c d h.
      rw (count-joined_dots a (b ∷ (c ∷ (d ∷ []))) h, numbers-joined a (b ∷ (c ∷ (d ∷ []))) h) refl;
  refuses = λ text h. rw (lt→ltb 8 (count b':' text) h) refl;
}

abbrev a_node : Node
a_node = record {
  node_id = replicate 32 9;
  node_type = 1;
  address = v4 (127 ∷ (0 ∷ (0 ∷ (1 ∷ []))));
  port = 8080;
}

a_node-IsNode : IsNode a_node
unfolding IsAddress
a_node-IsNode = record {
  id-length = refl;
  type-small = omega arith;
  address-IsAddress = (refl, omega arith);
  port-small = omega arith;
}

-- A node with the address ::1
abbrev new_node : Node
new_node = record a_node { address = v6 (replicate 15 0 ++ (1 ∷ [])) }

new_node-IsNode : IsNode new_node
unfolding IsAddress
new_node-IsNode = record {
  id-length = refl;
  type-small = omega arith;
  address-IsAddress = (refl, omega arith);
  port-small = omega arith;
}

-- Eight random bytes
abbrev random : List ℕ
random = replicate 8 200

abbrev request : List ℕ
request = composed requesting random request_nodes []

request_id : id request ≡ ok random
request_id = id-composed requesting random request_nodes [] refl

-- One node is read, and with a second one of the other kind none
decode_nodes-encode_nodes_example :
    let answer = composed answering random request_nodes (nodes_bytes (a_node ∷ (new_node ∷ []))) in
    (encode_nodes request (a_node ∷ (new_node ∷ [])) ≡ ok answer)
    × (decode_nodes from_string answer ≡ err runtime_error)
unfolding is_v4
decode_nodes-encode_nodes_example =
    decode_nodes-encode_nodes from_string from_string-IsFromString request random
      (a_node ∷ (new_node ∷ [])) (a_node-IsNode, (new_node-IsNode, tt)) request_id refl

abbrev a_node_info : NodeInfo
a_node_info = record {
  node_version = 1;
  current_timestamp = 1656356646000000;
  latest_block_height = 5;
  latest_block_hash = replicate 32 3;
}

a_node_info-IsNodeInfo : IsNodeInfo a_node_info
a_node_info-IsNodeInfo = record {
  version-small = omega arith;
  timestamp-small = omega arith;
  height-small = omega arith;
  hash-length = refl;
}

abbrev my_info : NodeInfo
my_info = record a_node_info { latest_block_height = 2 ^ 64 - 1 }

my_info-IsNodeInfo : IsNodeInfo my_info
my_info-IsNodeInfo = record {
  version-small = omega arith;
  timestamp-small = omega arith;
  height-small = omega arith;
  hash-length = refl;
}

decode_info-encode_info_example :
    let request = composed requesting random info (info_bytes a_node_info) in
    let answer = composed answering random info (info_bytes my_info) in
    (Requests.encode_info random a_node_info ≡ ok request)
    × (Requests.decode_info request ≡ ok a_node_info)
    × (Answers.encode_info request my_info ≡ ok answer)
    × (id answer ≡ id request)
    × (Answers.decode_info answer ≡ ok my_info)
decode_info-encode_info_example =
    decode_info-encode_info random a_node_info my_info a_node_info-IsNodeInfo my_info-IsNodeInfo
      refl

abbrev write : Validator.TxValidator → List ℕ
write tx = Validator.rlp_serialize tx true

abbrev read : List ℕ → Result Validator.TxValidator
read bytes = Validator.deserialize accepting first_bytes bytes

a_validator_tx-IsEntry : IsEntry write read a_validator_tx
a_validator_tx-IsEntry = record {
  back = a_validator_tx_back;
  small = omega (arith, validator_tx_size);
}

decode_block-encode_block_example :
    (encode_block (content accepting keys first_bytes) a_block
      >>= decode_block (content accepting keys first_bytes) 4)
    ≡ ok a_block
decode_block-encode_block_example =
    decode_block-encode_block accepting keys first_bytes a_block 4 a_block-IsSealed
      (a_tx-IsSigned, tt) (a_validator_tx-IsSignedAt, tt)

-- A broadcast that says three bytes
abbrev a_broadcast : List ℕ
a_broadcast = broadcast_bytes broadcast_tx (1 ∷ (2 ∷ (3 ∷ [])))

all_bytes : (bytes : List ℕ) → all (λ b. ltb b 256) bytes ≡ true → All (λ b. b < 256) bytes
all_bytes [] h = tt
all_bytes (b ∷ bytes) h = elim (Bool-cases (ltb b 256)) [
  | inl e ↦ (ground (arith, e), all_bytes bytes (ground (arith, h, e)))
  | inr e ↦ absurd (ground (arith, h, e))
]

a_broadcast-bytes : all (λ b. ltb b 256) a_broadcast ≡ true
unfolding uint64_to_bytes fnv_hash
a_broadcast-bytes = refl

decode_iff_encode_example :
    (decode broadcast_tx (λ said. ok said) a_broadcast ≡ ok (1 ∷ (2 ∷ (3 ∷ [])))) ↔ (
      (encode broadcast_tx (message a_broadcast) ≡ ok a_broadcast)
      × (ok (message a_broadcast) ≡ ok (1 ∷ (2 ∷ (3 ∷ [])))))
decode_iff_encode_example =
    decode_iff_encode broadcast_tx (λ said. ok said) a_broadcast (1 ∷ (2 ∷ (3 ∷ []))) (omega arith)
      (omega (
        arith,
        length-composed broadcasting (uint64_to_bytes (fnv_hash (1 ∷ (2 ∷ (3 ∷ []))))) broadcast_tx
            (1 ∷ (2 ∷ (3 ∷ []))) (length-uint64_to_bytes (fnv_hash (1 ∷ (2 ∷ (3 ∷ []))))),
      ))
      (all_bytes a_broadcast a_broadcast-bytes)

-- An answer that lists nodes, of which only 9 bytes are there
abbrev cut_short : List ℕ
cut_short = composed answering random request_nodes (replicate 9 1)

answers_end_example :
    (decode_nodes from_string cut_short
      ≡ (is_answer request_nodes cut_short >> read_nodes from_string 30 (message cut_short) 0))
    × (decode_validator_txs read cut_short
        ≡ (is_answer request_validator_txs cut_short >> read_txs read 30 (message cut_short) 0))
answers_end_example = answers_end from_string read cut_short 30 (omega arith)
