-- ===== src/Net/P2p/Requests.antt =====
-- `RequestEncoder` and `RequestDecoder`. The random id, and the node's version, time and latest block,
-- are arguments.
use orbitersdk_cpp.Prelude.{
  ℕ, Bool, true, false, not, List, [], length, Result, ok, runtime_error, ◌==◌,
}
use orbitersdk_cpp.Prelude.Throw.{◌>>=◌, ◌>>◌, throw_if}
use orbitersdk_cpp.Net.P2p.{
  requesting, ping, info, request_nodes, request_validator_txs, compose, NodeInfo, info_bytes,
  read_info, command, message,
}

unfoldable pub encode_ping : List ℕ → Result (List ℕ)
unfolding compose
encode_ping random = compose requesting random ping []

unfoldable pub encode_info : List ℕ → NodeInfo → Result (List ℕ)
unfolding compose info_bytes
encode_info random node = compose requesting random info (info_bytes node)

unfoldable pub encode_request_nodes : List ℕ → Result (List ℕ)
unfolding compose
encode_request_nodes random = compose requesting random request_nodes []

unfoldable pub encode_request_validator_txs : List ℕ → Result (List ℕ)
unfolding compose
encode_request_validator_txs random = compose requesting random request_validator_txs []

-- A request without contents, of this command
unfoldable pub is_request : ℕ → List ℕ → Result Bool
unfolding command
is_request expected raw = elim (not (length raw == 11)) [
  | true ↦ ok false
  | false ↦ do c ← command raw; ok (c == expected)
]

unfoldable pub decode_ping : List ℕ → Result Bool
unfolding is_request
decode_ping raw = is_request ping raw

unfoldable pub decode_request_nodes : List ℕ → Result Bool
unfolding is_request
decode_request_nodes raw = is_request request_nodes raw

unfoldable pub decode_request_validator_txs : List ℕ → Result Bool
unfolding is_request
decode_request_validator_txs raw = is_request request_validator_txs raw

unfoldable pub decode_info : List ℕ → Result NodeInfo
unfolding command message read_info
decode_info raw = do
  throw_if (not (length raw == 67)) runtime_error
  c ← command raw
  throw_if (not (c == info)) runtime_error
  read_info (message raw)
