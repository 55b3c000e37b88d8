-- ===== src/Net/P2p/Nodes.antt =====
-- The answer that lists nodes: an answer with IPv4 addresses is decoded, one with an IPv6 address is not.
use mathlib.Core.List.{append_assoc}
use orbitersdk_cpp.Prelude.{
  ℕ, zero, suc, ◌+◌, ◌≤◌, ◌≡◌, Bool-cases, inl, inr, refl, All, all, true, List, [], ◌∷◌, ◌++◌,
  length, length-append, Result, ok, err, runtime_error, lt→ltb, le→ltb_false, if◌then◌else◌, arith,
}
use orbitersdk_cpp.Prelude.Throw.{◌>>=◌}
use orbitersdk_cpp.Utils.Bytes.Wide.{uint8_to_bytes, uint16_to_bytes}
use orbitersdk_cpp.Utils.Bytes.Windows.{Holds, Holds-all, Holds-right}
use orbitersdk_cpp.Net.P2p.{answering, id, request_nodes}
use orbitersdk_cpp.Net.P2p.Composed.{composed, compose_lem, message-composed, length-composed}
use orbitersdk_cpp.Net.P2p.Answers.{
  IpAddress, v4, v6, Node, address_bytes, node_bytes, nodes_bytes, encode_nodes, read_nodes,
  decode_nodes,
}
use orbitersdk_cpp.Net.P2p.Lists.{is_answer-composed}
use orbitersdk_cpp.Net.P2p.Addresses.{IsFromString}
use orbitersdk_cpp.Net.P2p.NodeFields.{
  is_v4, IsAddress, IsNode, length-uint8_to_bytes, length-uint16_to_bytes, read_node-node_bytes,
}

length-node_bytes_v4 :
    (a : IpAddress) (node : Node)
    → IsAddress a
    → is_v4 a ≡ true
    → length node.node_id ≡ 32
    → length (
        uint8_to_bytes node.node_type
        ++ (node.node_id ++ (address_bytes a ++ uint16_to_bytes node.port)))
      ≡ 40
unfolding address_bytes IsAddress is_v4
length-node_bytes_v4 (v4 b) node (width, small) h id_width = omega (
  arith,
  width,
  id_width,
  length-append (uint8_to_bytes node.node_type)
      (node.node_id ++ ((uint8_to_bytes 0 ++ b) ++ uint16_to_bytes node.port)),
  length-append node.node_id ((uint8_to_bytes 0 ++ b) ++ uint16_to_bytes node.port),
  length-append (uint8_to_bytes 0 ++ b) (uint16_to_bytes node.port),
  length-append (uint8_to_bytes 0) b,
  length-uint8_to_bytes node.node_type,
  length-uint8_to_bytes 0,
  length-uint16_to_bytes node.port,
)
length-node_bytes_v4 (v6 b) node valid h id_width = absurd (ground (arith, h))

length-node_bytes :
    (node : Node) → IsNode node → is_v4 node.address ≡ true → length (node_bytes node) ≡ 40
unfolding node_bytes
length-node_bytes node valid old =
    length-node_bytes_v4 node.address node valid.address-IsAddress old valid.id-length

length-ge-node_bytes : (node : Node) → 1 ≤ length (node_bytes node)
unfolding node_bytes
length-ge-node_bytes node = omega (
  arith,
  length-append (uint8_to_bytes node.node_type)
      (node.node_id ++ (address_bytes node.address ++ uint16_to_bytes node.port)),
  length-uint8_to_bytes node.node_type,
)

length-nodes_bytes : (nodes : List Node) → length nodes ≤ length (nodes_bytes nodes)
unfolding nodes_bytes
length-nodes_bytes [] = omega arith
length-nodes_bytes (node ∷ nodes) = omega (
  arith,
  length-append (node_bytes node) (nodes_bytes nodes),
  length-ge-node_bytes node,
  length-nodes_bytes nodes,
)

regrouped :
    (node : Node) (rest : List ℕ)
    → node_bytes node ++ rest
      ≡ uint8_to_bytes node.node_type
        ++ (node.node_id ++ (address_bytes node.address ++ (uint16_to_bytes node.port ++ rest)))
unfolding node_bytes
regrouped node rest = simp append_assoc

abbrev decoded : List Node → Result (List Node)
decoded nodes = if all (λ node. is_v4 node.address) nodes then ok nodes else err runtime_error

added :
    (node : Node) (nodes : List Node)
    → (decoded nodes >>= λ more. ok (node ∷ more))
      ≡ (if all (λ n. is_v4 n.address) nodes then ok (node ∷ nodes) else err runtime_error)
added node nodes = elim (Bool-cases (all (λ n. is_v4 n.address) nodes)) [
  | inl every ↦ rw every
  | inr some ↦ rw some
]

module _ (from_string : List ℕ → Result IpAddress) (laws : IsFromString from_string) where
  read_nodes-nodes_bytes :
      (nodes : List Node) (fuel : ℕ) (said : List ℕ) (at : ℕ)
      → All IsNode nodes
      → Holds said at (nodes_bytes nodes)
      → at + length (nodes_bytes nodes) ≡ length said
      → length nodes ≤ fuel
      → read_nodes from_string fuel said at ≡ decoded nodes
  unfolding read_nodes nodes_bytes
  read_nodes-nodes_bytes [] zero said at h here whole enough = refl
  read_nodes-nodes_bytes [] (suc fuel) said at h here whole enough =
      rw (read_nodes, le→ltb_false at (length said) (omega (arith, whole))) refl
  read_nodes-nodes_bytes (node ∷ nodes) zero said at h here whole enough =
      absurd (omega (arith, enough))
  read_nodes-nodes_bytes (node ∷ nodes) (suc fuel) said at (valid, h) here whole enough =
      let more : List ℕ = nodes_bytes nodes in
      let total : at + (length (node_bytes node) + length more) ≡ length said =
        omega (arith, whole, length-append (node_bytes node) more) in
      let read =
        read_node-node_bytes from_string laws said at node.address node more refl
          valid.address-IsAddress valid (rw (regrouped node more) at here) in
      let inside = lt→ltb at (length said) (omega (arith, total, length-ge-node_bytes node)) in
      elim (Bool-cases (is_v4 node.address)) [
        | inl old ↦
            let size = length-node_bytes node valid old in
            let next : at + length (node_bytes node) ≡ at + 40 = omega (arith, size) in
            let others =
              read_nodes-nodes_bytes nodes fuel said (at + 40) h
                (rw next at (Holds-right (node_bytes node) here)) (omega (arith, total, size))
                (omega (arith, enough)) in
            rw (read_nodes, inside, read, old, others) (added node nodes)
        | inr new ↦ rw (read_nodes, inside, read, new) refl
      ]

  -- The answer to a request for the nodes is decoded as the nodes that it was made of if all have an IPv4 address, and a runtime_error is thrown if one has an IPv6 address; the request has an id of 8 bytes, and the nodes have an id of 32 bytes, a type of one byte, a port of two, and as many bytes of an address as its kind has.
  pub decode_nodes-encode_nodes :
      (request i : List ℕ) (nodes : List Node)
      → All IsNode nodes
      → id request ≡ ok i
      → length i ≡ 8
      → let answer = composed answering i request_nodes (nodes_bytes nodes) in
        (encode_nodes request nodes ≡ ok answer)
        × (decode_nodes from_string answer
            ≡ (if all (λ node. is_v4 node.address) nodes then ok nodes else err runtime_error))
  unfolding encode_nodes decode_nodes
  decode_nodes-encode_nodes request i nodes h asked width =
      let said : List ℕ = nodes_bytes nodes in
      let answer : List ℕ = composed answering i request_nodes said in
      let enough : length nodes ≤ length answer =
        omega
          (arith, length-composed answering i request_nodes said width, length-nodes_bytes nodes) in
      (
        rw asked (compose_lem answering i request_nodes said width),
        rw
            (
              is_answer-composed i request_nodes said width (omega arith),
              message-composed answering i request_nodes said width,
            )
            (read_nodes-nodes_bytes nodes (length answer) said 0 h (Holds-all said) (omega arith)
              enough),
      )
