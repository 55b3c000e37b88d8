-- ===== src/Net/P2p/Ends.antt =====
-- The loops that read the lists of an answer end, whatever the message holds.
use orbitersdk_cpp.Prelude.{
  ℕ, zero, suc, ◌+◌, ◌≤◌, ◌<◌, ◌≡◌, refl, ap, Bool-cases, inl, inr, List, [], ◌∷◌, length, drop,
  Result, ok, ltb, le→ltb_false, arith,
}
use orbitersdk_cpp.Prelude.Throw.{◌>>◌, Result-cases}
use orbitersdk_cpp.Net.P2p.Answers.{
  IpAddress, Node, read_address, read_node, read_nodes, read_txs, is_answer, decode_nodes,
  decode_validator_txs,
}
use orbitersdk_cpp.Net.P2p.{message, request_nodes, request_validator_txs}

module _ (from_string : List ℕ → Result IpAddress) where
  read_address_after :
      (sign n : ℕ) (said : List ℕ) (at : ℕ) (a : IpAddress) (after : ℕ)
      → read_address from_string sign n said at ≡ ok (a, after)
      → after ≡ at + n
  unfolding read_address
  read_address_after sign n said at a after h = ground (arith, h)

  read_node_after :
      (said : List ℕ) (at : ℕ) (node : Node) (after : ℕ)
      → read_node from_string said at ≡ ok (node, after)
      → at < after
  unfolding read_node
  read_node_after said at node after h = ground (
    arith,
    h,
    read_address_after b'.' 4 said (at + 34),
    read_address_after b':' 16 said (at + 34),
  )

  read_nodes-more :
      (f g : ℕ) (said : List ℕ) (at : ℕ)
      → length said ≤ at + f
      → length said ≤ at + g
      → read_nodes from_string f said at ≡ read_nodes from_string g said at
  unfolding read_nodes
  read_nodes-more zero zero said at h k = refl
  read_nodes-more zero (suc g) said at h k =
      rw (read_nodes, le→ltb_false at (length said) (omega (arith, h))) refl
  read_nodes-more (suc f) zero said at h k =
      rw (read_nodes, le→ltb_false at (length said) (omega (arith, k))) refl
  read_nodes-more (suc f) (suc g) said at h k = elim (Bool-cases (ltb at (length said))) [
    | inl e ↦ elim (Result-cases (read_node from_string said at)) [
      | inl (_, threw) ↦ rw (read_nodes, e, threw) refl
      | inr ((node, after), returned) ↦
          let on = read_node_after said at node after returned in
          let rest = read_nodes-more f g said after (omega (arith, h, on)) (omega (arith, k, on)) in
          rw (read_nodes, e, returned, rest) refl
    ]
    | inr e ↦ rw (read_nodes, e) refl
  ]

module _ {Tx : Type 0} (read : List ℕ → Result Tx) where
  read_txs-more :
      (f g : ℕ) (said : List ℕ) (at : ℕ)
      → length said ≤ at + f
      → length said ≤ at + g
      → read_txs read f said at ≡ read_txs read g said at
  unfolding read_txs
  read_txs-more zero zero said at h k = refl
  read_txs-more zero (suc g) said at h k =
      rw (read_txs, le→ltb_false at (length said) (omega (arith, h))) refl
  read_txs-more (suc f) zero said at h k =
      rw (read_txs, le→ltb_false at (length said) (omega (arith, k))) refl
  read_txs-more (suc f) (suc g) said at h k =
      let rest : (size : ℕ)
          → read_txs read f said (at + 4 + size) ≡ read_txs read g said (at + 4 + size) =
        λ size. read_txs-more f g said (at + 4 + size) (omega (arith, h)) (omega (arith, k)) in
      grind (arith, rest)

length-drop_le : (n : ℕ) (xs : List ℕ) → length (drop n xs) ≤ length xs
length-drop_le zero xs = omega arith
length-drop_le (suc n) [] = omega arith
length-drop_le (suc n) (x ∷ xs) = omega (arith, length-drop_le n xs)

module _ (from_string : List ℕ → Result IpAddress) {Tx : Type 0} (read : List ℕ → Result Tx) where
  -- Whatever a message holds, the loops that read the list of an answer end within as many rounds as the message has bytes: more fuel gives the same list or the same exception.
  pub answers_end :
      (raw : List ℕ) (fuel : ℕ)
      → length raw ≤ fuel
      → (decode_nodes from_string raw
          ≡ (is_answer request_nodes raw >> read_nodes from_string fuel (message raw) 0))
        × (decode_validator_txs read raw
            ≡ (is_answer request_validator_txs raw >> read_txs read fuel (message raw) 0))
  unfolding decode_nodes decode_validator_txs message
  answers_end raw fuel h =
      let enough = length-drop_le 11 raw in
      let said : List ℕ = drop 11 raw in
      (
        ap (λ r. is_answer request_nodes raw >> r)
            (read_nodes-more from_string (length raw) fuel said 0 (omega (arith, enough))
              (omega (arith, h, enough))),
        ap (λ r. is_answer request_validator_txs raw >> r)
            (read_txs-more read (length raw) fuel said 0 (omega (arith, enough))
              (omega (arith, h, enough))),
      )
