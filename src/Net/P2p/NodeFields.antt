-- ===== src/Net/P2p/NodeFields.antt =====
-- One node in the answer that lists nodes: what the decoder reads of it, by the kind of its address.
use orbitersdk_cpp.Prelude.{
  ℕ, ◌+◌, ◌^◌, ◌≤◌, ◌<◌, ◌≡◌, refl, sym, ap, ◌∙◌, All, Bool, true, false, List, [], ◌∷◌, ◌++◌,
  length, length-append, Result, ok, err, runtime_error, le→ltb_false, if◌then◌else◌, arith,
}
use orbitersdk_cpp.Utils.Bytes.{from_big_endian, from_big_endian_loop}
use orbitersdk_cpp.Utils.Bytes.Fixed.{reversed}
use orbitersdk_cpp.Utils.Bytes.Wide.{
  uint8_to_bytes, bytes_to_uint8, uint16_to_bytes, bytes_to_uint16,
}
use orbitersdk_cpp.Utils.Bytes.Windows.{Holds, Holds-bound, Holds-left, Holds-right, substr-Holds}
use orbitersdk_cpp.Utils.Strings.{resize_lem}
use orbitersdk_cpp.Net.P2p.Answers.{IpAddress, v4, v6, Node, address_bytes, read_address, read_node}
use orbitersdk_cpp.Net.P2p.Addresses.{joined, IsFromString, ip_text, count-joined}

unfoldable pub is_v4 : IpAddress → Bool
is_v4 (v4 b) = true
is_v4 (v6 b) = false

-- The number of its bytes, and that they are bytes
unfoldable pub IsAddress : IpAddress → Type 0
IsAddress (v4 b) = (length b ≡ 4) × All (λ x. x < 256) b
IsAddress (v6 b) = (length b ≡ 16) × All (λ x. x < 256) b

pub record IsNode (node : Node) : Type 0 where
  pub id-length : length node.node_id ≡ 32
  pub type-small : node.node_type < 256
  pub address-IsAddress : IsAddress node.address
  pub port-small : node.port < 2 ^ 16

bytes_to_uint8-uint8_to_bytes : (n : ℕ) → n < 256 → bytes_to_uint8 (uint8_to_bytes n) ≡ ok n
unfolding bytes_to_uint8 uint8_to_bytes reversed from_big_endian from_big_endian_loop
bytes_to_uint8-uint8_to_bytes n h = ap ok (omega (arith, h))

bytes_to_uint16-uint16_to_bytes : (n : ℕ) → n < 2 ^ 16 → bytes_to_uint16 (uint16_to_bytes n) ≡ ok n
unfolding bytes_to_uint16 uint16_to_bytes reversed from_big_endian from_big_endian_loop
bytes_to_uint16-uint16_to_bytes n h = ap ok (omega (arith, h))

pub length-uint8_to_bytes : (n : ℕ) → length (uint8_to_bytes n) ≡ 1
unfolding uint8_to_bytes reversed
length-uint8_to_bytes n = refl

pub length-uint16_to_bytes : (n : ℕ) → length (uint16_to_bytes n) ≡ 2
unfolding uint16_to_bytes reversed
length-uint16_to_bytes n = refl

module _ (from_string : List ℕ → Result IpAddress) (laws : IsFromString from_string) where
  read_v4 :
      (b : List ℕ) (said : List ℕ) (at : ℕ)
      → length b ≡ 4
      → All (λ x. x < 256) b
      → Holds said at b
      → read_address from_string b'.' 4 said at ≡ ok (v4 b, at + 4)
  unfolding read_address
  read_v4 (w ∷ (x ∷ (y ∷ (z ∷ [])))) said at h small here =
      rw
        (
          substr-Holds at 4 here refl refl,
          ip_text b'.' w (x ∷ (y ∷ (z ∷ []))),
          laws.reads-v4 w x y z small,
        )
        refl
  read_v4 b said at h small here = absurd (omega (arith, h))

  read_v6 :
      (b : List ℕ) (said : List ℕ) (at : ℕ)
      → length b ≡ 16
      → All (λ x. x < 256) b
      → Holds said at b
      → read_address from_string b':' 16 said at ≡ err runtime_error
  unfolding read_address
  read_v6 [] said at h small here = absurd (omega (arith, h))
  read_v6 (x ∷ b) said at h small here =
      rw
        (
          substr-Holds at 16 here refl h,
          ip_text b':' x b,
          laws.refuses (joined b':' x b) (omega (arith, count-joined x b small, h)),
        )
        refl

  -- The fields in front of an address, behind `at`
  record Fields (said : List ℕ) (at : ℕ) (node : Node) (version : ℕ) (b : List ℕ) : Type 0 where
    typed : Holds said at (uint8_to_bytes node.node_type)
    ident : Holds said (at + 1) node.node_id
    versioned : Holds said (at + 33) (uint8_to_bytes version)
    addressed : Holds said (at + 34) b
    ported : Holds said (at + 34 + length b) (uint16_to_bytes node.port)

  fields :
      (said : List ℕ) (at : ℕ) (node : Node) (version : ℕ) (b rest : List ℕ)
      → length node.node_id ≡ 32
      → Holds said at (
          uint8_to_bytes node.node_type
          ++ (node.node_id
              ++ ((uint8_to_bytes version ++ b) ++ (uint16_to_bytes node.port ++ rest))))
      → Fields said at node version b
  fields said at node version b rest width here =
      let t : List ℕ = uint8_to_bytes node.node_type in
      let v : List ℕ = uint8_to_bytes version in
      let port : List ℕ = uint16_to_bytes node.port in
      let one = length-uint8_to_bytes node.node_type in
      let after_type = Holds-right t here in
      let after_id = Holds-right node.node_id after_type in
      let address = Holds-left (port ++ rest) after_id in
      let sizes = length-append v b in
      let place_1 : at + length t ≡ at + 1 = omega (arith, one) in
      let place_33 : at + length t + length node.node_id ≡ at + 33 = omega (arith, one, width) in
      let place_34 : at + length t + length node.node_id + length v ≡ at + 34 =
        omega (arith, one, width, length-uint8_to_bytes version) in
      let place_end : at + length t + length node.node_id + length (v ++ b) ≡ at + 34 + length b =
        omega (arith, one, width, length-uint8_to_bytes version, sizes) in
      record {
        typed = Holds-left (node.node_id ++ ((v ++ b) ++ (port ++ rest))) here;
        ident = rw place_1 at (Holds-left ((v ++ b) ++ (port ++ rest)) after_type);
        versioned = rw place_33 at (Holds-left b address);
        addressed = rw place_34 at (Holds-right v address);
        ported = rw place_end at (Holds-left rest (Holds-right (v ++ b) after_id));
      }

  read_node_v4 :
      (said : List ℕ) (at : ℕ) (node : Node) (b : List ℕ)
      → node.address ≡ v4 b
      → IsNode node
      → Fields said at node 0 b
      → 40 ≤ length said
      → length b ≡ 4
      → All (λ x. x < 256) b
      → read_node from_string said at ≡ ok (node, at + 40)
  unfolding read_node
  read_node_v4 said at node b same valid f long width small =
      let next : at + 34 + length b ≡ at + 34 + 4 = omega (arith, width) in
      rw
        (
          le→ltb_false (length said) 40 long,
          substr-Holds at 1 f.typed refl (length-uint8_to_bytes node.node_type),
          bytes_to_uint8-uint8_to_bytes node.node_type valid.type-small,
          substr-Holds (at + 1) 32 f.ident refl valid.id-length,
          substr-Holds (at + 33) 1 f.versioned refl (length-uint8_to_bytes 0),
          bytes_to_uint8-uint8_to_bytes 0 (omega arith),
          read_v4 b said (at + 34) width small f.addressed,
          substr-Holds (at + 34 + 4) 2 f.ported next (length-uint16_to_bytes node.port),
          bytes_to_uint16-uint16_to_bytes node.port valid.port-small,
          resize_lem 32 node.node_id valid.id-length,
        )
        (ap (λ a. ok (record node { address = a }, at + 34 + 4 + 2)) (sym same)
          ∙ ap (λ n. ok (node, n)) (omega arith))

  read_node_v6 :
      (said : List ℕ) (at : ℕ) (node : Node) (b : List ℕ)
      → IsNode node
      → Fields said at node 1 b
      → 40 ≤ length said
      → length b ≡ 16
      → All (λ x. x < 256) b
      → read_node from_string said at ≡ err runtime_error
  unfolding read_node
  read_node_v6 said at node b valid f long width small =
      rw
        (
          le→ltb_false (length said) 40 long,
          substr-Holds at 1 f.typed refl (length-uint8_to_bytes node.node_type),
          bytes_to_uint8-uint8_to_bytes node.node_type valid.type-small,
          substr-Holds (at + 1) 32 f.ident refl valid.id-length,
          substr-Holds (at + 33) 1 f.versioned refl (length-uint8_to_bytes 1),
          bytes_to_uint8-uint8_to_bytes 1 (omega arith),
          read_v6 b said (at + 34) width small f.addressed,
        )
        refl

  -- Reading a node of one kind, given what follows
  pub read_node-node_bytes :
      (said : List ℕ) (at : ℕ) (a : IpAddress) (node : Node) (rest : List ℕ)
      → node.address ≡ a
      → IsAddress a
      → IsNode node
      → Holds said at (
          uint8_to_bytes node.node_type
          ++ (node.node_id ++ (address_bytes a ++ (uint16_to_bytes node.port ++ rest))))
      → read_node from_string said at ≡ (if is_v4 a then ok (node, at + 40) else err runtime_error)
  unfolding address_bytes IsAddress is_v4
  read_node-node_bytes said at (v4 b) node rest same (width, small) valid here =
      let f = fields said at node 0 b rest valid.id-length here in
      read_node_v4 said at node b same valid f
        (omega (arith, Holds-bound f.ported, width, length-uint16_to_bytes node.port)) width small
  read_node-node_bytes said at (v6 b) node rest same (width, small) valid here =
      let f = fields said at node 1 b rest valid.id-length here in
      read_node_v6 said at node b valid f
        (omega (arith, Holds-bound f.ported, width, length-uint16_to_bytes node.port)) width small
