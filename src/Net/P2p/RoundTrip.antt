-- ===== src/Net/P2p/RoundTrip.antt =====
-- Broadcasts and infos that were encoded are decoded.
use orbitersdk_cpp.Prelude.{
  ℕ, ◌*◌, ◌%◌, ◌^◌, ◌<◌, ◌≡◌, refl, sym, ap, ◌∙◌, List, [], ◌∷◌, ◌++◌, length, length-append,
  Result, ok, runtime_error, not, ◌==◌, arith, bit_xor,
}
use mathlib.Core.List.{append-nil}
use orbitersdk_cpp.Prelude.Throw.{◌>>=◌, throw_if, >>=-ok}
use orbitersdk_cpp.Utils.Bytes.Fixed.{
  uint64_to_bytes, length-uint64_to_bytes, bytes_to_uint64-uint64_to_bytes,
}
use orbitersdk_cpp.Utils.Bytes.Windows.{Holds-all, Holds-left, Holds-right, substr-Holds}
use orbitersdk_cpp.Utils.Strings.{hash_of_view}
use orbitersdk_cpp.Net.P2p.{
  requesting, answering, broadcasting, info, type, id, command, message, to_uint64, fnv_loop,
  fnv_hash, NodeInfo, info_bytes, read_info,
}
use orbitersdk_cpp.Net.P2p.Composed.{
  composed, compose_lem, length-composed, type-composed, id-composed, command-composed,
  message-composed,
}
use orbitersdk_cpp.Net.P2p.Requests
use orbitersdk_cpp.Net.P2p.Answers
use orbitersdk_cpp.Net.P2p.Broadcasts.{encode, decode}

fnv_loop-lt : (result : ℕ) (s : List ℕ) → result < 2 ^ 64 → fnv_loop result s < 2 ^ 64
unfolding fnv_loop
fnv_loop-lt result [] h = h
fnv_loop-lt result (byte ∷ s) h =
    fnv_loop-lt (bit_xor (16777619 * result % 2 ^ 64) byte % 2 ^ 64) s (omega arith)

fnv_hash-lt : (s : List ℕ) → fnv_hash s < 2 ^ 64
unfolding fnv_hash
fnv_hash-lt s = fnv_loop-lt 2166136261 s (omega arith)

-- The bytes of a broadcast
abbrev pub broadcast_bytes : ℕ → List ℕ → List ℕ
broadcast_bytes c said = composed broadcasting (uint64_to_bytes (fnv_hash said)) c said

pub encode_lem : (c : ℕ) (said : List ℕ) → encode c said ≡ ok (broadcast_bytes c said)
unfolding encode
encode_lem c said =
    compose_lem broadcasting (uint64_to_bytes (fnv_hash said)) c said
      (length-uint64_to_bytes (fnv_hash said))

-- What is broadcast reaches the constructor of its class as it was written.
pub decode-broadcast_bytes :
    {A : Type 0} (c : ℕ) (said : List ℕ) (read : List ℕ → Result A)
    → c < 7
    → (encode c said ≡ ok (broadcast_bytes c said))
      × (decode c read (broadcast_bytes c said) ≡ read said)
unfolding decode to_uint64
decode-broadcast_bytes c said read h =
    let i : List ℕ = uint64_to_bytes (fnv_hash said) in
    let width = length-uint64_to_bytes (fnv_hash said) in
    (
      encode_lem c said,
      rw
          (
            type-composed broadcasting i c said (omega arith),
            id-composed broadcasting i c said width,
            bytes_to_uint64-uint64_to_bytes (fnv_hash said) (fnv_hash-lt said),
            message-composed broadcasting i c said width,
            command-composed broadcasting i c said width h,
          )
          (ground arith),
    )

-- What the checks of a decoder leave
pub record Accepted {A : Type 0} (c : ℕ) (read : List ℕ → Result A) (raw : List ℕ) (a : A)
    : Type 0 where
  pub typed : type raw ≡ ok broadcasting
  pub hashed : (id raw >>= to_uint64) ≡ ok (fnv_hash (message raw))
  pub commanded : command raw ≡ ok c
  pub said : read (message raw) ≡ ok a

checked : (n k : ℕ) → throw_if (not (n == k)) runtime_error ≡ ok tt → n ≡ k
checked n k h = ground (arith, h)

pub decode-Accepted :
    {A : Type 0} (c : ℕ) (read : List ℕ → Result A) (raw : List ℕ) (a : A)
    → decode c read raw ≡ ok a
    → Accepted c read raw a
unfolding decode
decode-Accepted c read raw a h =
    let (t, typed, h1) = >>=-ok (type raw) _ a h in
    let (_, t_ok, h2) = >>=-ok (throw_if (not (t == broadcasting)) runtime_error) _ a h1 in
    let (i, i_read, h3) = >>=-ok (id raw) _ a h2 in
    let (n, n_read, h4) = >>=-ok (to_uint64 i) _ a h3 in
    let (_, n_ok, h5) =
      >>=-ok (throw_if (not (n == fnv_hash (message raw))) runtime_error) _ a h4 in
    let (k, commanded, h6) = >>=-ok (command raw) _ a h5 in
    let (_, k_ok, h7) = >>=-ok (throw_if (not (k == c)) runtime_error) _ a h6 in
    record {
      typed = typed ∙ ap ok (checked t broadcasting t_ok);
      hashed = rw i_read (n_read ∙ ap ok (checked n (fnv_hash (message raw)) n_ok));
      commanded = commanded ∙ ap ok (checked k c k_ok);
      said = h7;
    }

-- What an info says is read back.
read_info-info_bytes :
    (node : NodeInfo)
    → node.node_version < 2 ^ 64
    → node.current_timestamp < 2 ^ 64
    → node.latest_block_height < 2 ^ 64
    → length node.latest_block_hash ≡ 32
    → read_info (info_bytes node) ≡ ok node
unfolding read_info info_bytes hash_of_view
read_info-info_bytes node h k l m =
    let version : List ℕ = uint64_to_bytes node.node_version in
    let epoch : List ℕ = uint64_to_bytes node.current_timestamp in
    let height : List ℕ = uint64_to_bytes node.latest_block_height in
    let hash : List ℕ = node.latest_block_hash in
    let v = length-uint64_to_bytes node.node_version in
    let e = length-uint64_to_bytes node.current_timestamp in
    let n = length-uint64_to_bytes node.latest_block_height in
    let h0 = Holds-all (info_bytes node) in
    let h1 = Holds-right version h0 in
    let h2 = Holds-right epoch h1 in
    let h3 = Holds-right height h2 in
    rw
      (
        substr-Holds 0 8 (Holds-left (epoch ++ (height ++ hash)) h0) refl v,
        bytes_to_uint64-uint64_to_bytes node.node_version h,
        substr-Holds 8 8 (Holds-left (height ++ hash) h1) (omega (arith, v)) e,
        bytes_to_uint64-uint64_to_bytes node.current_timestamp k,
        substr-Holds 16 8 (Holds-left hash h2) (omega (arith, v, e)) n,
        bytes_to_uint64-uint64_to_bytes node.latest_block_height l,
        substr-Holds 24 32 h3 (omega (arith, v, e, n)) m,
        m,
        append-nil hash,
      )
      refl

-- The hash of a node is 32 bytes, and the numbers have 64 bits.
pub record IsNodeInfo (node : NodeInfo) : Type 0 where
  pub version-small : node.node_version < 2 ^ 64
  pub timestamp-small : node.current_timestamp < 2 ^ 64
  pub height-small : node.latest_block_height < 2 ^ 64
  pub hash-length : length node.latest_block_hash ≡ 32

module _ (node : NodeInfo) (valid : IsNodeInfo node) where
  read_back : read_info (info_bytes node) ≡ ok node
  read_back =
      read_info-info_bytes node valid.version-small valid.timestamp-small valid.height-small
        valid.hash-length

  length-info_bytes : length (info_bytes node) ≡ 56
  unfolding info_bytes
  length-info_bytes =
      let version : List ℕ = uint64_to_bytes node.node_version in
      let epoch : List ℕ = uint64_to_bytes node.current_timestamp in
      let height : List ℕ = uint64_to_bytes node.latest_block_height in
      omega (
        arith,
        valid.hash-length,
        length-append version (epoch ++ (height ++ node.latest_block_hash)),
        length-append epoch (height ++ node.latest_block_hash),
        length-append height node.latest_block_hash,
        length-uint64_to_bytes node.node_version,
        length-uint64_to_bytes node.current_timestamp,
        length-uint64_to_bytes node.latest_block_height,
      )

module _ (t : ℕ) (i : List ℕ) (node : NodeInfo) (valid : IsNodeInfo node)
    (width : length i ≡ 8) where
  abbrev sent : List ℕ
  sent = composed t i info (info_bytes node)

  command-sent : command sent ≡ ok info
  command-sent = command-composed t i info (info_bytes node) width (omega arith)

  read_info-sent : read_info (message sent) ≡ ok node
  read_info-sent = rw (message-composed t i info (info_bytes node) width) (read_back node valid)

-- A request for the info of a node, and the answer to it, tell each side the version, time, height and hash of the other, if the id has 8 bytes, the hash 32, and the numbers have 64 bits; the answer has the id of the request.
pub decode_info-encode_info :
    (random : List ℕ) (node me : NodeInfo)
    → IsNodeInfo node
    → IsNodeInfo me
    → length random ≡ 8
    → let request = composed requesting random info (info_bytes node) in
      let answer = composed answering random info (info_bytes me) in
      (Requests.encode_info random node ≡ ok request)
      × (Requests.decode_info request ≡ ok node)
      × (Answers.encode_info request me ≡ ok answer)
      × (id answer ≡ id request)
      × (Answers.decode_info answer ≡ ok me)
unfolding Requests.encode_info Requests.decode_info Answers.encode_info Answers.decode_info
decode_info-encode_info random node me valid mine width =
    let request : List ℕ = composed requesting random info (info_bytes node) in
    let request_id = id-composed requesting random info (info_bytes node) width in
    let answer_id = id-composed answering random info (info_bytes me) width in
    let size : length request ≡ 67 = omega (
      arith,
      length-composed requesting random info (info_bytes node) width,
      length-info_bytes node valid,
    ) in
    (
      compose_lem requesting random info (info_bytes node) width,
      rw
          (
            size,
            command-sent requesting random node valid width,
            read_info-sent requesting random node valid width,
          )
          refl,
      rw request_id (compose_lem answering random info (info_bytes me) width),
      answer_id ∙ sym request_id,
      rw
          (
            type-composed answering random info (info_bytes me) (omega arith),
            command-sent answering random me mine width,
            read_info-sent answering random me mine width,
          )
          refl,
    )
